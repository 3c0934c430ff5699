-- ===== src/Handler.antt =====
-- src/server/handler.rs, `chat_completions_handler` around the retry loop (Failover): the limits,
-- the cache, the route, the request that is sent and what follows the answer. The client's address
-- and agent, which are only logged, are left out, as are the log rows of the database's own faults.
-- The body of a streamed answer and the task that inspects it (Inspector) run after the handler.
pub mod Permits
pub mod Cached
pub mod Calls
mod Examples
use llm_proxy.Prelude.{
  ℕ, ◌+◌, String, Bool, true, false, not, ◌&&◌, Option, none, some, List, [], ◌∷◌, ◌++◌, arith, ltb,
  if◌then◌else◌, get_or, is_some, pair_eq, string_eq, nat_eq,
}
use llm_proxy.AppError.{AppError, upstream, Result, ok, err, ◌>>=◌}
use llm_proxy.Json.{Value, object, Fields, no_fields, field, get, put}
use llm_proxy.Alerts.{AlertEvent, latency_spike, rate_limited}
use llm_proxy.Config.KeyEntry.{KeyEntry}
use llm_proxy.Router.{Sampler, Route, Router, Resolved, resolve}
use llm_proxy.Failover.{Env, State, Success}
use llm_proxy.Failover.Termination.{run-HasEnded}
use llm_proxy.Concurrency.{ConcurrencyLimiter, ConcurrencyGuard, acquire, release}
use llm_proxy.PromptCache.{PromptCache}
use llm_proxy.Pricing.{Float, PricingConfig}
use llm_proxy.ModelCatalog.{translate_reasoning_effort}
use llm_proxy.ResponseNormalize.Message.{normalize_message}
use llm_proxy.Provider.{
  ChatCompletionRequest, Usage, Choice, ChatCompletionResponse, Body, ProviderResponse, once,
  stream, AuditFromProvider, no_audit,
}
use llm_proxy.Metrics.{
  Metrics, inc_total_requests, inc_failed, inc_stream, inc_cache_hit, add_prompt_tokens,
  add_completion_tokens, record_latency_ms,
}
use llm_proxy.PromptCache
use llm_proxy.Router
use llm_proxy.Pricing.{cost_usd}

abbrev pub Request : Type 0 → Type 0 → Type 0 → Type 0
Request N F T = ChatCompletionRequest N F T

abbrev pub Answer : Type 0 → Type 0 → Type 0
Answer N T = ChatCompletionResponse N T

-- A row of `request_log`, as far as it tells the answers apart.
pub record RequestLog (F : Type 0) : Type 0 where
  pub ts : ℕ
  pub model : String
  pub pool_id : String
  pub key_hash : String
  pub upstream_url : Option String
  pub latency_ms : ℕ
  pub usage : Option Usage
  pub audit : AuditFromProvider
  pub retry_count : ℕ
  pub tenant_id : String
  pub cost_usd : Option F

-- An `Arc<dyn Provider>`: at each attempt it may answer anew.
pub record ProviderObject (N F T C : Type 0) : Type 0 where
  pub base_url : String
  pub chat : ℕ → Request N F T → KeyEntry → Result (ProviderResponse N T C)
  pub extract_audit : ProviderResponse N T C → AuditFromProvider

-- What the handler reads: the router of the moment, the policies and the surroundings.
pub record Services (N T C : Type 0) (float : Float) : Type 0 where
  pub router : Router (ProviderObject N float.F T C) (Value N)
  -- the parsed capabilities of the registry's enabled entry of a model, if there is one
  pub catalog : String → Option (Option (Value N))
  pub pricing : PricingConfig float
  pub max_retries : ℕ
  -- rounds that the loop is given and does not need
  pub spare_rounds : ℕ
  pub bad_status_codes : List ℕ
  pub min_error_burst : ℕ
  pub min_latency_ms : ℕ
  pub cache_max_entries : ℕ
  pub strip_think_tags : Bool
  pub cache_key : Request N float.F T → String
  -- `temperature.unwrap_or(0.0) < 0.01`
  pub is_cold : Option float.F → Bool
  pub compute_key_hash : String → String
  pub sample : ℕ → Sampler
  pub ensure_fresh : ℕ → KeyEntry → Result KeyEntry
  pub instant : ℕ → ℕ
  pub now_ms : ℕ → ℕ
  pub latency_ms : ℕ
  pub to_string : ℕ → String

-- The shared state; `loop` holds what the retry loop shares.
pub record AppState (N T : Type 0) (float : Float) : Type 0 where
  pub metrics : Metrics
  pub concurrency : ConcurrencyLimiter
  pub cache : PromptCache (Answer N T)
  pub loop : State
  pub logs : List (RequestLog float.F)

-- A JSON answer, or an event stream that is passed on, normalised or not.
pub data Reply (N T C : Type 0) : Type 0 where
  json : Answer N T → Reply N T C
  events : Bool → Body C → Reply N T C

abbrev pub refused : AppError
refused = upstream (some 429) true false "tenant concurrency limit reached"

module _ {N T C : Type 0} {float : Float} (s : Services N T C float) where
  open float use {F}

  abbrev pub St : Type 0
  St = AppState N T float

  abbrev send_alert : AlertEvent → St → St
  send_alert e st = record st { loop = record (st.loop) { alerts = st.loop.alerts ++ e ∷ [] } }

  abbrev cost_of : String → String → Option Usage → Option F
  cost_of model tenant none = none
  cost_of model tenant (some u) =
      cost_usd float s.pricing model (some tenant) u.prompt_tokens u.completion_tokens

  -- `extra.entry(k).or_insert(v)` for each default parameter.
  unfoldable pub or_insert_all : Fields N → Fields N → Fields N
  or_insert_all no_fields extra = extra
  or_insert_all (field k v pm) extra =
      or_insert_all pm (if is_some (get k extra) then extra else put k v extra)

  abbrev merge_defaults : Option (Value N) → Value N → Value N
  merge_defaults (some (object pm)) (object extra) = object (or_insert_all pm extra)
  merge_defaults params v = v

  abbrev rename : Option String → String → String
  rename none model = model
  rename (some upstream_) model = upstream_

  abbrev translated : String → Option (Option (Value N)) → Value N → Result (Value N)
  translated model none extra = ok extra
  translated model (some caps) extra = translate_reasoning_effort model caps extra

  -- The request that is sent upstream.
  unfoldable pub prepare : Request N F T → Route (Value N) → Result (Request N F T)
  unfolding translate_reasoning_effort or_insert_all
  prepare req route = translated req.model (s.catalog req.model) req.extra >>= λ extra.
      ok (record req {
        model = rename route.upstream_model req.model;
        extra = merge_defaults route.default_params extra;
      })

  abbrev env_of :
      Request N F T → Resolved (ProviderObject N F T C) (Value N) → Env (ProviderResponse N T C)
  env_of req target = record {
    compute_key_hash = s.compute_key_hash;
    pool = target.route.pool;
    pool_id = target.route.pool_id;
    max_retries = s.max_retries;
    bad_status_codes = s.bad_status_codes;
    min_error_burst = s.min_error_burst;
    sample = s.sample;
    ensure_fresh = s.ensure_fresh;
    chat = λ n key. target.provider.chat n req key;
    instant = s.instant;
    now_ms = s.now_ms;
    to_string = s.to_string;
  }

  -- The loop starts anew; its count of demotions is the one of the metrics.
  abbrev fresh_loop : St → State
  fresh_loop st = record (st.loop) {
    attempts = 0;
    retries = [];
    calls = [];
    key_demotions = st.metrics.key_demotions;
  }

  abbrev with_loop : St → State → St
  with_loop st loop' = record st {
    loop = loop';
    metrics = record (st.metrics) { key_demotions = loop'.key_demotions };
  }

  -- More rounds than there are attempts: at least `max_retries + 1`, and any number beyond.
  abbrev pub rounds : ℕ
  rounds = s.max_retries + 1 + s.spare_rounds

  -- What the loop returns when it ends, as it does by its own test (Failover.Termination).
  unfoldable pub run_loop :
      Request N F T
      → Resolved (ProviderObject N F T C) (Value N)
      → St
      → State × Result (Success (ProviderResponse N T C))
  run_loop req target st =
      let (st', r, _, _, _, _) =
        run-HasEnded (env_of req target) rounds (fresh_loop st) (omega arith) (omega arith) in
      (st', r)

  unfoldable pub normalize_choices : List (Choice N T) → List (Choice N T)
  normalize_choices [] = []
  normalize_choices (c ∷ cs) =
      record c { message = normalize_message c.message } ∷ normalize_choices cs

  abbrev cleaned : Answer N T → Answer N T
  cleaned resp =
      if s.strip_think_tags then record resp { choices = normalize_choices resp.choices } else resp

  abbrev usage_of : Option Usage → Usage
  usage_of o = get_or o (record { prompt_tokens = 0; completion_tokens = 0; total_tokens = 0 })

  -- What follows an answer that is not streamed: metrics, log, alert and cache, under the request
  -- that was sent.
  unfoldable pub finish_once :
      St
      → String
      → Request N F T
      → Resolved (ProviderObject N F T C) (Value N)
      → Success (ProviderResponse N T C)
      → Answer N T
      → St × Result (Reply N T C)
  finish_once st tenant req target success raw =
      let resp = cleaned raw in
      let usage = usage_of resp.usage in
      let ts = s.now_ms st.loop.attempts in
      let metrics' =
        add_completion_tokens usage.completion_tokens
          (add_prompt_tokens usage.prompt_tokens (record_latency_ms s.latency_ms st.metrics)) in
      let log : RequestLog F = record {
        ts = ts;
        model = req.model;
        pool_id = target.route.pool_id;
        key_hash = success.key_hash;
        upstream_url = some target.provider.base_url;
        latency_ms = s.latency_ms;
        usage = some usage;
        audit = target.provider.extract_audit success.response;
        retry_count = success.retry_count;
        tenant_id = tenant;
        cost_usd = cost_of req.model tenant resp.usage;
      } in
      let st' = record st { metrics = metrics'; logs = st.logs ++ log ∷ [] } in
      let st'' =
        if ltb s.min_latency_ms s.latency_ms
        then send_alert (latency_spike ts req.model s.latency_ms s.min_latency_ms) st'
        else st' in
      (
        if ltb 0 s.cache_max_entries
            then record st'' {
              cache = PromptCache.put s.cache_key st''.cache (s.instant st.loop.attempts) req resp;
            }
            else st'',
        ok (json resp),
      )

  abbrev finish :
      St
      → String
      → Request N F T
      → Resolved (ProviderObject N F T C) (Value N)
      → Success (ProviderResponse N T C)
      → ProviderResponse N T C
      → St × Result (Reply N T C)
  finish st tenant req target success (once raw) = finish_once st tenant req target success raw
  finish st tenant req target success (stream body) = (st, ok (events s.strip_think_tags body))

  abbrev after_loop :
      St
      → String
      → Request N F T
      → Resolved (ProviderObject N F T C) (Value N)
      → State × Result (Success (ProviderResponse N T C))
      → St × Result (Reply N T C)
  after_loop st tenant req target (loop', err e) = (with_loop st loop', err e)
  after_loop st tenant req target (loop', ok success) =
      finish (with_loop st loop') tenant req target success success.response

  abbrev send_prepared :
      St
      → String
      → Resolved (ProviderObject N F T C) (Value N)
      → Result (Request N F T)
      → St × Result (Reply N T C)
  send_prepared st tenant target (err e) = (st, err e)
  send_prepared st tenant target (ok req) = after_loop st tenant req target (run_loop req target st)

  abbrev route_request :
      St
      → String
      → Request N F T
      → Result (Resolved (ProviderObject N F T C) (Value N))
      → St × Result (Reply N T C)
  route_request st tenant req (err e) = (st, err e)
  route_request st tenant req (ok target) =
      send_prepared st tenant target (prepare req target.route)

  -- The request upstream, from the routing on.
  unfoldable pub forward : St → String → Request N F T → St × Result (Reply N T C)
  unfolding prepare run_loop finish_once
  forward st tenant req = route_request st tenant req (Router.resolve s.router req.model)

  -- A hit of the cache is logged with the model that the client named.
  abbrev hit_log : String → String → Answer N T → RequestLog F
  hit_log tenant model cached = record {
    ts = s.now_ms 0;
    model = model;
    pool_id = "cache";
    key_hash = "cache-hit";
    upstream_url = none;
    latency_ms = 0;
    usage = cached.usage;
    audit = no_audit;
    retry_count = 0;
    tenant_id = "default";
    cost_usd = cost_of model tenant cached.usage;
  }

  abbrev serve_hit :
      St
      → String
      → Request N F T
      → PromptCache (Answer N T) × Option (Answer N T)
      → St × Result (Reply N T C)
  serve_hit st tenant req (cache', none) = forward (record st { cache = cache' }) tenant req
  serve_hit st tenant req (cache', some cached) = (
    record st {
      cache = cache';
      metrics = inc_cache_hit st.metrics;
      logs = st.logs ++ hit_log tenant req.model cached ∷ [];
    },
    ok (json cached),
  )

  abbrev is_streaming : Request N F T → Bool
  is_streaming req = get_or req.stream_ false

  -- Inside the guard: the cache, for a request that is not streamed and cold, or the upstream.
  unfoldable pub serve : St → String → Request N F T → St × Result (Reply N T C)
  unfolding forward
  serve st tenant req =
      let st' = if is_streaming req then record st { metrics = inc_stream st.metrics } else st in
      if not (is_streaming req) && s.is_cold req.temperature
      then serve_hit st' tenant req (PromptCache.get s.cache_key st'.cache (s.instant 0) req)
      else forward st' tenant req

  abbrev drop_guard : ConcurrencyGuard → St × Result (Reply N T C) → St × Result (Reply N T C)
  drop_guard guard (st, r) = (record st { concurrency = release st.concurrency guard }, r)

  abbrev guarded :
      St
      → String
      → Request N F T
      → ConcurrencyLimiter × Option ConcurrencyGuard
      → St × Result (Reply N T C)
  guarded st tenant req (limiter, none) = (
    send_alert (rate_limited (s.now_ms 0) tenant)
        (record st { concurrency = limiter; metrics = inc_failed st.metrics }),
    err refused,
  )
  guarded st tenant req (limiter, some guard) =
      drop_guard guard (serve (record st { concurrency = limiter }) tenant req)

  -- The guard is dropped when the handler returns, on every path.
  unfoldable pub chat_completions_handler : St → String → Request N F T → St × Result (Reply N T C)
  unfolding serve
  chat_completions_handler st tenant req =
      let st' = record st { metrics = inc_total_requests st.metrics } in
      guarded st' tenant req (acquire st'.concurrency tenant)
