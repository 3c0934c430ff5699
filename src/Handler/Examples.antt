-- ===== src/Handler/Examples.antt =====
-- A request for "m", which the pool "p" serves as "up", and the theorems of the handler on it.
use llm_proxy.Prelude.{
  ℕ, ◌+◌, ◌*◌, ◌/◌, String, ◌≡◌, refl, ◌≢◌, true, false, none, some, [], ◌∷◌, arith, ltb, ◌==◌,
  pair_eq, string_eq, nat_eq,
}
use llm_proxy.Prelude.Assoc.{lookup, insert}
use llm_proxy.AppError.{ok}
use llm_proxy.Json.{Value, null}
use llm_proxy.Config.KeyEntry.{api_key, KeyEntry}
use llm_proxy.Router.{Route, Router, resolve}
use llm_proxy.Concurrency.{available, acquire, release}
use llm_proxy.PromptCache.{PromptCache}
use llm_proxy.Pricing.{Float}
use llm_proxy.Provider.{ChatCompletionRequest, ChatCompletionResponse, once, no_audit}
use llm_proxy.Handler.{
  ProviderObject, Services, AppState, json, prepare, forward, chat_completions_handler,
}
use llm_proxy.Handler.Permits.{chat_completions_handler-permits}
use llm_proxy.Handler.Cached.{forward-misses}
use llm_proxy.PromptCache
use llm_proxy.Router
use text.Mathlib.TextEquality.{eq_iff}

abbrev whole : Float
whole = record {
  F = ℕ;
  zero_f = 0;
  is_zero = λ n. n == 0;
  is_positive = λ n. ltb 0 n;
  charge = λ tokens price. tokens * price / 1_000_000;
  plus = λ a b. a + b;
}

abbrev named : String → ChatCompletionRequest ℕ ℕ ℕ
named model = record {
  model = model;
  messages = [];
  stream_ = none;
  max_tokens = none;
  temperature = none;
  top_p = none;
  stop = none;
  presence_penalty = none;
  frequency_penalty = none;
  user = none;
  tools = none;
  tool_choice = none;
  stream_options = none;
  extra = null;
}

abbrev hello : ChatCompletionResponse ℕ ℕ
hello = record {
  id = "r";
  object_ = "chat.completion";
  created = 0;
  model = "up";
  choices = [];
  usage = none;
  raw_usage_json = none;
}

abbrev key_a : KeyEntry
key_a = record {
  key = "a";
  weight = 1;
  cred_type = api_key;
  refresh = none;
  expires = none;
  issuer = none;
  identity = some "a";
}

abbrev upstream_object : ProviderObject ℕ ℕ ℕ String
upstream_object = record {
  base_url = "https://up";
  chat = λ n req key. ok (once hello);
  extract_audit = λ resp. no_audit;
}

abbrev route : Route (Value ℕ)
route = record {
  pool_id = "p";
  pool = record { keys = key_a ∷ [] };
  default_params = none;
  upstream_model = some "up";
}

abbrev services : Services ℕ ℕ String whole
services = record {
  router = record { model_map = ("m", route) ∷ []; providers = ("p", upstream_object) ∷ [] };
  catalog = λ model. none;
  pricing = [];
  max_retries = 1;
  spare_rounds = 5;
  bad_status_codes = 429 ∷ [];
  min_error_burst = 3;
  min_latency_ms = 5;
  cache_max_entries = 8;
  strip_think_tags = false;
  cache_key = λ req. req.model;
  is_cold = λ t. true;
  compute_key_hash = λ key. key;
  sample = λ n ws. some 0;
  ensure_fresh = λ n key. ok key;
  instant = λ n. n;
  now_ms = λ n. n;
  latency_ms = 9;
  to_string = λ n. "1";
}

abbrev start : ℕ → AppState ℕ ℕ whole
start permits = record {
  metrics = record {
    total_requests = 0;
    failed_requests = 0;
    stream_requests = 0;
    cache_hits = 0;
    active_connections = 0;
    total_prompt_tokens = 0;
    total_completion_tokens = 0;
    retry_count = 0;
    key_demotions = 0;
    upstream_5xx = 0;
    upstream_4xx = 0;
    request_latency_sum_ms = 0;
  };
  concurrency = record {
    semaphores = [];
    max_per_tenant = permits;
    total_max = permits;
    global = permits;
  };
  cache = record { inner = []; max_entries = 8; ttl = 300; system_prompt_shard = false };
  loop = record {
    attempts = 0;
    retries = [];
    bad = [];
    circuits = record {
      circuits = [];
      failure_threshold = 5;
      cooldown_secs = 60;
      half_open_max = 3;
      total_trips = 0;
    };
    bursts = [];
    key_demotions = 0;
    alerts = [];
    calls = [];
  };
  logs = [];
}

-- A cached answer is served without a call, and the permit is back.
abbrev cached : AppState ℕ ℕ whole
cached = record (start 1) {
  cache = record {
    inner = ("m", record { response = hello; created_at = 0 }) ∷ [];
    max_entries = 8;
    ttl = 300;
    system_prompt_shard = false;
  };
}

served_from_cache :
    let out = chat_completions_handler services cached "t" (named "m") in
    (out.1 ≡ ok (json hello))
    × (out.0.metrics.cache_hits ≡ 1)
    × (available out.0.concurrency "t" ≡ 1)
unfolding chat_completions_handler acquire available release PromptCache.get lookup insert
served_from_cache = (refl, refl, refl)

chat_completions_handler-permits_example :
    let out = chat_completions_handler services (start 1) "t" (named "m") in
    (available out.0.concurrency "t" ≡ available (start 1).concurrency "t")
    × (out.0.concurrency.global ≡ 1)
chat_completions_handler-permits_example =
    chat_completions_handler-permits services (start 1) "t" (named "m") "t"

abbrev up : String
up = "up"

abbrev m : String
m = "m"

up≢m : up ≢ m
up≢m e = ground (arith, eq_iff up m)

forward-misses_example :
    (PromptCache.get
      (λ req. req.model)
      (forward services (start 1) "t" (named "m")).0.cache
      7
      (named "m")).1
    ≡ none
unfolding Router.resolve prepare PromptCache.get lookup
forward-misses_example =
    forward-misses services (start 1) "t" (named "m") (named "up")
      (record { provider = upstream_object; route = route }) 7 refl refl (λ e. absurd (up≢m e)) refl
