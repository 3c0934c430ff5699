-- ===== src/Handler/Cached.antt =====
-- What the cache answers after a request has gone upstream: it is asked with the client's request
-- and filled under the request that was sent.
use llm_proxy.Prelude.{
  ℕ, ◌-◌, ◌<◌, String, ◌≡◌, ◌≢◌, inl, inr, none, some, arith, ltb, leb, if◌then◌else◌, Bool-cases,
  ◌==◌, pair_eq, string_eq, nat_eq,
}
use llm_proxy.AppError.{Result, ok, err}
use llm_proxy.PromptCache.Freshness.{get-put, put-misses}
use llm_proxy.Json.{Value}
use llm_proxy.Router.{Router, Resolved, resolve}
use llm_proxy.Failover.{State, Success}
use llm_proxy.PromptCache.{PromptCache, evict_oldest_if_needed}
use llm_proxy.Pricing.{Float}
use llm_proxy.Provider.{ProviderResponse, once, stream}
use llm_proxy.Handler.{
  Request, Answer, ProviderObject, Services, AppState, Reply, json, prepare, with_loop, finish_once,
  finish, after_loop, forward,
}
use llm_proxy.PromptCache
use llm_proxy.Router

module _ {N T C : Type 0} {float : Float} (s : Services N T C float) where
  open float use {F}

  abbrev Q : Type 0
  Q = Request N F T

  abbrev Out : Type 0
  Out = AppState N T float × Result (Reply N T C)

  -- The cache after the answer `resp` to the request `sent`.
  abbrev Cached : PromptCache (Answer N T) → Q → Out → Answer N T → Type 0
  Cached cache sent out resp =
      out.0.cache ≡ PromptCache.put s.cache_key cache (s.instant out.0.loop.attempts) sent resp

  finish-Cached :
      (st : AppState N T float) (tenant : String) (sent : Q)
      (target : Resolved (ProviderObject N F T C) (Value N))
      (success : Success (ProviderResponse N T C)) (raw : ProviderResponse N T C)
      (resp : Answer N T)
      → 0 < s.cache_max_entries
      → (finish s st tenant sent target success raw).1 ≡ ok (json resp)
      → Cached st.cache sent (finish s st tenant sent target success raw) resp
  unfolding finish_once
  finish-Cached st tenant sent target success (once raw) resp c h = ground (arith, c, h)
  finish-Cached st tenant sent target success (stream body) resp c h = cc

  after_loop-Cached :
      (st : AppState N T float) (tenant : String) (sent : Q)
      (target : Resolved (ProviderObject N F T C) (Value N))
      (out : State × Result (Success (ProviderResponse N T C))) (resp : Answer N T)
      → 0 < s.cache_max_entries
      → (after_loop s st tenant sent target out).1 ≡ ok (json resp)
      → Cached st.cache sent (after_loop s st tenant sent target out) resp
  after_loop-Cached st tenant sent target (l, err e) resp c h = cc
  after_loop-Cached st tenant sent target (l, ok success) resp c h =
      finish-Cached (with_loop s st l) tenant sent target success success.response resp c h

  forward-Cached :
      (st : AppState N T float) (tenant : String) (req sent : Q)
      (target : Resolved (ProviderObject N F T C) (Value N)) (resp : Answer N T)
      → Router.resolve s.router req.model ≡ ok target
      → prepare s req target.route ≡ ok sent
      → 0 < s.cache_max_entries
      → (forward s st tenant req).1 ≡ ok (json resp)
      → Cached st.cache sent (forward s st tenant req) resp
  unfolding forward
  forward-Cached st tenant req sent target resp r p c h =
      rw (r, p) (after_loop-Cached st tenant sent target _ resp c (rw (r, p) at h))

  -- When a request was forwarded as `sent` and answered with a JSON response, then from that moment
  -- until the time to live has passed every request with the cache key of `sent` is answered with
  -- this response, and a request with another key, be it the client's own, is answered as after
  -- the eviction alone.
  pub forward-get :
      (st : AppState N T float) (tenant : String) (req client sent : Q)
      (target : Resolved (ProviderObject N F T C) (Value N)) (resp : Answer N T) (now : ℕ)
      → Router.resolve s.router req.model ≡ ok target
      → prepare s req target.route ≡ ok sent
      → 0 < s.cache_max_entries
      → (forward s st tenant req).1 ≡ ok (json resp)
      → let st' = (forward s st tenant req).0 in
        (PromptCache.get s.cache_key st'.cache now client).1 ≡ (
          if s.cache_key sent == s.cache_key client
          then if leb (now - s.instant st'.loop.attempts) st.cache.ttl then some resp else none
          else (PromptCache.get s.cache_key (evict_oldest_if_needed st.cache) now client).1)
  forward-get st tenant req client sent target resp now r p c h =
      rw (forward-Cached st tenant req sent target resp r p c h)
        (get-put s.cache_key st.cache _ now sent client resp)

  abbrev Misses : PromptCache (Answer N T) → ℕ → Q → Type 0
  Misses c now req = (PromptCache.get s.cache_key c now req).1 ≡ none

  finish-Misses :
      (st : AppState N T float) (tenant : String) (req sent : Q)
      (target : Resolved (ProviderObject N F T C) (Value N))
      (success : Success (ProviderResponse N T C)) (raw : ProviderResponse N T C) (now : ℕ)
      → s.cache_key sent ≢ s.cache_key req
      → Misses st.cache now req
      → Misses (finish s st tenant sent target success raw).0.cache now req
  unfolding finish_once
  finish-Misses st tenant req sent target success (once raw) now k h =
      elim (Bool-cases (ltb 0 s.cache_max_entries)) [
        | inl x ↦ elim (Bool-cases (ltb s.min_latency_ms s.latency_ms)) [
          | inl y ↦ rw (x, y) (put-misses s.cache_key st.cache _ now sent req _ k h)
          | inr y ↦ rw (x, y) (put-misses s.cache_key st.cache _ now sent req _ k h)
        ]
        | inr x ↦ elim (Bool-cases (ltb s.min_latency_ms s.latency_ms)) [
          | inl y ↦ rw (x, y) h
          | inr y ↦ rw (x, y) h
        ]
      ]
  finish-Misses st tenant req sent target success (stream body) now k h = h

  after_loop-Misses :
      (st : AppState N T float) (tenant : String) (req sent : Q)
      (target : Resolved (ProviderObject N F T C) (Value N))
      (out : State × Result (Success (ProviderResponse N T C))) (now : ℕ)
      → s.cache_key sent ≢ s.cache_key req
      → Misses st.cache now req
      → Misses (after_loop s st tenant sent target out).0.cache now req
  after_loop-Misses st tenant req sent target (l, err e) now k h = h
  after_loop-Misses st tenant req sent target (l, ok success) now k h =
      finish-Misses (with_loop s st l) tenant req sent target success success.response now k h

  -- The fault of the cache: a request that the handler sends under another cache key than its own,
  -- as it does for a model with an `upstream_model`, leaves no entry under its own key: the same
  -- request, which the cache did not answer, is not answered from it afterwards either.
  pub forward-misses :
      (st : AppState N T float) (tenant : String) (req sent : Q)
      (target : Resolved (ProviderObject N F T C) (Value N)) (now : ℕ)
      → Router.resolve s.router req.model ≡ ok target
      → prepare s req target.route ≡ ok sent
      → s.cache_key sent ≢ s.cache_key req
      → (PromptCache.get s.cache_key st.cache now req).1 ≡ none
      → (PromptCache.get s.cache_key (forward s st tenant req).0.cache now req).1 ≡ none
  unfolding forward
  forward-misses st tenant req sent target now r p k h =
      rw (r, p) (after_loop-Misses st tenant req sent target _ now k h)
