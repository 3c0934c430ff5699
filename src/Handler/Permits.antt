-- ===== src/Handler/Permits.antt =====
-- The permits of a request: the handler's guard is dropped on every path.
use llm_proxy.Prelude.{
  ◌+◌, String, ◌≡◌, refl, ap, ◌∙◌, ◌⊎◌, inl, inr, true, false, Option, none, some, [], ◌∷◌, ◌++◌,
  arith, Bool-cases, get_or, ◌==◌, pair_eq, string_eq, nat_eq,
}
use llm_proxy.AppError.{Result, ok, err}
use llm_proxy.Alerts.{rate_limited}
use llm_proxy.Json.{Value}
use llm_proxy.Router.{Resolved}
use llm_proxy.CircuitBreaker.{u64}
use llm_proxy.Failover.{State, Success}
use llm_proxy.Concurrency.{ConcurrencyLimiter, ConcurrencyGuard, available, acquire, release}
use llm_proxy.Concurrency.Guards.{taken, guard_of, refused-free, taken-free, taken-global}
use llm_proxy.PromptCache.{PromptCache}
use llm_proxy.Pricing.{Float}
use llm_proxy.Provider.{ProviderResponse, once, stream}
use llm_proxy.Metrics.{inc_total_requests}
use llm_proxy.Handler.{
  Request, Answer, ProviderObject, Services, AppState, Reply, refused, with_loop, finish_once,
  finish, after_loop, send_prepared, route_request, forward, serve_hit, serve, drop_guard,
  chat_completions_handler,
}

module _ {N T C : Type 0} {float : Float} (s : Services N T C float) where
  open float use {F}

  abbrev Q : Type 0
  Q = Request N F T

  finish-concurrency :
      (st : AppState N T float) (tenant : String) (req : Q)
      (target : Resolved (ProviderObject N F T C) (Value N))
      (success : Success (ProviderResponse N T C)) (resp : ProviderResponse N T C)
      → (finish s st tenant req target success resp).0.concurrency ≡ st.concurrency
  unfolding finish_once
  finish-concurrency st tenant req target success (once raw) = ground arith
  finish-concurrency st tenant req target success (stream body) = refl

  after_loop-concurrency :
      (st : AppState N T float) (tenant : String) (req : Q)
      (target : Resolved (ProviderObject N F T C) (Value N))
      (out : State × Result (Success (ProviderResponse N T C)))
      → (after_loop s st tenant req target out).0.concurrency ≡ st.concurrency
  after_loop-concurrency st tenant req target (l, err e) = refl
  after_loop-concurrency st tenant req target (l, ok success) =
      finish-concurrency (with_loop s st l) tenant req target success success.response

  send_prepared-concurrency :
      (st : AppState N T float) (tenant : String)
      (target : Resolved (ProviderObject N F T C) (Value N)) (sent : Result Q)
      → (send_prepared s st tenant target sent).0.concurrency ≡ st.concurrency
  send_prepared-concurrency st tenant target (err e) = refl
  send_prepared-concurrency st tenant target (ok sent) =
      after_loop-concurrency st tenant sent target _

  route_request-concurrency :
      (st : AppState N T float) (tenant : String) (req : Q)
      (target : Result (Resolved (ProviderObject N F T C) (Value N)))
      → (route_request s st tenant req target).0.concurrency ≡ st.concurrency
  route_request-concurrency st tenant req (err e) = refl
  route_request-concurrency st tenant req (ok target) = send_prepared-concurrency st tenant target _

  forward-concurrency :
      (st : AppState N T float) (tenant : String) (req : Q)
      → (forward s st tenant req).0.concurrency ≡ st.concurrency
  unfolding forward
  forward-concurrency st tenant req = route_request-concurrency st tenant req _

  serve_hit-concurrency :
      (st : AppState N T float) (tenant : String) (req : Q)
      (found : PromptCache (Answer N T) × Option (Answer N T))
      → (serve_hit s st tenant req found).0.concurrency ≡ st.concurrency
  serve_hit-concurrency st tenant req (c, none) =
      forward-concurrency (record st { cache = c }) tenant req
  serve_hit-concurrency st tenant req (c, some resp) = refl

  serve-concurrency :
      (st : AppState N T float) (tenant : String) (req : Q)
      → (serve s st tenant req).0.concurrency ≡ st.concurrency
  unfolding serve
  serve-concurrency st tenant req = elim (Bool-cases (get_or req.stream_ false)) [
    | inl e ↦ rw e (forward-concurrency _ tenant req)
    | inr e ↦ elim (Bool-cases (s.is_cold req.temperature)) [
      | inl c ↦ rw (e, c) (serve_hit-concurrency st tenant req _)
      | inr c ↦ rw (e, c) (forward-concurrency st tenant req)
    ]
  ]

  drop_guard-release :
      (guard : ConcurrencyGuard) (out : AppState N T float × Result (Reply N T C))
      (l : ConcurrencyLimiter)
      → out.0.concurrency ≡ l
      → (drop_guard s guard out).0.concurrency ≡ release l guard
  drop_guard-release guard (st, r) l e = ap (λ x. release x guard) e

  abbrev admitted : AppState N T float → String → AppState N T float
  admitted st tenant = record st {
    metrics = inc_total_requests st.metrics;
    concurrency = taken st.concurrency tenant;
  }

  served :
      (st : AppState N T float) (tenant : String) (req : Q)
      → (drop_guard s (guard_of tenant) (serve s (admitted st tenant) tenant req)).0.concurrency
        ≡ release (taken st.concurrency tenant) (guard_of tenant)
  served st tenant req =
      drop_guard-release (guard_of tenant) (serve s (admitted st tenant) tenant req)
        (taken st.concurrency tenant) (serve-concurrency (admitted st tenant) tenant req)

  -- A request that finds no permit is refused, counted as failed and told to the alert channel,
  -- and no cache or upstream is touched.
  pub chat_completions_handler-refuses :
      (st : AppState N T float) (tenant : String) (req : Q)
      → (available st.concurrency tenant ≡ 0) ⊎ (st.concurrency.global ≡ 0)
      → let out = chat_completions_handler s st tenant req in
        (out.1 ≡ err refused)
        × (out.0.metrics.failed_requests ≡ u64 (st.metrics.failed_requests + 1))
        × (out.0.loop.alerts ≡ st.loop.alerts ++ rate_limited (s.now_ms 0) tenant ∷ [])
        × (out.0.cache ≡ st.cache)
        × (out.0.loop.calls ≡ st.loop.calls)
        × (out.0.logs ≡ st.logs)
  unfolding chat_completions_handler acquire
  chat_completions_handler-refuses st tenant req none_free =
      elim (Bool-cases (available st.concurrency tenant == 0)) [
        | inl p ↦ rw p (refl, refl, refl, refl, refl, refl)
        | inr p ↦
            let q : (st.concurrency.global == 0) ≡ true = ground arith in
            rw (p, q) (refl, refl, refl, refl, refl, refl)
      ]

  -- When the handler returns, be it with an answer, the start of a stream, an answer from the
  -- cache, a refusal or any error, the limiter has as many permits free for every tenant and in all
  -- as before.
  pub chat_completions_handler-permits :
      (st : AppState N T float) (tenant : String) (req : Q) (u : String)
      → let out = chat_completions_handler s st tenant req in
        (available out.0.concurrency u ≡ available st.concurrency u)
        × (out.0.concurrency.global ≡ st.concurrency.global)
  unfolding chat_completions_handler acquire
  chat_completions_handler-permits st tenant req u =
      elim (Bool-cases (available st.concurrency tenant == 0)) [
        | inl p ↦ rw p (refused-free st.concurrency tenant u, refl)
        | inr p ↦ elim (Bool-cases (st.concurrency.global == 0)) [
          | inl q ↦ rw (p, q) (refused-free st.concurrency tenant u, refl)
          | inr q ↦
              rw (p, q)
                (let e = served st tenant req in
                  (
                    ap (λ l. available l u) e ∙ taken-free st.concurrency tenant u p,
                    ap (λ l. l.global) e ∙ taken-global st.concurrency tenant q,
                  ))
        ]
      ]
