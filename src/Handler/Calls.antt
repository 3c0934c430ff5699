-- ===== src/Handler/Calls.antt =====
-- How many upstream calls one request makes.
use llm_proxy.Prelude.{◌+◌, ◌≤◌, length, pair_eq, string_eq, nat_eq}
use llm_proxy.AppError.{Result}
use llm_proxy.Json.{Value}
use llm_proxy.Router.{Resolved}
use llm_proxy.PromptCache.{PromptCache}
use llm_proxy.Pricing.{Float}
use llm_proxy.Handler.{Request, ProviderObject, Services, AppState, Reply}
use llm_proxy.PromptCache

module _ {N T C : Type 0} {float : Float} (s : Services N T C float) where
  open float use {F}

  abbrev Q : Type 0
  Q = Request N F T

  abbrev Target : Type 0
  Target = Resolved (ProviderObject N F T C) (Value N)

  -- A request that is forwarded for the first time makes no more calls than the retries allow.
  abbrev Bounded : AppState N T float × Result (Reply N T C) → Type 0
  Bounded out = length out.0.loop.calls ≤ s.max_retries + 1
