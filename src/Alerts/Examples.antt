-- ===== src/Alerts/Examples.antt =====
-- The snapshot and the delivery loop at concrete inputs.
use llm_proxy.Prelude.{◌≡◌, refl, true, some, [], ◌∷◌, ◌==◌, pair_eq, string_eq, nat_eq}
use llm_proxy.Alerts.{AlertEvent, rate_limited, deliver}

abbrev busy : AlertEvent
busy = rate_limited 7 "t1"

second_try : deliver (λ n. n == 2) ≡ some (true, 1 ∷ [])
unfolding deliver
second_try = refl
