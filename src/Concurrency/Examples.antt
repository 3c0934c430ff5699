-- ===== src/Concurrency/Examples.antt =====
-- Two requests of one tenant at a limit of two per tenant and three in all.
use llm_proxy.Prelude.{
  ◌≤◌, ◌<◌, ◌≡◌, refl, ◌↔◌, true, false, List, [], ◌∷◌, ◌++◌, is_some, length, pair_eq, string_eq,
  nat_eq,
}
use llm_proxy.Prelude.Assoc.{lookup, insert}
use llm_proxy.Concurrency.{new, available, usage, acquire, release}
use llm_proxy.Concurrency.Limits.{
  Call, begins, ends, step, run, holds, idle, run-within-limits, acquire-is_some_iff,
}

abbrev two_begun : List Call
two_begun = begins "t1" ∷ begins "t1" ∷ []

third_refused : is_some (acquire (run (idle 2 3) two_begun).limiter "t1").1 ≡ false
unfolding run step acquire new available lookup insert
third_refused = refl

room_again : is_some (acquire (run (idle 2 3) (two_begun ++ ends 0 ∷ [])).limiter "t1").1 ≡ true
unfolding run step acquire release new available lookup insert
room_again = refl

run-within-limits_example :
    let w = run (idle 2 3) two_begun in
    (holds "t1" w.held ≤ 2) × (length w.held ≤ 3) × (usage w.limiter "t1" ≡ holds "t1" w.held)
run-within-limits_example = run-within-limits 2 3 two_begun "t1"

acquire-is_some_iff_example :
    let w = run (idle 2 3) two_begun in
    (is_some (acquire w.limiter "t1").1 ≡ true) ↔ ((holds "t1" w.held < 2) × (length w.held < 3))
acquire-is_some_iff_example = acquire-is_some_iff 2 3 two_begun "t1"
