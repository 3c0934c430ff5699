-- ===== src/RateLimit/Examples.antt =====
-- Whole tokens, refilled by one for each second (a limit of 60 for each minute).
use llm_proxy.Prelude.{
  ℕ, ◌+◌, ◌-◌, ◌*◌, ◌/◌, String, ◌≡◌, refl, List, [], ◌∷◌, arith, ltb, leb, if◌then◌else◌, pair_eq,
  string_eq, nat_eq,
}
use llm_proxy.Prelude.Assoc.{lookup, insert}
use llm_proxy.RateLimit.{
  Float, passes, rate_limited, new_bucket, refill, consume, new, rate_limit_middleware, run,
}
use llm_proxy.RateLimit.Bounds.{IsFloat, AreBounded, run-AreBounded}

abbrev whole : Float
whole = record {
  F = ℕ;
  add_f = λ a b. a + b;
  sub_f = λ a b. a - b;
  mul_f = λ a b. a * b;
  div_f = λ a b. a / b;
  min_f = λ a b. if leb a b then a else b;
  le = leb;
  lt = ltb;
  of_nat = λ n. n;
  seconds_since = λ now earlier. (now - earlier) / 1_000_000_000;
}

whole-IsFloat : IsFloat whole
whole-IsFloat = record {
  min_le = λ a b h. ground arith;
  sub_le = λ a b h. ground (arith, h);
  of_nat_le = λ n. ground arith;
}

abbrev calls : List (ℕ × ℕ × String)
calls = (0, 0, "a") ∷ (0, 0, "b") ∷ (5, 5, "a") ∷ []

spent_at_once :
    (rate_limit_middleware whole (run whole (new whole 1) calls) 6 6 "a").1 ≡ rate_limited "a"
unfolding rate_limit_middleware run new consume refill new_bucket lookup insert
spent_at_once = refl

no_tenant : (rate_limit_middleware whole (new whole 0) 6 6 "").1 ≡ passes
unfolding rate_limit_middleware new consume refill new_bucket lookup insert
no_tenant = refl

run-AreBounded_example : AreBounded whole whole-IsFloat 1 (run whole (new whole 1) calls)
run-AreBounded_example = run-AreBounded whole whole-IsFloat 1 calls
