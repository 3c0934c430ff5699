-- ===== src/RateLimit/Bounds.antt =====
-- No bucket ever holds more than the capacity, and tenants do not share buckets.
use llm_proxy.Prelude.{
  ℕ, String, ◌≡◌, refl, sym, subst, inl, inr, Bool, true, false, Option, none, some, List, [], ◌∷◌,
  if◌then◌else◌, Bool-cases, get_or, All, ◌==◌, pair_eq, string_eq, nat_eq,
}
use llm_proxy.Prelude.Assoc.{lookup, lookup-insert, insert-All, lookup-All}
use llm_proxy.RateLimit.{
  Float, Verdict, passes, TokenBucket, new_bucket, refilled, refill, consume, RateLimiter, new,
  rate_limit_middleware, run,
}

-- What is used of `f64`, on numbers that are compared at all (not NaN).
pub record IsFloat (fl : Float) : Type 0 where
  pub min_le : (a b : fl.F) → fl.le b b ≡ true → fl.le (fl.min_f a b) b ≡ true
  pub sub_le : (a b : fl.F) → fl.le a b ≡ true → fl.le (fl.sub_f a (fl.of_nat 1)) b ≡ true
  pub of_nat_le : (n : ℕ) → fl.le (fl.of_nat n) (fl.of_nat n) ≡ true

module _ (fl : Float) (law : IsFloat fl) where
  abbrev pub IsBounded : ℕ → String × TokenBucket fl → Type 0
  IsBounded n (tenant_id, b) = (b.capacity ≡ fl.of_nat n) × (fl.le b.tokens (fl.of_nat n) ≡ true)

  either_bucket :
      (n : ℕ) (t : String) (c : Bool) (x y : TokenBucket fl)
      → IsBounded n (t, x)
      → IsBounded n (t, y)
      → IsBounded n (t, if c then x else y)
  either_bucket n t true x y h k = h
  either_bucket n t false x y h k = k

  refilled-IsBounded :
      (n now : ℕ) (t : String) (b : TokenBucket fl) (elapsed : fl.F)
      → IsBounded n (t, b)
      → IsBounded n (t, refilled fl now b elapsed)
  refilled-IsBounded n now t b elapsed (c, h) = (
    c,
    subst (λ x. fl.le (refilled fl now b elapsed).tokens x ≡ true) c
        (law.min_le _ b.capacity (subst (λ x. fl.le x x ≡ true) (sym c) (law.of_nat_le n))),
  )

  refill-IsBounded :
      (n now : ℕ) (t : String) (b : TokenBucket fl)
      → IsBounded n (t, b)
      → IsBounded n (t, refill fl now b)
  unfolding refill
  refill-IsBounded n now t b h =
      either_bucket n t (fl.lt (fl.of_nat 0) (fl.seconds_since now b.last_refill)) _ b
        (refilled-IsBounded n now t b (fl.seconds_since now b.last_refill) h) h

  abbrev LeavesBounded : ℕ → String → TokenBucket fl × Bool → Type 0
  LeavesBounded n t r = IsBounded n (t, r.0)

  either_consumed :
      (n : ℕ) (t : String) (c : Bool) (x y : TokenBucket fl)
      → IsBounded n (t, x)
      → IsBounded n (t, y)
      → LeavesBounded n t (if c then (x, true) else (y, false))
  either_consumed n t true x y h k = h
  either_consumed n t false x y h k = k

  consume-IsBounded :
      (n now : ℕ) (t : String) (b : TokenBucket fl)
      → IsBounded n (t, b)
      → IsBounded n (t, (consume fl now b).0)
  unfolding consume
  consume-IsBounded n now t b h =
      let (c, k) = refill-IsBounded n now t b h in
      either_consumed n t (fl.le (fl.of_nat 1) (refill fl now b).tokens) _ (refill fl now b)
        (c, law.sub_le (refill fl now b).tokens (fl.of_nat n) k) (c, k)

  abbrev pub AreBounded : ℕ → RateLimiter fl → Type 0
  AreBounded n l = (l.capacity ≡ fl.of_nat n) × All (IsBounded n) l.buckets

  bucket_of-IsBounded :
      (n created : ℕ) (t : String) (l : RateLimiter fl) (o : Option (TokenBucket fl))
      → AreBounded n l
      → lookup t l.buckets ≡ o
      → IsBounded n (t, get_or o (new_bucket fl created l.capacity))
  unfolding new_bucket
  bucket_of-IsBounded n created t l none (c, h) e = (c, rw c (law.of_nat_le n))
  bucket_of-IsBounded n created t l (some b) (c, h) e = lookup-All (IsBounded n) t b l.buckets h e

  abbrev LeavesAll : ℕ → RateLimiter fl × Verdict → Type 0
  LeavesAll n r = AreBounded n r.0

  either_limiter :
      (n : ℕ) (c : Bool) (l l' : RateLimiter fl) (v : Verdict)
      → AreBounded n l
      → AreBounded n l'
      → LeavesAll n (if c then (l, passes) else (l', v))
  either_limiter n true l l' v h k = h
  either_limiter n false l l' v h k = k

  middleware-AreBounded :
      (n created now : ℕ) (t : String) (l : RateLimiter fl)
      → AreBounded n l
      → AreBounded n (rate_limit_middleware fl l created now t).0
  unfolding rate_limit_middleware
  middleware-AreBounded n created now t l (c, h) =
      let b = bucket_of-IsBounded n created t l (lookup t l.buckets) (c, h) refl in
      either_limiter n (t == "") l _ _ (c, h)
        (c, insert-All (IsBounded n) t _ l.buckets (consume-IsBounded n now t _ b) h)

  run-AreBounded_from :
      (n : ℕ) (calls : List (ℕ × ℕ × String)) (l : RateLimiter fl)
      → AreBounded n l
      → AreBounded n (run fl l calls)
  unfolding run
  run-AreBounded_from n [] l h = h
  run-AreBounded_from n ((created, now, t) ∷ calls) l h =
      run-AreBounded_from n calls (rate_limit_middleware fl l created now t).0
        (middleware-AreBounded n created now t l h)

  -- Whatever requests come and whatever the clock reads, no tenant's bucket ever holds more tokens
  -- than the limit per minute, given of `f64` that a minimum is at most its second argument and
  -- that subtracting one keeps a number below a bound.
  pub run-AreBounded :
      (n : ℕ) (calls : List (ℕ × ℕ × String)) → AreBounded n (run fl (new fl n) calls)
  unfolding new
  run-AreBounded n calls = run-AreBounded_from n calls (new fl n) (refl, tt)

  -- A request does not touch the bucket of another tenant.
  middleware_other :
      (created now : ℕ) (t u : String) (l : RateLimiter fl)
      → (t == u) ≡ false
      → lookup u (rate_limit_middleware fl l created now t).0.buckets ≡ lookup u l.buckets
  unfolding rate_limit_middleware
  middleware_other created now t u l h = elim (Bool-cases (t == "")) [
    | inl e ↦ rw e refl
    | inr e ↦ rw (e, lookup-insert, h) refl
  ]
