-- ===== src/RateLimit.antt =====
-- src/ratelimit/mod.rs: the token buckets of the tenants. `f64` is the interface `Float`; an
-- `Instant` counts nanoseconds. The alert that a refusal sends is listed beside the answer.
pub mod Bounds
mod Examples
use llm_proxy.Prelude.{
  ℕ, String, Bool, true, false, List, [], ◌∷◌, if◌then◌else◌, get_or, ◌==◌, pair_eq, string_eq,
  nat_eq,
}
use llm_proxy.Prelude.Assoc.{Map, lookup, insert}

pub record Float : Type 1 where
  pub F : Type 0
  pub add_f : F → F → F
  pub sub_f : F → F → F
  pub mul_f : F → F → F
  pub div_f : F → F → F
  pub min_f : F → F → F
  pub le : F → F → Bool
  pub lt : F → F → Bool
  pub of_nat : ℕ → F
  -- `now.duration_since(earlier).as_secs_f64()`
  pub seconds_since : ℕ → ℕ → F

-- What becomes of a request: it goes on, or it is answered with 429 and an alert is sent.
pub data Verdict : Type 0 where
  passes : Verdict
  rate_limited : String → Verdict

abbrev verdict : String → Bool → Verdict
verdict tenant_id allowed = if allowed then passes else rate_limited tenant_id

module _ (fl : Float) where
  pub record TokenBucket : Type 0 where
    pub tokens : fl.F
    pub last_refill : ℕ
    pub capacity : fl.F

  unfoldable pub new_bucket : ℕ → fl.F → TokenBucket
  new_bucket now capacity = record { tokens = capacity; last_refill = now; capacity = capacity }

  abbrev refilled : ℕ → TokenBucket → fl.F → TokenBucket
  refilled now b elapsed = record b {
    tokens =
        fl.min_f (fl.add_f b.tokens (fl.mul_f elapsed (fl.div_f b.capacity (fl.of_nat 60))))
          b.capacity;
    last_refill = now;
  }

  unfoldable pub refill : ℕ → TokenBucket → TokenBucket
  refill now b =
      let elapsed = fl.seconds_since now b.last_refill in
      if fl.lt (fl.of_nat 0) elapsed then refilled now b elapsed else b

  unfoldable pub consume : ℕ → TokenBucket → TokenBucket × Bool
  unfolding refill
  consume now b =
      let b' = refill now b in
      if fl.le (fl.of_nat 1) b'.tokens
      then (record b' { tokens = fl.sub_f b'.tokens (fl.of_nat 1) }, true)
      else (b', false)

  pub record RateLimiter : Type 0 where
    pub buckets : Map String TokenBucket
    pub capacity : fl.F

  unfoldable pub new : ℕ → RateLimiter
  new requests_per_minute = record { buckets = []; capacity = fl.of_nat requests_per_minute }

  -- `entry(tenant_id).or_insert_with(…)`, at a clock reading each for a new bucket and its refill.
  abbrev bucket_of : RateLimiter → ℕ → String → TokenBucket
  bucket_of l now tenant_id = get_or (lookup tenant_id l.buckets) (new_bucket now l.capacity)

  unfoldable pub rate_limit_middleware : RateLimiter → ℕ → ℕ → String → RateLimiter × Verdict
  unfolding consume new_bucket
  rate_limit_middleware l created now tenant_id =
      let (b, allowed) = consume now (bucket_of l created tenant_id) in
      if tenant_id == ""
      then (l, passes)
      else (record l { buckets = insert tenant_id b l.buckets }, verdict tenant_id allowed)

  -- The requests of a run: two clock readings and the tenant of each.
  unfoldable pub run : RateLimiter → List (ℕ × ℕ × String) → RateLimiter
  unfolding rate_limit_middleware
  run l [] = l
  run l ((created, now, tenant_id) ∷ calls) =
      run (rate_limit_middleware l created now tenant_id).0 calls
