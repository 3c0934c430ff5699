-- ===== src/Concurrency/Limits.antt =====
-- Guards and permits: no sequence of requests exceeds a limit, and none is refused below it.
use llm_proxy.Prelude.{
  ℕ, zero, suc, ◌+◌, ◌-◌, ◌≤◌, ◌<◌, String, ◌≡◌, refl, ◌↔◌, inl, inr, true, false, Option, none,
  some, List, [], ◌∷◌, arith, ltb, if◌then◌else◌, Bool-cases, is_some, length, get_elem?, ◌==◌,
  beq_refl, pair_eq, string_eq, nat_eq,
}
use llm_proxy.Prelude.Assoc.{lookup, insert, lookup-insert}
use llm_proxy.Concurrency.{
  ConcurrencyLimiter, ConcurrencyGuard, new, available, usage, set_permits, acquire, release,
  try_acquire,
}
use text.Mathlib.TextEquality.{eq_iff}

-- One request begins, or the request of the i-th held guard ends.
pub data Call : Type 0 where
  begins : String → Call
  ends : ℕ → Call

-- The limiter and the guards that are held.
pub record World : Type 0 where
  pub limiter : ConcurrencyLimiter
  pub held : List ConcurrencyGuard

abbrev pub remove_at : List ConcurrencyGuard → ℕ → List ConcurrencyGuard
remove_at [] i = []
remove_at (g ∷ gs) zero = gs
remove_at (g ∷ gs) (suc i) = g ∷ remove_at gs i

abbrev keep_guard : Option ConcurrencyGuard → List ConcurrencyGuard → List ConcurrencyGuard
keep_guard none gs = gs
keep_guard (some g) gs = g ∷ gs

abbrev end_held : World → ℕ → Option ConcurrencyGuard → World
end_held w i none = w
end_held w i (some g) = record { limiter = release w.limiter g; held = remove_at w.held i }

unfoldable pub step : World → Call → World
step w (begins tenant) = record {
  limiter = (acquire w.limiter tenant).0;
  held = keep_guard (acquire w.limiter tenant).1 w.held;
}
step w (ends i) = end_held w i (get_elem? w.held i)

unfoldable pub run : World → List Call → World
run w [] = w
run w (c ∷ cs) = run (step w c) cs

-- How many guards a tenant holds.
abbrev pub holds : String → List ConcurrencyGuard → ℕ
holds tenant [] = 0
holds tenant (g ∷ gs) = (if g.tenant_id == tenant then 1 else 0) + holds tenant gs

-- Every permit is free or held.
pub record IsBalanced (per_tenant total : ℕ) (w : World) : Type 0 where
  pub limit : w.limiter.max_per_tenant ≡ per_tenant
  pub tenants : (t : String) → available w.limiter t + holds t w.held ≡ per_tenant
  pub all : w.limiter.global + length w.held ≡ total

holds-remove_at :
    (gs : List ConcurrencyGuard) (i : ℕ) (g : ConcurrencyGuard) (t : String)
    → get_elem? gs i ≡ some g
    → holds t gs ≡ holds t (remove_at gs i) + (if g.tenant_id == t then 1 else 0)
holds-remove_at [] i g t h = cc
holds-remove_at (x ∷ gs) zero g t h = ground arith
holds-remove_at (x ∷ gs) (suc i) g t h = ground (arith, holds-remove_at gs i g t h)

length-remove_at :
    (gs : List ConcurrencyGuard) (i : ℕ) (g : ConcurrencyGuard)
    → get_elem? gs i ≡ some g
    → length gs ≡ length (remove_at gs i) + 1
length-remove_at [] i g h = cc
length-remove_at (x ∷ gs) zero g h = omega arith
length-remove_at (x ∷ gs) (suc i) g h = omega (arith, length-remove_at gs i g h)

-- What is free for every tenant once one semaphore has been written.
pub available-insert :
    (l l' : ConcurrencyLimiter) (t u : String) (n : ℕ)
    → l'.semaphores ≡ insert t n l.semaphores
    → l'.max_per_tenant ≡ l.max_per_tenant
    → available l' u ≡ (if t == u then n else available l u)
unfolding available
available-insert l l' t u n e m = rw (e, m, lookup-insert) (ground arith)

module _ (per_tenant total : ℕ) where
  written :
      (l l' : ConcurrencyLimiter) (t : String) (n : ℕ) (gs gs' : List ConcurrencyGuard)
      → ((u : String) → available l u + holds u gs ≡ per_tenant)
      → l'.semaphores ≡ insert t n l.semaphores
      → l'.max_per_tenant ≡ l.max_per_tenant
      → ((u : String)
          → holds u gs' + (if t == u then n else 0)
            ≡ holds u gs + (if t == u then available l t else 0))
      → (u : String) → available l' u + holds u gs' ≡ per_tenant
  written l l' t n gs gs' b e m h u =
      rw (available-insert l l' t u n e m) (ground (arith, b u, h u, b t, eq_iff t u))

  refused-IsBalanced :
      (w : World) (t : String)
      → IsBalanced per_tenant total w
      → IsBalanced per_tenant total
          (record { limiter = set_permits w.limiter t (available w.limiter t); held = w.held })
  refused-IsBalanced w t b = record {
    limit = b.limit;
    tenants =
        written w.limiter _ t (available w.limiter t) w.held w.held b.tenants refl refl (λ u. refl);
    all = b.all;
  }

  acquire-IsBalanced :
      (w : World) (t : String)
      → IsBalanced per_tenant total w
      → IsBalanced per_tenant total (step w (begins t))
  unfolding step acquire
  acquire-IsBalanced w t b = elim (Bool-cases (available w.limiter t == 0)) [
    | inl p ↦ rw p (refused-IsBalanced w t b)
    | inr p ↦ elim (Bool-cases (w.limiter.global == 0)) [
      | inl q ↦ rw (p, q) (refused-IsBalanced w t b)
      | inr q ↦
          rw (p, q)
            (record {
              limit = b.limit;
              tenants =
                  written w.limiter _ t (available w.limiter t - 1) w.held
                    (record { tenant_id = t } ∷ w.held) b.tenants refl refl
                    (λ u. ground (arith, p));
              all = ground (arith, b.all, q);
            })
    ]
  ]

  release-IsBalanced :
      (w : World) (i : ℕ) (o : Option ConcurrencyGuard)
      → get_elem? w.held i ≡ o
      → IsBalanced per_tenant total w
      → IsBalanced per_tenant total (end_held w i o)
  unfolding release
  release-IsBalanced w i none e b = b
  release-IsBalanced w i (some g) e b = record {
    limit = b.limit;
    tenants =
        written w.limiter _ g.tenant_id _ w.held (remove_at w.held i) b.tenants refl refl
          (λ u. ground (arith, holds-remove_at w.held i g u e));
    all = omega (arith, b.all, length-remove_at w.held i g e);
  }

  step-IsBalanced :
      (w : World) (c : Call)
      → IsBalanced per_tenant total w
      → IsBalanced per_tenant total (step w c)
  unfolding step
  step-IsBalanced w (begins t) b = acquire-IsBalanced w t b
  step-IsBalanced w (ends i) b = release-IsBalanced w i _ refl b

  run-IsBalanced :
      (w : World) (cs : List Call)
      → IsBalanced per_tenant total w
      → IsBalanced per_tenant total (run w cs)
  unfolding run
  run-IsBalanced w [] b = b
  run-IsBalanced w (c ∷ cs) b = run-IsBalanced (step w c) cs (step-IsBalanced w c b)

  abbrev pub idle : World
  idle = record { limiter = new per_tenant total; held = [] }

  idle-IsBalanced : IsBalanced per_tenant total idle
  unfolding new available lookup
  idle-IsBalanced = record { limit = refl; tenants = λ t. omega arith; all = omega arith }

  -- After any sequence of requests that begin and end, no tenant holds more guards than
  -- `max_per_tenant`, no more than `total_max` are held in all, and `usage` reports the number that
  -- a tenant holds.
  pub run-within-limits :
      (cs : List Call) (t : String)
      → let w = run idle cs in
        (holds t w.held ≤ per_tenant)
        × (length w.held ≤ total)
        × (usage w.limiter t ≡ holds t w.held)
  unfolding usage
  run-within-limits cs t =
      let b = run-IsBalanced idle cs idle-IsBalanced in
      (omega (arith, b.tenants t), omega (arith, b.all), omega (arith, b.tenants t, b.limit))

  -- After any sequence of requests that begin and end, a new request is admitted exactly when its
  -- tenant holds fewer guards than `max_per_tenant` and fewer than `total_max` are held in all: no
  -- permit is lost.
  pub acquire-is_some_iff :
      (cs : List Call) (t : String)
      → let w = run idle cs in
        (is_some (acquire w.limiter t).1 ≡ true)
        ↔ ((holds t w.held < per_tenant) × (length w.held < total))
  unfolding acquire
  acquire-is_some_iff cs t =
      let b = run-IsBalanced idle cs idle-IsBalanced in ground (arith, b.tenants t, b.all)

-- The fault of `try_acquire`: while the global permits are used up, a call for a tenant with a free
-- permit returns false and leaves the tenant with one permit more than before.
pub try_acquire_leaks :
    (l : ConcurrencyLimiter) (t : String)
    → l.global ≡ 0
    → 0 < available l t
    → ((try_acquire l t).1 ≡ false) × (available (try_acquire l t).0 t ≡ available l t + 1)
unfolding try_acquire
try_acquire_leaks l t g a =
    let p : ltb 0 (available l t) ≡ true = ground arith in
    let q : ltb 0 l.global ≡ false = ground arith in
    rw (p, q)
      (
        refl,
        rw
            (
              available-insert l (set_permits l t (available l t + 1)) t t (available l t + 1) refl
                  refl,
              beq_refl t,
            )
            refl,
      )
