-- ===== src/Concurrency/Guards.antt =====
-- A guard that is dropped gives back what it took, and a refusal takes nothing.
use llm_proxy.Prelude.{
  ◌+◌, ◌-◌, String, ◌≡◌, refl, ◌∙◌, false, arith, ◌==◌, beq_refl, pair_eq, string_eq, nat_eq,
}
use text.Mathlib.TextEquality.{eq_iff}
use llm_proxy.Concurrency.{ConcurrencyLimiter, ConcurrencyGuard, available, set_permits, release}
use llm_proxy.Concurrency.Limits.{available-insert}

abbrev pub taken : ConcurrencyLimiter → String → ConcurrencyLimiter
taken l tenant = record (set_permits l tenant (available l tenant - 1)) { global = l.global - 1 }

abbrev pub guard_of : String → ConcurrencyGuard
guard_of tenant = record { tenant_id = tenant }

pub refused-free :
    (l : ConcurrencyLimiter) (tenant u : String)
    → available (set_permits l tenant (available l tenant)) u ≡ available l u
refused-free l tenant u =
    available-insert l (set_permits l tenant (available l tenant)) tenant u (available l tenant)
      refl refl
    ∙ ground (arith, eq_iff tenant u)

pub taken-free :
    (l : ConcurrencyLimiter) (tenant u : String)
    → (available l tenant == 0) ≡ false
    → available (release (taken l tenant) (guard_of tenant)) u ≡ available l u
unfolding release
taken-free l tenant u h =
    available-insert (taken l tenant) (release (taken l tenant) (guard_of tenant)) tenant u
      (available (taken l tenant) tenant + 1) refl refl
    ∙ rw
        (
          available-insert l (taken l tenant) tenant tenant (available l tenant - 1) refl refl,
          available-insert l (taken l tenant) tenant u (available l tenant - 1) refl refl,
          beq_refl tenant,
        )
        (ground (arith, eq_iff tenant u))

pub taken-global :
    (l : ConcurrencyLimiter) (tenant : String)
    → (l.global == 0) ≡ false
    → (release (taken l tenant) (guard_of tenant)).global ≡ l.global
unfolding release
taken-global l tenant h = ground arith
