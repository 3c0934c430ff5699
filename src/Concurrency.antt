-- ===== src/Concurrency.antt =====
-- src/concurrency.rs: the limit on requests in flight, per tenant and in all. A semaphore is the
-- number of its free permits; a tenant's semaphore is never removed, so a guard is its tenant.
pub mod Limits
pub mod Guards
mod Examples
use llm_proxy.Prelude.{
  ℕ, ◌+◌, ◌-◌, String, Bool, true, false, ◌&&◌, Option, none, some, [], ltb, if◌then◌else◌, get_or,
  ◌==◌, pair_eq, string_eq, nat_eq,
}
use llm_proxy.Prelude.Assoc.{Map, lookup, insert}

pub record ConcurrencyLimiter : Type 0 where
  pub semaphores : Map String ℕ
  pub max_per_tenant : ℕ
  pub total_max : ℕ
  pub global : ℕ

-- The guard of one request: a permit of the tenant's semaphore and one of the global semaphore.
pub record ConcurrencyGuard : Type 0 where
  pub tenant_id : String

unfoldable pub new : ℕ → ℕ → ConcurrencyLimiter
new max_per_tenant total_max = record {
  semaphores = [];
  max_per_tenant = max_per_tenant;
  total_max = total_max;
  global = total_max;
}

unfoldable pub available : ConcurrencyLimiter → String → ℕ
available l tenant = get_or (lookup tenant l.semaphores) l.max_per_tenant

abbrev pub global_available : ConcurrencyLimiter → ℕ
global_available l = l.global

unfoldable pub usage : ConcurrencyLimiter → String → ℕ
usage l tenant = l.max_per_tenant - available l tenant

abbrev set_permits : ConcurrencyLimiter → String → ℕ → ConcurrencyLimiter
set_permits l tenant n = record l { semaphores = insert tenant n l.semaphores }

-- The tenant's semaphore is made on its first request. A permit that was taken is returned when the
-- other one is refused.
unfoldable pub acquire : ConcurrencyLimiter → String → ConcurrencyLimiter × Option ConcurrencyGuard
acquire l tenant =
    let n = available l tenant in
    if n == 0
    then (set_permits l tenant n, none)
    else if l.global == 0
    then (set_permits l tenant n, none)
    else (
      record (set_permits l tenant (n - 1)) { global = l.global - 1 },
      some (record { tenant_id = tenant }),
    )

-- The guard is dropped.
unfoldable pub release : ConcurrencyLimiter → ConcurrencyGuard → ConcurrencyLimiter
release l guard = record (set_permits l guard.tenant_id (available l guard.tenant_id + 1)) {
  global = l.global + 1;
}

-- Both permits are temporaries, so they are back before the branch; the tenant's is then added.
unfoldable pub try_acquire : ConcurrencyLimiter → String → ConcurrencyLimiter × Bool
try_acquire l tenant =
    let n = available l tenant in
    let tenant_ok = ltb 0 n in
    let global_ok = ltb 0 l.global in
    if tenant_ok && global_ok
    then (set_permits l tenant n, true)
    else (set_permits l tenant (if tenant_ok then n + 1 else n), false)
