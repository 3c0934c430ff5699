-- ===== src/Alerts.antt =====
-- src/alerts/mod.rs: the alert events, the bounded snapshot of the recent ones, and the delivery
-- loop of a channel.
pub mod Laws
mod Examples
use llm_proxy.Prelude.{
  ℕ, zero, suc, ◌+◌, String, Bool, true, false, Option, none, some, List, [], ◌∷◌, ◌++◌, ltb, leb,
  if◌then◌else◌, length, ◌==◌, pair_eq, string_eq, nat_eq,
}

pub data AlertEvent : Type 0 where
  -- ts, pool_id, key_hash, error_code, status, msg
  upstream_error : ℕ → String → String → String → Option ℕ → String → AlertEvent
  -- ts, model, latency_ms, threshold_ms
  latency_spike : ℕ → String → ℕ → ℕ → AlertEvent
  -- ts, tenant_id
  rate_limited : ℕ → String → AlertEvent
  -- ts, pool_id
  pool_exhausted : ℕ → String → AlertEvent

-- `VecDeque::pop_front`
abbrev pop_front : List AlertEvent → List AlertEvent
pop_front [] = []
pop_front (e ∷ es) = es

-- `snap.push_back(event)`, and the oldest event goes when there are more than 1024.
unfoldable pub push_snapshot : List AlertEvent → AlertEvent → List AlertEvent
push_snapshot snap event =
    let snap' = snap ++ event ∷ [] in if ltb 1024 (length snap') then pop_front snap' else snap'

unfoldable pub push_all : List AlertEvent → List AlertEvent → List AlertEvent
push_all snap [] = snap
push_all snap (e ∷ es) = push_all (push_snapshot snap e) es

-- One delivery task of a channel: up to three tries, `delivers n` being whether the n-th succeeds.
-- The result is whether the event was delivered, and the backoffs slept, in seconds.
abbrev backoff_secs : ℕ → ℕ
backoff_secs attempts = if attempts == 1 then 1 else if attempts == 2 then 2 else 4

abbrev deliver_fuel : ℕ
deliver_fuel = 3

deliver_from : ℕ → (ℕ → Bool) → ℕ → List ℕ → Option (Bool × List ℕ)
deliver_from zero delivers attempts slept = none
deliver_from (suc fuel) delivers attempts slept =
    let attempts' = attempts + 1 in
    let again = deliver_from fuel delivers attempts' (slept ++ backoff_secs attempts' ∷ []) in
    if delivers attempts'
    then some (true, slept)
    else if leb 3 attempts'
    then some (false, slept)
    else again

unfoldable pub deliver : (ℕ → Bool) → Option (Bool × List ℕ)
unfolding deliver_from
deliver delivers = deliver_from deliver_fuel delivers 0 []
