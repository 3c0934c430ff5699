-- ===== src/Health/Examples.antt =====
-- A pool of one bad key whose first probe fails and whose second is answered.
use llm_proxy.Prelude.{
  ℕ, String, ◌≡◌, refl, not, ◌&&◌, [], ◌∷◌, if◌then◌else◌, ◌==◌, pair_eq, string_eq, nat_eq,
}
use llm_proxy.Prelude.Assoc.{lookup, insert, remove}
use llm_proxy.AppError.{internal, Result, ok, err}
use llm_proxy.Config.KeyEntry.{KeyEntry, new_api_key, identity_secret, identity_hash}
use llm_proxy.BadKeyRegistry.{is_bad, snapshot, remove_bad}
use llm_proxy.Health.{Env, State, probe_key, probe_all, probe_round}
use llm_proxy.Health.Revival.{revives, probe_round-bad}

abbrev plain : String → String
plain s = s

abbrev answers_second : ℕ → String → KeyEntry → Result (Unit {0})
answers_second n p k = if n == 1 then ok tt else err (internal "down")

abbrev env : Env String
env = record {
  compute_key_hash = plain;
  pools = ("p", record { keys = new_api_key "a" 1 ∷ [] }) ∷ [];
  providers = ("p", "openai") ∷ [];
  max_retries = 1;
  ensure_fresh = λ n k. ok k;
  probe = answers_second;
}

abbrev twice_bad : State
twice_bad = record { bad = ("p", "a" ∷ "a" ∷ []) ∷ []; retries = (("p", "a"), 7) ∷ [] }

-- The key comes back although its failures are past `max_retries`.
revived : (probe_round env twice_bad).bad ≡ []
unfolding probe_round probe_all probe_key snapshot remove_bad lookup insert remove identity_hash
    identity_secret new_api_key
revived = refl

probe_round-bad_example :
    is_bad (probe_round env twice_bad).bad "p" "a"
    ≡ (is_bad twice_bad.bad "p" "a" && not (revives env 0 (snapshot twice_bad.bad) ("p", "a")))
probe_round-bad_example = probe_round-bad env twice_bad "p" "a"
