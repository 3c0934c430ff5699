-- ===== src/Health/Revival.antt =====
-- Which keys a round revives.
use llm_proxy.Prelude.{
  ℕ, ◌+◌, String, ◌≡◌, Bool, false, not, ◌&&◌, ◌||◌, Option, none, some, List, [], ◌∷◌, arith, ◌==◌,
  pair_eq, string_eq, nat_eq,
}
use llm_proxy.Prelude.Assoc.{lookup}
use llm_proxy.AppError.{Result, ok, err, is_ok}
use llm_proxy.Config.KeyEntry.{KeyEntry}
use llm_proxy.BadKeyRegistry.{is_bad, snapshot}
use llm_proxy.BadKeyRegistry.Laws.{is_bad-remove_bad}
use llm_proxy.Health.{
  Env, State, find_key, probed, probe_fresh, probe_found, probe_key, probe_all, probe_round,
}

module _ {P : Type 0} (env : Env P) where
  -- The key and its provider are known, the refresh succeeds and the n-th probe of the round is
  -- answered.
  abbrev answers_fresh : ℕ → P → Result KeyEntry → Bool
  answers_fresh n provider (err e) = false
  answers_fresh n provider (ok key) = is_ok (env.probe n provider key)

  abbrev answers_found : ℕ → Option KeyEntry → Option P → Bool
  answers_found n none provider = false
  answers_found n (some key) none = false
  answers_found n (some key) (some provider) = answers_fresh n provider (env.ensure_fresh n key)

  unfoldable pub answers : ℕ → String × String → Bool
  answers n (pool_id, key_hash) =
      answers_found n (find_key env key_hash (lookup pool_id env.pools))
        (lookup pool_id env.providers)

  -- Some probe of the list, the first being the n-th, is for the key and is answered.
  unfoldable pub revives : ℕ → List (String × String) → String × String → Bool
  revives n [] k = false
  revives n (j ∷ js) k = (j == k && answers n j) || revives (n + 1) js k

  probed-bad :
      (st : State) (p h q j : String) (r : Result (Unit {0}))
      → is_bad (probed env st p h r).bad q j
        ≡ (is_bad st.bad q j && not (p == q && h == j && is_ok r))
  probed-bad st p h q j (ok u) = rw is_bad-remove_bad (ground arith)
  probed-bad st p h q j (err e) = ground arith

  probe_key-bad :
      (st : State) (n : ℕ) (p h q j : String)
      → is_bad (probe_key env st n (p, h)).bad q j
        ≡ (is_bad st.bad q j && not (p == q && h == j && answers n (p, h)))
  unfolding probe_key answers
  probe_key-bad st n p h q j = found (find_key env h (lookup p env.pools)) (lookup p env.providers)
    where
      fresh :
          (provider : P) (r : Result KeyEntry)
          → is_bad (probe_fresh env st n p h provider r).bad q j
            ≡ (is_bad st.bad q j && not (p == q && h == j && answers_fresh n provider r))
      fresh provider (err e) = ground arith
      fresh provider (ok key) = probed-bad st p h q j (env.probe n provider key)

      found :
          (k : Option KeyEntry) (provider : Option P)
          → is_bad (probe_found env st n p h k provider).bad q j
            ≡ (is_bad st.bad q j && not (p == q && h == j && answers_found n k provider))
      found none provider = ground arith
      found (some key) none = ground arith
      found (some key) (some provider) = fresh provider (env.ensure_fresh n key)

  probe_all-bad :
      (st : State) (n : ℕ) (ks : List (String × String)) (q j : String)
      → is_bad (probe_all env st n ks).bad q j ≡ (is_bad st.bad q j && not (revives n ks (q, j)))
  unfolding probe_all revives
  probe_all-bad st n [] q j = ground arith
  probe_all-bad st n ((p, h) ∷ ks) q j =
      rw (probe_all-bad (probe_key env st n (p, h)) (n + 1) ks q j, probe_key-bad) (ground arith)

  -- After a round a key is bad exactly if it was before and none of its probes in the round was
  -- answered, however many of its probes had failed before.
  pub probe_round-bad :
      (st : State) (q j : String)
      → is_bad (probe_round env st).bad q j
        ≡ (is_bad st.bad q j && not (revives 0 (snapshot st.bad) (q, j)))
  unfolding probe_round
  probe_round-bad st q j = probe_all-bad st 0 (snapshot st.bad) q j
