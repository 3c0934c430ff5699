-- ===== src/AuthStore/Revocation.antt =====
-- Which keys are accepted after a key is rotated, removed or disabled by its hash.
use llm_proxy.Prelude.{
  ℕ, String, ◌≡◌, refl, ap, inl, inr, true, false, Option, none, some, arith, if◌then◌else◌,
  Bool-cases, is_some, All, find-test, find-All, ◌==◌, eq_of_beq,
}
use llm_proxy.Prelude.{pair_eq, string_eq, nat_eq}
use llm_proxy.Prelude.Assoc.{
  lookup, insert, remove, lookup-insert, lookup-remove, lookup-All, lookup-find,
}
use llm_proxy.AppError.{ok}
use llm_proxy.AuthStore.{
  ClientKeyRecord, UpdateKeyRequest, AuthStore, validate, find_hash, set_label, set_tenant, updated,
  update, remove_key, rotated, rotate,
}
use llm_proxy.AuthStore.Consistency.{IsOwn, IsConsistent}
use text.Mathlib.TextEquality.{eq_iff}

module _ (compute_key_hash : String → String) where
  abbrev SharesOnly : String → String × ClientKeyRecord → Type 0
  SharesOnly k (j, r) = r.key_hash ≡ compute_key_hash k → j ≡ k

  -- No other key of the store has the hash of `k`.
  abbrev pub IsOnlyOne : String → AuthStore → Type 0
  IsOnlyOne k = All (SharesOnly k)

  module _ (store : AuthStore) (k : String) (r : ClientKeyRecord)
      (consistent : IsConsistent compute_key_hash store) (only : IsOnlyOne k store)
      (held : lookup k store ≡ some r) where
    has_hash : (r.key_hash == compute_key_hash k) ≡ true
    has_hash =
        let (a, b) = lookup-All (IsOwn compute_key_hash) k r store consistent held in
        ground (arith, eq_iff r.key_hash (compute_key_hash k))

    found_key :
        (o : Option (String × ClientKeyRecord))
        → find_hash (compute_key_hash k) store ≡ o
        → is_some o ≡ true
        → (w : ClientKeyRecord) × (o ≡ some (k, w))
    unfolding find_hash
    found_key none e t = absurd (ground arith)
    found_key (some (j, w)) e t =
        let same_hash = find-test _ store (j, w) e in
        let same_key = find-All (SharesOnly k) _ store (j, w) only e in
        (w, ap (λ x. some (x, w)) (same_key (eq_of_beq w.key_hash (compute_key_hash k) same_hash)))

    -- The search by the hash ends at the key.
    find_key : (w : ClientKeyRecord) × (find_hash (compute_key_hash k) store ≡ some (k, w))
    unfolding find_hash
    find_key =
        found_key (find_hash (compute_key_hash k) store) refl
          (lookup-find _ k r store held has_hash)

    rotate_held :
        (now : ℕ) (new_key : String)
        → lookup new_key store ≡ none
        → rotate compute_key_hash now store (compute_key_hash k) (record { new_key = new_key }) ≡ (
          insert new_key (rotated compute_key_hash now new_key r) (remove k store),
          ok (rotated compute_key_hash now new_key r),
        )
    unfolding rotate
    rotate_held now new_key fresh = rw (find_key.1, fresh, held) refl

    remove_held : remove_key store (compute_key_hash k) ≡ (remove k store, ok r)
    unfolding remove_key
    remove_held = rw (find_key.1, held) refl

    update_held :
        (req : UpdateKeyRequest)
        → update store (compute_key_hash k) req
          ≡ (insert k (updated req r) store, ok (updated req r))
    unfolding update
    update_held req = rw (find_key.1, held) refl

    set_label-disabled :
        (o : Option String) (w : ClientKeyRecord)
        → w.enabled ≡ false
        → (set_label o w).enabled ≡ false
    set_label-disabled none w h = h
    set_label-disabled (some l) w h = h

    set_tenant-disabled :
        (o : Option String) (w : ClientKeyRecord)
        → w.enabled ≡ false
        → (set_tenant o w).enabled ≡ false
    set_tenant-disabled none w h = h
    set_tenant-disabled (some t) w h = elim (Bool-cases (t == "")) [
      | inl e ↦ rw e h
      | inr e ↦ rw e h
    ]

    updated-disabled :
        (req : UpdateKeyRequest) → req.enabled ≡ some false → (updated req r).enabled ≡ false
    updated-disabled req off =
        set_tenant-disabled req.tenant_id _ (set_label-disabled req.label _ (rw off refl))

    -- A rotation to a fresh key, by the hash of a key that the store holds and that no other stored
    -- key shares: the old key is refused, the new one is accepted for the same tenant if the old
    -- one was enabled, and every other key is answered as before.
    pub validate-rotate :
        (now : ℕ) (new_key j : String)
        → lookup new_key store ≡ none
        → validate
            (rotate compute_key_hash now store
              (compute_key_hash k)
              (record { new_key = new_key })).0
            j
          ≡ (if new_key == j
              then if r.enabled
                then some (record { key = new_key; tenant_id = r.tenant_id })
                else none
              else if k == j
              then none
              else validate store j)
    unfolding validate
    validate-rotate now new_key j fresh =
        rw (rotate_held now new_key fresh, lookup-insert, lookup-remove) (ground arith)

    -- A key that the store holds, and whose hash no other stored key shares, is refused after it is
    -- removed or disabled by its hash, and every other key is answered as before.
    pub validate-revoked :
        (j : String)
        → (validate (remove_key store (compute_key_hash k)).0 j
            ≡ (if k == j then none else validate store j))
          × ((req : UpdateKeyRequest)
              → req.enabled ≡ some false
              → validate (update store (compute_key_hash k) req).0 j
                ≡ (if k == j then none else validate store j))
    unfolding validate
    validate-revoked j = (
      rw (remove_held, lookup-remove) (ground arith),
      λ req off. rw (update_held req, lookup-insert) (ground (arith, updated-disabled req off)),
    )
