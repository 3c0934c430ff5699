-- ===== src/AuthStore/Consistency.antt =====
-- What the client keys of a store satisfy after any calls, and what the calls that fail do.
use llm_proxy.Prelude.{
  ℕ, String, ◌≡◌, refl, inl, inr, Bool, Option, none, some, List, [], ◌∷◌, arith, Bool-cases,
  is_some, All, ◌==◌,
}
use llm_proxy.Prelude.{pair_eq, string_eq, nat_eq}
use llm_proxy.Prelude.Assoc.{lookup, insert-All, remove-All, lookup-All}
use llm_proxy.AuthStore.{
  ClientKeyEntry, ClientKeyRecord, CreateKeyRequest, UpdateKeyRequest, AuthStore, entry_of,
  validate, find_hash, set_enabled, set_label, set_tenant, updated, update_at, update_found, update,
  remove_at, remove_found, remove_key, from_entry, insert_all, new, add, rotate_at, rotate_found,
  rotate, Op, add_key, update_key, rotate_key, delete_key, apply, run,
}

module _ (compute_key_hash : String → String) where
  -- A record stands under its own key, with the hash of that key.
  abbrev pub IsOwn : String × ClientKeyRecord → Type 0
  IsOwn (k, r) = (r.key ≡ k) × (r.key_hash ≡ compute_key_hash k)

  abbrev pub IsConsistent : AuthStore → Type 0
  IsConsistent = All IsOwn

  insert_all-IsConsistent :
      (now : ℕ) (es : List ClientKeyEntry) (store : AuthStore)
      → IsConsistent store
      → IsConsistent (insert_all compute_key_hash now store es)
  unfolding from_entry
  insert_all-IsConsistent now [] store h = h
  insert_all-IsConsistent now (e ∷ es) store h =
      insert_all-IsConsistent now es _ (insert-All IsOwn e.key _ store (refl, refl) h)

  pub new-IsConsistent :
      (now : ℕ) (initial : List ClientKeyEntry) → IsConsistent (new compute_key_hash now initial)
  unfolding new
  new-IsConsistent now initial = insert_all-IsConsistent now initial [] tt

  add-IsConsistent :
      (now : ℕ) (store : AuthStore) (req : CreateKeyRequest)
      → IsConsistent store
      → IsConsistent (add compute_key_hash now store req).0
  unfolding add from_entry
  add-IsConsistent now store req h = elim (Bool-cases (req.key == "")) [
    | inl e ↦ rw e h
    | inr e ↦ elim (Bool-cases (is_some (lookup req.key store))) [
      | inl t ↦ rw (e, t) h
      | inr t ↦ rw (e, t) (insert-All IsOwn req.key _ store (refl, refl) h)
    ]
  ]

  set_enabled-IsOwn :
      (o : Option Bool) (k : String) (r : ClientKeyRecord)
      → IsOwn (k, r)
      → IsOwn (k, set_enabled o r)
  set_enabled-IsOwn none k r h = h
  set_enabled-IsOwn (some b) k r h = h

  set_label-IsOwn :
      (o : Option String) (k : String) (r : ClientKeyRecord)
      → IsOwn (k, r)
      → IsOwn (k, set_label o r)
  set_label-IsOwn none k r h = h
  set_label-IsOwn (some l) k r h = h

  set_tenant-IsOwn :
      (o : Option String) (k : String) (r : ClientKeyRecord)
      → IsOwn (k, r)
      → IsOwn (k, set_tenant o r)
  set_tenant-IsOwn none k r h = h
  set_tenant-IsOwn (some t) k r h = elim (Bool-cases (t == "")) [ inl e ↦ rw e h | inr e ↦ rw e h ]

  updated-IsOwn :
      (req : UpdateKeyRequest) (k : String) (r : ClientKeyRecord)
      → IsOwn (k, r)
      → IsOwn (k, updated req r)
  updated-IsOwn req k r h =
      set_tenant-IsOwn req.tenant_id k _
        (set_label-IsOwn req.label k _ (set_enabled-IsOwn req.enabled k r h))

  update_at-IsConsistent :
      (store : AuthStore) (key_hash : String) (req : UpdateKeyRequest) (k : String)
      (o : Option ClientKeyRecord)
      → lookup k store ≡ o
      → IsConsistent store
      → IsConsistent (update_at store key_hash req k o).0
  update_at-IsConsistent store key_hash req k none e h = h
  update_at-IsConsistent store key_hash req k (some r) e h =
      insert-All IsOwn k _ store (updated-IsOwn req k r (lookup-All IsOwn k r store h e)) h

  update_found-IsConsistent :
      (store : AuthStore) (key_hash : String) (req : UpdateKeyRequest)
      (o : Option (String × ClientKeyRecord))
      → IsConsistent store
      → IsConsistent (update_found store key_hash req o).0
  update_found-IsConsistent store key_hash req none h = h
  update_found-IsConsistent store key_hash req (some (k, r)) h =
      update_at-IsConsistent store key_hash req k (lookup k store) refl h

  remove_at-IsConsistent :
      (store : AuthStore) (key_hash k : String) (o : Option ClientKeyRecord)
      → IsConsistent store
      → IsConsistent (remove_at store key_hash k o).0
  remove_at-IsConsistent store key_hash k none h = h
  remove_at-IsConsistent store key_hash k (some r) h = remove-All IsOwn k store h

  remove_found-IsConsistent :
      (store : AuthStore) (key_hash : String) (o : Option (String × ClientKeyRecord))
      → IsConsistent store
      → IsConsistent (remove_found store key_hash o).0
  remove_found-IsConsistent store key_hash none h = h
  remove_found-IsConsistent store key_hash (some (k, r)) h =
      remove_at-IsConsistent store key_hash k (lookup k store) h

  rotate_at-IsConsistent :
      (now : ℕ) (store : AuthStore) (key_hash new_key k : String) (o : Option ClientKeyRecord)
      → IsConsistent store
      → IsConsistent (rotate_at compute_key_hash now store key_hash new_key k o).0
  rotate_at-IsConsistent now store key_hash new_key k none h = h
  rotate_at-IsConsistent now store key_hash new_key k (some r) h =
      insert-All IsOwn new_key _ _ (refl, refl) (remove-All IsOwn k store h)

  rotate_found-IsConsistent :
      (now : ℕ) (store : AuthStore) (key_hash new_key : String)
      (o : Option (String × ClientKeyRecord))
      → IsConsistent store
      → IsConsistent (rotate_found compute_key_hash now store key_hash new_key o).0
  rotate_found-IsConsistent now store key_hash new_key none h = h
  rotate_found-IsConsistent now store key_hash new_key (some (k, r)) h =
      elim (Bool-cases (is_some (lookup new_key store))) [
        | inl t ↦ rw t h
        | inr t ↦ rw t (rotate_at-IsConsistent now store key_hash new_key k (lookup k store) h)
      ]

  apply-IsConsistent :
      (store : AuthStore) (op : Op)
      → IsConsistent store
      → IsConsistent (apply compute_key_hash store op).0
  unfolding apply update rotate remove_key
  apply-IsConsistent store (add_key now req) h = add-IsConsistent now store req h
  apply-IsConsistent store (update_key key_hash req) h =
      update_found-IsConsistent store key_hash req (find_hash key_hash store) h
  apply-IsConsistent store (rotate_key now key_hash req) h =
      rotate_found-IsConsistent now store key_hash req.new_key (find_hash key_hash store) h
  apply-IsConsistent store (delete_key key_hash) h =
      remove_found-IsConsistent store key_hash (find_hash key_hash store) h

  run-IsConsistent :
      (ops : List Op) (store : AuthStore)
      → IsConsistent store
      → IsConsistent (run compute_key_hash store ops)
  unfolding run
  run-IsConsistent [] store h = h
  run-IsConsistent (op ∷ ops) store h =
      run-IsConsistent ops (apply compute_key_hash store op).0 (apply-IsConsistent store op h)

  entry_of-own :
      (store : AuthStore) (k : String) (e : ClientKeyEntry) (o : Option ClientKeyRecord)
      → lookup k store ≡ o
      → IsConsistent store
      → entry_of o ≡ some e
      → e.key ≡ k
  entry_of-own store k e none t h v = ground arith
  entry_of-own store k e (some r) t h v =
      let (a, b) = lookup-All IsOwn k r store h t in
      elim (Bool-cases r.enabled) [
        | inl x ↦ ground (arith, rw x at v)
        | inr x ↦ ground (arith, rw x at v)
      ]

  validate-own :
      (store : AuthStore) (k : String) (e : ClientKeyEntry)
      → IsConsistent store
      → validate store k ≡ some e
      → e.key ≡ k
  unfolding validate
  validate-own store k e = entry_of-own store k e (lookup k store) refl

  -- In a store that is built from any entries and changed by any calls, every record stands under
  -- its own key with the hash of that key, and a client key is accepted only as itself.
  pub run-new-IsConsistent :
      (now : ℕ) (initial : List ClientKeyEntry) (ops : List Op)
      → IsConsistent (run compute_key_hash (new compute_key_hash now initial) ops)
        × ((k : String) (e : ClientKeyEntry)
            → validate (run compute_key_hash (new compute_key_hash now initial) ops) k ≡ some e
            → e.key ≡ k)
  run-new-IsConsistent now initial ops =
      let h = run-IsConsistent ops _ (new-IsConsistent now initial) in
      (h, λ k e v. validate-own _ k e h v)
