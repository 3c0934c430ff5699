-- ===== src/AuthStore/Outcomes.antt =====
-- Which calls of the store fail, and that those leave it alone.
use llm_proxy.Prelude.{
  ℕ, String, ◌≡◌, refl, inl, inr, Bool, true, false, not, ◌&&◌, Option, none, some, arith,
  Bool-cases, is_some, ◌==◌,
}
use llm_proxy.Prelude.{pair_eq, string_eq, nat_eq}
use llm_proxy.Prelude.Assoc.{lookup, find-lookup}
use llm_proxy.AppError.{Result, is_ok}
use llm_proxy.AuthStore.{
  ClientKeyRecord, CreateKeyRequest, UpdateKeyRequest, AuthStore, find_hash, update_at,
  update_found, update, remove_at, remove_found, remove_key, add, rotate_at, rotate_found, rotate,
  Op, add_key, update_key, rotate_key, delete_key, apply,
}

module _ (compute_key_hash : String → String) where
  -- The calls that succeed: a new key must be fresh and non-empty, the others need a record with
  -- the hash, and a rotation a fresh key.
  unfoldable pub accepted : AuthStore → Op → Bool
  accepted store (add_key now req) = not (req.key == "") && not (is_some (lookup req.key store))
  accepted store (update_key key_hash req) = is_some (find_hash key_hash store)
  accepted store (rotate_key now key_hash req) =
      is_some (find_hash key_hash store) && not (is_some (lookup req.new_key store))
  accepted store (delete_key key_hash) = is_some (find_hash key_hash store)

  -- The result of a call on `store`: a success exactly if `b`, and otherwise the same store.
  abbrev IsOutcome : AuthStore → Bool → AuthStore × Result ClientKeyRecord → Type 0
  IsOutcome store b (after, result) = (is_ok result ≡ b) × (is_ok result ≡ false → after ≡ store)

  add-IsOutcome :
      (now : ℕ) (store : AuthStore) (req : CreateKeyRequest)
      → IsOutcome store
          (not (req.key == "") && not (is_some (lookup req.key store)))
          (add compute_key_hash now store req)
  unfolding add
  add-IsOutcome now store req = elim (Bool-cases (req.key == "")) [
    | inl e ↦ rw e (refl, λ x. refl)
    | inr e ↦ elim (Bool-cases (is_some (lookup req.key store))) [
      | inl t ↦ rw (e, t) (refl, λ x. refl)
      | inr t ↦ rw (e, t) (refl, λ x. absurd (ground arith))
    ]
  ]

  update_at-IsOutcome :
      (store : AuthStore) (key_hash : String) (req : UpdateKeyRequest) (k : String)
      (o : Option ClientKeyRecord)
      → is_some o ≡ true
      → IsOutcome store true (update_at store key_hash req k o)
  update_at-IsOutcome store key_hash req k none h = absurd (ground arith)
  update_at-IsOutcome store key_hash req k (some r) h = (refl, λ x. absurd (ground arith))

  update_found-IsOutcome :
      (store : AuthStore) (key_hash : String) (req : UpdateKeyRequest)
      (o : Option (String × ClientKeyRecord))
      → find_hash key_hash store ≡ o
      → IsOutcome store (is_some o) (update_found store key_hash req o)
  unfolding find_hash
  update_found-IsOutcome store key_hash req none h = (refl, λ x. refl)
  update_found-IsOutcome store key_hash req (some (k, r)) h =
      update_at-IsOutcome store key_hash req k (lookup k store) (find-lookup _ k r store h)

  remove_at-IsOutcome :
      (store : AuthStore) (key_hash k : String) (o : Option ClientKeyRecord)
      → is_some o ≡ true
      → IsOutcome store true (remove_at store key_hash k o)
  remove_at-IsOutcome store key_hash k none h = absurd (ground arith)
  remove_at-IsOutcome store key_hash k (some r) h = (refl, λ x. absurd (ground arith))

  remove_found-IsOutcome :
      (store : AuthStore) (key_hash : String) (o : Option (String × ClientKeyRecord))
      → find_hash key_hash store ≡ o
      → IsOutcome store (is_some o) (remove_found store key_hash o)
  unfolding find_hash
  remove_found-IsOutcome store key_hash none h = (refl, λ x. refl)
  remove_found-IsOutcome store key_hash (some (k, r)) h =
      remove_at-IsOutcome store key_hash k (lookup k store) (find-lookup _ k r store h)

  rotate_at-IsOutcome :
      (now : ℕ) (store : AuthStore) (key_hash new_key k : String) (o : Option ClientKeyRecord)
      → is_some o ≡ true
      → IsOutcome store true (rotate_at compute_key_hash now store key_hash new_key k o)
  rotate_at-IsOutcome now store key_hash new_key k none h = absurd (ground arith)
  rotate_at-IsOutcome now store key_hash new_key k (some r) h = (refl, λ x. absurd (ground arith))

  rotate_found-IsOutcome :
      (now : ℕ) (store : AuthStore) (key_hash new_key : String)
      (o : Option (String × ClientKeyRecord))
      → find_hash key_hash store ≡ o
      → IsOutcome store
          (is_some o && not (is_some (lookup new_key store)))
          (rotate_found compute_key_hash now store key_hash new_key o)
  unfolding find_hash
  rotate_found-IsOutcome now store key_hash new_key none h = (refl, λ x. refl)
  rotate_found-IsOutcome now store key_hash new_key (some (k, r)) h =
      elim (Bool-cases (is_some (lookup new_key store))) [
        | inl t ↦ rw t (refl, λ x. refl)
        | inr t ↦ rw t (
            rotate_at-IsOutcome now store key_hash new_key k (lookup k store)
              (find-lookup _ k r store h))
      ]

  -- A call on the store succeeds exactly if it is accepted: a key is added if it is not empty and
  -- not there, a key is updated, rotated or removed if a record has the hash that is asked for, and
  -- rotated only to a key that is not there. A call that fails leaves the store as it was.
  pub apply-is_ok :
      (store : AuthStore) (op : Op)
      → (is_ok (apply compute_key_hash store op).1 ≡ accepted store op)
        × (is_ok (apply compute_key_hash store op).1 ≡ false
            → (apply compute_key_hash store op).0 ≡ store)
  unfolding apply accepted update rotate remove_key
  apply-is_ok store (add_key now req) = add-IsOutcome now store req
  apply-is_ok store (update_key key_hash req) =
      update_found-IsOutcome store key_hash req (find_hash key_hash store) refl
  apply-is_ok store (rotate_key now key_hash req) =
      rotate_found-IsOutcome now store key_hash req.new_key (find_hash key_hash store) refl
  apply-is_ok store (delete_key key_hash) =
      remove_found-IsOutcome store key_hash (find_hash key_hash store) refl
