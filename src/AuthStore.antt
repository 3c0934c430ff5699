-- ===== src/AuthStore.antt =====
-- src/auth_store.rs: the client keys and their changes at run time (`AuthStore`). A method that
-- changes the store returns the new store beside its result; the clock is an argument.
-- `db::compute_key_hash` (SHA-256, of src/db/mod.rs) is a parameter. `find` takes the first entry
-- of the list that stands for the DashMap.
pub mod Consistency
pub mod Outcomes
pub mod Revocation
mod Examples
use llm_proxy.Prelude.{
  ℕ, String, Bool, true, not, Option, none, some, List, [], ◌∷◌, if◌then◌else◌, is_some, find, ◌==◌,
}
use llm_proxy.Prelude.{pair_eq, string_eq, nat_eq}
use llm_proxy.Prelude.Assoc.{Map, lookup, insert, remove}
use llm_proxy.AppError.{AppError, not_found, bad_request, Result, ok, err}
use Prim.Native.String.{◌++◌}

pub record ClientKeyEntry : Type 0 where
  pub key : String
  pub tenant_id : String

pub record ClientKeyRecord : Type 0 where
  pub key : String
  pub tenant_id : String
  pub key_hash : String
  pub created_at : ℕ
  pub enabled : Bool
  pub label : String

-- `ClientKeyPublicRecord`, what the admin API shows.
pub record ClientKeyPublicRecord : Type 0 where
  pub tenant_id : String
  pub key_hash : String
  pub created_at : ℕ
  pub enabled : Bool
  pub label : String

unfoldable pub public_record : ClientKeyRecord → ClientKeyPublicRecord
public_record r = record {
  tenant_id = r.tenant_id;
  key_hash = r.key_hash;
  created_at = r.created_at;
  enabled = r.enabled;
  label = r.label;
}

pub record CreateKeyRequest : Type 0 where
  pub key : String
  pub tenant_id : String
  pub label : String

pub record UpdateKeyRequest : Type 0 where
  pub enabled : Option Bool
  pub label : Option String
  pub tenant_id : Option String

pub record RotateKeyRequest : Type 0 where
  pub new_key : String

abbrev pub AuthStore : Type 0
AuthStore = Map String ClientKeyRecord

abbrev entry_of : Option ClientKeyRecord → Option ClientKeyEntry
entry_of none = none
entry_of (some r) =
    if r.enabled then some (record { key = r.key; tenant_id = r.tenant_id }) else none

unfoldable pub validate : AuthStore → String → Option ClientKeyEntry
validate store raw_key = entry_of (lookup raw_key store)

-- `keys.iter().find(|e| e.value().key_hash == key_hash)`
unfoldable pub find_hash : String → AuthStore → Option (String × ClientKeyRecord)
find_hash key_hash = find (λ (k, r). r.key_hash == key_hash)

unfoldable pub get_by_hash : AuthStore → String → Option ClientKeyRecord
unfolding find_hash
get_by_hash store key_hash = elim (find_hash key_hash store) [ none ↦ none | some (k, r) ↦ some r ]

abbrev pub missing : String → AppError
missing key_hash = not_found ("key '" ++ key_hash ++ "' not found")

abbrev set_enabled : Option Bool → ClientKeyRecord → ClientKeyRecord
set_enabled none r = r
set_enabled (some enabled) r = record r { enabled = enabled }

abbrev set_label : Option String → ClientKeyRecord → ClientKeyRecord
set_label none r = r
set_label (some label) r = record r { label = label }

abbrev set_tenant : Option String → ClientKeyRecord → ClientKeyRecord
set_tenant none r = r
set_tenant (some tenant_id) r = if tenant_id == "" then r else record r { tenant_id = tenant_id }

abbrev pub updated : UpdateKeyRequest → ClientKeyRecord → ClientKeyRecord
updated req r = set_tenant req.tenant_id (set_label req.label (set_enabled req.enabled r))

-- `get_mut` on the key that was found.
abbrev update_at :
    AuthStore
    → String
    → UpdateKeyRequest
    → String
    → Option ClientKeyRecord
    → AuthStore × Result ClientKeyRecord
update_at store key_hash req raw_key none = (store, err (missing key_hash))
update_at store key_hash req raw_key (some r) =
    (insert raw_key (updated req r) store, ok (updated req r))

abbrev update_found :
    AuthStore
    → String
    → UpdateKeyRequest
    → Option (String × ClientKeyRecord)
    → AuthStore × Result ClientKeyRecord
update_found store key_hash req none = (store, err (missing key_hash))
update_found store key_hash req (some (k, r)) = update_at store key_hash req k (lookup k store)

unfoldable pub update : AuthStore → String → UpdateKeyRequest → AuthStore × Result ClientKeyRecord
unfolding find_hash
update store key_hash req = update_found store key_hash req (find_hash key_hash store)

abbrev remove_at :
    AuthStore → String → String → Option ClientKeyRecord → AuthStore × Result ClientKeyRecord
remove_at store key_hash k none = (store, err (missing key_hash))
remove_at store key_hash k (some r) = (remove k store, ok r)

abbrev remove_found :
    AuthStore → String → Option (String × ClientKeyRecord) → AuthStore × Result ClientKeyRecord
remove_found store key_hash none = (store, err (missing key_hash))
remove_found store key_hash (some (k, r)) = remove_at store key_hash k (lookup k store)

unfoldable pub remove_key : AuthStore → String → AuthStore × Result ClientKeyRecord
unfolding find_hash
remove_key store key_hash = remove_found store key_hash (find_hash key_hash store)

module _ (compute_key_hash : String → String) where
  -- `From<ClientKeyEntry>`, at the clock's reading `now`.
  unfoldable pub from_entry : ℕ → ClientKeyEntry → ClientKeyRecord
  from_entry now e = record {
    key = e.key;
    tenant_id = e.tenant_id;
    key_hash = compute_key_hash e.key;
    created_at = now;
    enabled = true;
    label = "";
  }

  -- `AuthStore::new`: the `for` loop inserts the entries in order.
  abbrev insert_all : ℕ → AuthStore → List ClientKeyEntry → AuthStore
  insert_all now store [] = store
  insert_all now store (e ∷ es) = insert_all now (insert e.key (from_entry now e) store) es

  unfoldable pub new : ℕ → List ClientKeyEntry → AuthStore
  new now initial = insert_all now [] initial

  unfoldable pub add : ℕ → AuthStore → CreateKeyRequest → AuthStore × Result ClientKeyRecord
  unfolding from_entry
  add now store req =
      if req.key == ""
      then (store, err (bad_request "key must not be empty"))
      else if is_some (lookup req.key store)
      then (store, err (bad_request "key already exists"))
      else let entry : ClientKeyEntry = record { key = req.key; tenant_id = req.tenant_id } in
        let r : ClientKeyRecord = record (from_entry now entry) { label = req.label } in
        (insert req.key r store, ok r)

  abbrev pub rotated : ℕ → String → ClientKeyRecord → ClientKeyRecord
  rotated now new_key r = record r {
    key = new_key;
    key_hash = compute_key_hash new_key;
    created_at = now;
  }

  abbrev rotate_at :
      ℕ
      → AuthStore
      → String
      → String
      → String
      → Option ClientKeyRecord
      → AuthStore × Result ClientKeyRecord
  rotate_at now store key_hash new_key old_key none = (store, err (missing key_hash))
  rotate_at now store key_hash new_key old_key (some r) =
      (insert new_key (rotated now new_key r) (remove old_key store), ok (rotated now new_key r))

  abbrev rotate_found :
      ℕ
      → AuthStore
      → String
      → String
      → Option (String × ClientKeyRecord)
      → AuthStore × Result ClientKeyRecord
  rotate_found now store key_hash new_key none = (store, err (missing key_hash))
  rotate_found now store key_hash new_key (some (old_key, r)) =
      if is_some (lookup new_key store)
      then (store, err (bad_request "new key already exists in the store"))
      else rotate_at now store key_hash new_key old_key (lookup old_key store)

  unfoldable pub rotate :
      ℕ → AuthStore → String → RotateKeyRequest → AuthStore × Result ClientKeyRecord
  unfolding find_hash
  rotate now store key_hash req =
      rotate_found now store key_hash req.new_key (find_hash key_hash store)

-- The calls that change the store, with the clock's reading.
pub data Op : Type 0 where
  add_key : ℕ → CreateKeyRequest → Op
  update_key : String → UpdateKeyRequest → Op
  rotate_key : ℕ → String → RotateKeyRequest → Op
  delete_key : String → Op

module _ (compute_key_hash : String → String) where
  unfoldable pub apply : AuthStore → Op → AuthStore × Result ClientKeyRecord
  apply store (add_key now req) = add compute_key_hash now store req
  apply store (update_key key_hash req) = update store key_hash req
  apply store (rotate_key now key_hash req) = rotate compute_key_hash now store key_hash req
  apply store (delete_key key_hash) = remove_key store key_hash

  unfoldable pub run : AuthStore → List Op → AuthStore
  run store [] = store
  run store (op ∷ ops) = run (apply store op).0 ops
