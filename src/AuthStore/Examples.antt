-- ===== src/AuthStore/Examples.antt =====
-- A store of two keys, changed by a rotation and a removal.
use llm_proxy.Prelude.{String, ◌≡◌, refl, true, false, none, some, List, [], ◌∷◌, arith}
use llm_proxy.Prelude.{pair_eq, string_eq, nat_eq}
use llm_proxy.Prelude.Assoc.{lookup, insert, remove}
use llm_proxy.AppError.{is_ok}
use llm_proxy.AuthStore.{
  ClientKeyEntry, ClientKeyRecord, public_record, UpdateKeyRequest, AuthStore, validate, find_hash,
  get_by_hash, update, remove_key, from_entry, new, add, rotate, Op, add_key, rotate_key,
  delete_key, apply, run,
}
use llm_proxy.AuthStore.Consistency.{IsConsistent, run-new-IsConsistent}
use llm_proxy.AuthStore.Outcomes.{accepted, apply-is_ok}
use llm_proxy.AuthStore.Revocation.{IsOnlyOne, validate-rotate, validate-revoked}
use Prim.Native.String.{◌++◌}
use text.Mathlib.TextEquality.{eq_iff}

abbrev short_hash : String → String
short_hash s = "h-" ++ s

abbrev initial : List ClientKeyEntry
initial =
    record { key = "sk-a"; tenant_id = "default" }
    ∷ record { key = "sk-b"; tenant_id = "org-b" }
    ∷ []

abbrev record_a : ClientKeyRecord
record_a = record {
  key = "sk-a";
  tenant_id = "default";
  key_hash = "h-sk-a";
  created_at = 5;
  enabled = true;
  label = "";
}

abbrev record_b : ClientKeyRecord
record_b = record record_a { key = "sk-b"; tenant_id = "org-b"; key_hash = "h-sk-b" }

abbrev two_keys : AuthStore
two_keys = ("sk-a", record_a) ∷ ("sk-b", record_b) ∷ []

abbrev calls : List Op
calls =
    rotate_key 9 "h-sk-a" (record { new_key = "sk-c" })
    ∷ delete_key "h-sk-b"
    ∷ add_key 10 (record { key = ""; tenant_id = "default"; label = "" })
    ∷ []

built : new short_hash 5 initial ≡ two_keys
unfolding new from_entry insert
built = refl

after_calls :
    run short_hash two_keys calls
    ≡ ("sk-c", record record_a { key = "sk-c"; key_hash = "h-sk-c"; created_at = 9 }) ∷ []
unfolding run apply add rotate remove_key find_hash lookup insert remove
after_calls = refl

public_hides_key : public_record record_a ≡ record {
  tenant_id = "default";
  key_hash = "h-sk-a";
  created_at = 5;
  enabled = true;
  label = "";
}
unfolding public_record
public_hides_key = refl

found_a : get_by_hash two_keys "h-sk-a" ≡ some record_a
unfolding get_by_hash find_hash
found_a = refl

-- Unlike `add`, `rotate` takes an empty key, which "Bearer " then presents.
rotated_to_empty :
    validate (rotate short_hash 9 two_keys "h-sk-a" (record { new_key = "" })).0 ""
    ≡ some (record { key = ""; tenant_id = "default" })
unfolding validate rotate find_hash lookup insert remove
rotated_to_empty = refl

two_keys-IsConsistent : IsConsistent short_hash two_keys
two_keys-IsConsistent = ((refl, refl), ((refl, refl), tt))

two_keys-IsOnlyOne : IsOnlyOne short_hash "sk-a" two_keys
two_keys-IsOnlyOne = (λ h. refl, (λ h. absurd (ground (arith, eq_iff "h-sk-b" "h-sk-a")), tt))

held_a : lookup "sk-a" two_keys ≡ some record_a
unfolding lookup
held_a = refl

fresh_c : lookup "sk-c" two_keys ≡ none
unfolding lookup
fresh_c = refl

run-new-IsConsistent_example :
    IsConsistent short_hash (run short_hash (new short_hash 5 initial) calls)
    × ((k : String) (e : ClientKeyEntry)
        → validate (run short_hash (new short_hash 5 initial) calls) k ≡ some e
        → e.key ≡ k)
run-new-IsConsistent_example = run-new-IsConsistent short_hash 5 initial calls

apply-is_ok_example :
    (is_ok (apply short_hash two_keys (delete_key "h-sk-z")).1
      ≡ accepted short_hash two_keys (delete_key "h-sk-z"))
    × (is_ok (apply short_hash two_keys (delete_key "h-sk-z")).1 ≡ false
        → (apply short_hash two_keys (delete_key "h-sk-z")).0 ≡ two_keys)
apply-is_ok_example = apply-is_ok short_hash two_keys (delete_key "h-sk-z")

validate-rotate_example :
    validate (rotate short_hash 9 two_keys "h-sk-a" (record { new_key = "sk-c" })).0 "sk-a" ≡ none
validate-rotate_example =
    validate-rotate short_hash two_keys "sk-a" record_a two_keys-IsConsistent two_keys-IsOnlyOne
      held_a 9 "sk-c" "sk-a" fresh_c

validate-revoked_example :
    (validate (remove_key two_keys "h-sk-a").0 "sk-a" ≡ none)
    × ((req : UpdateKeyRequest)
        → req.enabled ≡ some false
        → validate (update two_keys "h-sk-a" req).0 "sk-a" ≡ none)
validate-revoked_example =
    validate-revoked short_hash two_keys "sk-a" record_a two_keys-IsConsistent two_keys-IsOnlyOne
      held_a "sk-a"
