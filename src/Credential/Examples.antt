-- ===== src/Credential/Examples.antt =====
-- An OAuth entry whose own token has expired, refreshed by the endpoint.
use llm_proxy.Prelude.{String, ◌≡◌, refl, false, some, [], ◌∷◌, ◌==◌, pair_eq, string_eq, nat_eq}
use llm_proxy.Prelude.Assoc.{lookup, insert}
use llm_proxy.AppError.{Result, ok}
use llm_proxy.Config.KeyEntry.{KeyEntry, new_oauth, identity_secret, identity_hash}
use llm_proxy.Credential.{LiveToken, apply_live}
use llm_proxy.Credential.Identity.{Returned, ensure_fresh-Returned}
use llm_proxy.Credential.{ensure_fresh}

abbrev short_hash : String → String
short_hash s = "h"

short_hash-nonempty : (s : String) → (short_hash s == "") ≡ false
short_hash-nonempty s = refl

abbrev issue : String → Result LiveToken
issue token = ok (record { access = "new"; refresh = "r2"; expires = 500 })

abbrev entry : KeyEntry
entry = new_oauth "old" "r1" "xai" 3 (some 90)

-- The new token is cached under the entry's identity and used while it is valid.
rotated : ensure_fresh short_hash issue [] 100 100 entry ≡ (
  ("h", record { access = "new"; refresh = "r2"; expires = 500 }) ∷ [],
  ok (record entry { key = "new"; refresh = some "r2"; expires = some 500; identity = some "h" }),
)
unfolding ensure_fresh apply_live identity_hash identity_secret new_oauth lookup insert
rotated = refl

ensure_fresh-Returned_example :
    Returned short_hash short_hash-nonempty issue 100 100 entry
      (ensure_fresh short_hash issue [] 100 100 entry).1
ensure_fresh-Returned_example =
    ensure_fresh-Returned short_hash short_hash-nonempty issue [] 100 100 entry
