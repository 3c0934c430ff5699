-- ===== src/Auth/Examples.antt =====
-- A client of the configuration's entries, and requests that are refused.
use llm_proxy.Prelude.{
  String, ◌≡◌, refl, ◌↔◌, ◌⊎◌, true, false, none, some, [], ◌∷◌, pair_eq, string_eq, nat_eq,
}
use llm_proxy.Prelude.Assoc.{lookup}
use llm_proxy.AppError.{ok, err, into_response}
use llm_proxy.AuthStore.{validate}
use llm_proxy.Auth.{
  text, Headers, bearer, AuthedClient, AuthState, known, refused, require_auth,
  auth_store_middleware, ip_guard,
}
use llm_proxy.Auth.Access.{Admits, require_auth-Admits}
use Prim.Native.String.{◌++◌}

abbrev short_hash : String → String
short_hash s = "h-" ++ s

abbrev state : AuthState
state = record { entries = record { key = "sk-a"; tenant_id = "org" } ∷ []; store = none }

abbrev signed : Headers
signed = ("authorization", text "Bearer sk-a") ∷ []

accepted_client :
    require_auth short_hash state signed ≡ ok (record { key_hash = "h-sk-a"; tenant_id = "org" })
unfolding require_auth bearer known lookup
accepted_client = refl

wrong_scheme :
    require_auth short_hash state (("authorization", text "bearer sk-a") ∷ []) ≡ err refused
unfolding require_auth bearer known lookup
wrong_scheme = refl

store_first : auth_store_middleware short_hash [] signed ≡ err refused
unfolding auth_store_middleware bearer validate lookup
store_first = refl

blocked : ip_guard (("x-real-ip", text "10.0.0.9") ∷ []) ("10.0.0.1" ∷ []) ≡ false
unfolding ip_guard lookup
blocked = refl

unnamed : ip_guard signed ("10.0.0.1" ∷ []) ≡ true
unfolding ip_guard lookup
unnamed = refl

-- The key is in the configuration, but not in the store.
abbrev with_store : AuthState
with_store = record state { store = some [] }

store_refuses : require_auth short_hash with_store signed ≡ err refused
unfolding require_auth bearer known validate lookup
store_refuses = refl

require_auth-Admits_example :
    ((require_auth short_hash state signed ≡ ok (record { key_hash = "h-sk-a"; tenant_id = "org" }))
      ↔ Admits short_hash state signed (record { key_hash = "h-sk-a"; tenant_id = "org" }))
    × (((c : AuthedClient) × (require_auth short_hash state signed ≡ ok c))
        ⊎ (require_auth short_hash state signed ≡ err refused))
    × ((into_response refused).code ≡ 401)
require_auth-Admits_example =
    require_auth-Admits short_hash state signed (record { key_hash = "h-sk-a"; tenant_id = "org" })
