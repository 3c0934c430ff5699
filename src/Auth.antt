-- ===== src/Auth.antt =====
-- src/auth/mod.rs, src/auth_store.rs and src/server/middleware.rs: the checks in front of the
-- handlers. A check returns what the next handler gets, or the response that is sent instead; the
-- headers are those of `http`, looked up by name.
pub mod Access
mod Examples
use llm_proxy.Prelude.{String, Bool, true, Option, none, some, List, any, find, ◌==◌}
use llm_proxy.Prelude.{pair_eq, string_eq, nat_eq}
use llm_proxy.Prelude.Assoc.{Map, lookup}
use llm_proxy.Prelude.Text.{strip_prefix}
use llm_proxy.AppError.{AppError, auth, Result, ok, err}
use llm_proxy.AuthStore.{ClientKeyEntry, AuthStore, validate, missing}

-- `HeaderValue`, with its text where `to_str` succeeds.
pub data HeaderValue : Type 0 where
  text : String → HeaderValue
  opaque : HeaderValue

abbrev pub Headers : Type 0
Headers = Map String HeaderValue

abbrev to_str : HeaderValue → Option String
to_str (text s) = some s
to_str opaque = none

abbrev and_then {ℓ κ} : {A : Type ℓ} {B : Type κ} → Option A → (A → Option B) → Option B
and_then none f = none
and_then (some a) f = f a

-- What follows "Bearer " in the authorization header.
unfoldable pub bearer : Headers → Option String
bearer headers =
    and_then (and_then (lookup "authorization" headers) to_str) (strip_prefix "Bearer ")

pub record AuthedClient : Type 0 where
  pub key_hash : String
  pub tenant_id : String

-- `AuthState`
pub record AuthState : Type 0 where
  pub entries : List ClientKeyEntry
  pub store : Option AuthStore

-- The store decides if there is one, and else the entries of the configuration.
unfoldable pub known : AuthState → String → Option ClientKeyEntry
known state key = elim state.store [
  | none ↦ find (λ e. e.key == key) state.entries
  | some store ↦ validate store key
]

abbrev pub refused : AppError
refused = auth "Invalid or missing API key"

module _ (compute_key_hash : String → String) where
  abbrev authed : String → Option ClientKeyEntry → Result AuthedClient
  authed key none = err refused
  authed key (some entry) =
      ok (record { key_hash = compute_key_hash key; tenant_id = entry.tenant_id })

  abbrev with_key : (String → Option ClientKeyEntry) → Option String → Result AuthedClient
  with_key valid none = err refused
  with_key valid (some key) = authed key (valid key)

  unfoldable pub require_auth : AuthState → Headers → Result AuthedClient
  unfolding bearer known
  require_auth state headers = with_key (known state) (bearer headers)

  -- The same check on a store alone.
  unfoldable pub auth_store_middleware : AuthStore → Headers → Result AuthedClient
  unfolding bearer
  auth_store_middleware store headers = with_key (validate store) (bearer headers)

abbrev or_else {ℓ} : {A : Type ℓ} → Option A → Option A → Option A
or_else none o = o
or_else (some a) o = some a

abbrev listed : List String → Option String → Bool
listed allowed_ips none = true
listed allowed_ips (some ip) = any (λ a. a == ip) allowed_ips

-- Whether the request goes on; otherwise the answer is a 404 with an empty body.
unfoldable pub ip_guard : Headers → List String → Bool
ip_guard headers allowed_ips =
    listed allowed_ips
      (and_then (or_else (lookup "x-real-ip" headers) (lookup "x-forwarded-for" headers)) to_str)
