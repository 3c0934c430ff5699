-- ===== src/Config/KeyEntry.antt =====
-- src/config/mod.rs: upstream keys and pools. An expiry counts milliseconds since 1970 (an `i64`).
-- `db::compute_key_hash` (SHA-256) is a parameter.
use llm_proxy.Prelude.{
  ℕ, String, Bool, true, false, Option, none, some, List, if◌then◌else◌, get_or, ◌==◌, pair_eq,
  string_eq, nat_eq,
}

-- `CredentialType`
pub data CredentialType : Type 0 where
  api_key oauth : CredentialType

pub record KeyEntry : Type 0 where
  pub key : String
  pub weight : ℕ
  pub cred_type : CredentialType
  pub refresh : Option String
  pub expires : Option ℕ
  pub issuer : Option String
  pub identity : Option String

pub record PoolConfig : Type 0 where
  pub keys : List KeyEntry

unfoldable pub new_api_key : String → ℕ → KeyEntry
new_api_key key weight = record {
  key = key;
  weight = weight;
  cred_type = api_key;
  refresh = none;
  expires = none;
  issuer = none;
  identity = none;
}

unfoldable pub new_oauth : String → String → String → ℕ → Option ℕ → KeyEntry
new_oauth access refresh issuer weight expires = record {
  key = access;
  weight = weight;
  cred_type = oauth;
  refresh = some refresh;
  expires = expires;
  issuer = some issuer;
  identity = none;
}

abbrev is_oauth_type : CredentialType → Bool
is_oauth_type api_key = false
is_oauth_type oauth = true

abbrev pub is_oauth : KeyEntry → Bool
is_oauth k = is_oauth_type k.cred_type

abbrev pub cred_type_str : CredentialType → String
cred_type_str api_key = "api_key"
cred_type_str oauth = "oauth"

-- `.as_deref().filter(|s| !s.is_empty())`
abbrev pub nonempty : Option String → Option String
nonempty none = none
nonempty (some s) = if s == "" then none else some s

unfoldable pub identity_secret : KeyEntry → String
identity_secret k = if is_oauth k then get_or (nonempty k.refresh) k.key else k.key

module _ (compute_key_hash : String → String) where
  abbrev identity_or : Option String → KeyEntry → String
  identity_or none k = compute_key_hash (identity_secret k)
  identity_or (some id) k = id

  unfoldable pub identity_hash : KeyEntry → String
  identity_hash k = identity_or (nonempty k.identity) k
