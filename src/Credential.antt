-- ===== src/Credential.antt =====
-- src/credential/mod.rs: the cache of OAuth tokens. Calls for one identity are serialised by a
-- lock; the clock is read up to twice in a call. The token endpoint (`xai::refresh_token`) is a
-- parameter, and the write of a rotated token to the database is not part of the state.
pub mod Identity
mod Examples
use llm_proxy.Prelude.{
  ℕ, String, Bool, true, not, Option, none, some, leb, if◌then◌else◌, get_or, is_some, ◌==◌,
  pair_eq, string_eq, nat_eq,
}
use llm_proxy.Prelude.Assoc.{Map, lookup, insert}
use llm_proxy.AppError.{AppError, config, upstream, Result, ok, err}
use llm_proxy.Config.KeyEntry.{KeyEntry, is_oauth, nonempty, identity_hash}
use Prim.Native.String.{◌++◌}

pub record LiveToken : Type 0 where
  pub access : String
  pub refresh : String
  pub expires : ℕ

-- `CredentialRuntime::tokens`, by identity hash
abbrev pub Tokens : Type 0
Tokens = Map String LiveToken

abbrev pub token_expired : ℕ → ℕ → Bool
token_expired now_ms expires_ms = leb expires_ms now_ms

module _ (compute_key_hash : String → String) where
  -- `identity` is kept unless it is absent or empty.
  unfoldable pub apply_live : KeyEntry → LiveToken → KeyEntry
  apply_live entry live = record entry {
    key = live.access;
    refresh = some live.refresh;
    expires = some live.expires;
    identity =
        if is_some (nonempty entry.identity)
        then entry.identity
        else some (identity_hash compute_key_hash entry);
  }

  module _ (refresh_token : String → Result LiveToken) where
    abbrev missing_refresh : AppError
    missing_refresh = upstream (some 401) true true "oauth credential is missing a refresh token"

    abbrev refreshed : Tokens → KeyEntry → Result LiveToken → Tokens × Result KeyEntry
    refreshed tokens entry (err e) = (tokens, err e)
    refreshed tokens entry (ok live) =
        (insert (identity_hash compute_key_hash entry) live tokens, ok (apply_live entry live))

    abbrev refresh_with : Tokens → KeyEntry → Option String → Tokens × Result KeyEntry
    refresh_with tokens entry none = (tokens, err missing_refresh)
    refresh_with tokens entry (some refresh) =
        let issuer = get_or entry.issuer "" in
        if issuer == "xai"
        then refreshed tokens entry (refresh_token refresh)
        else (tokens, err (config ("unsupported oauth issuer '" ++ issuer ++ "'")))

    -- The entry's own token is still valid: it is cached, if it has a refresh token.
    abbrev keep_entry : Tokens → KeyEntry → ℕ → Option String → Tokens
    keep_entry tokens entry expires none = tokens
    keep_entry tokens entry expires (some refresh) =
        insert (identity_hash compute_key_hash entry)
          (record { access = entry.key; refresh = refresh; expires = expires }) tokens

    abbrev from_entry : Tokens → ℕ → KeyEntry → Option ℕ → Tokens × Result KeyEntry
    from_entry tokens now entry none = refresh_with tokens entry (nonempty entry.refresh)
    from_entry tokens now entry (some expires) =
        if token_expired now expires
        then refresh_with tokens entry (nonempty entry.refresh)
        else (keep_entry tokens entry expires entry.refresh, ok entry)

    abbrev from_live : Tokens → ℕ → ℕ → KeyEntry → Option LiveToken → Tokens × Result KeyEntry
    from_live tokens now later entry none = from_entry tokens later entry entry.expires
    from_live tokens now later entry (some live) =
        if token_expired now live.expires
        then from_entry tokens later entry entry.expires
        else (tokens, ok (apply_live entry live))

    unfoldable pub ensure_fresh : Tokens → ℕ → ℕ → KeyEntry → Tokens × Result KeyEntry
    ensure_fresh tokens now later entry =
        if is_oauth entry
        then from_live tokens now later entry (lookup (identity_hash compute_key_hash entry) tokens)
        else (tokens, ok entry)
