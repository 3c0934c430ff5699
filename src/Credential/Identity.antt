-- ===== src/Credential/Identity.antt =====
-- A refreshed credential keeps its identity, and is one that has not expired.
use llm_proxy.Prelude.{
  ℕ, String, ◌≡◌, refl, sym, ◌∙◌, ◌≢◌, ◌⊎◌, inl, inr, true, false, Option, none, some, Bool-cases,
  Option-cases, get_or, ◌==◌, pair_eq, string_eq, nat_eq,
}
use llm_proxy.Prelude.Assoc.{lookup}
use llm_proxy.AppError.{Result, ok, err}
use llm_proxy.Config.KeyEntry.{KeyEntry, is_oauth, nonempty, identity_secret, identity_hash}
use llm_proxy.Credential.{LiveToken, Tokens, token_expired, apply_live}
use llm_proxy.Credential.{refreshed, refresh_with, from_entry, from_live, ensure_fresh}

module _ (hash : String → String) (hashes : (s : String) → (hash s == "") ≡ false)
    (refresh_token : String → Result LiveToken) where
  apply_live-identity :
      (entry : KeyEntry) (live : LiveToken)
      → identity_hash hash (apply_live hash entry live) ≡ identity_hash hash entry
  unfolding apply_live identity_hash
  apply_live-identity entry live = elim (Option-cases (nonempty entry.identity)) [
    | inl e ↦ rw e (rw (hashes (identity_secret entry)) refl)
    | inr (id, e) ↦ rw e (rw e refl)
  ]

  -- The token of a returned OAuth credential was valid when it was looked at, or the endpoint has
  -- just issued it.
  abbrev pub IsValidToken : ℕ → ℕ → KeyEntry → Type 0
  IsValidToken now later k =
      (x : ℕ) × (k.expires ≡ some x)
      × ((token_expired now x ≡ false)
          ⊎ (token_expired later x ≡ false)
          ⊎ ((token : String) × (live : LiveToken) × (refresh_token token ≡ ok live)
              × (k.key ≡ live.access)))

  -- What a returned credential has of the entry, and its token.
  abbrev pub Returned : ℕ → ℕ → KeyEntry → Result KeyEntry → Type 0
  Returned now later entry (ok k) =
      (identity_hash hash k ≡ identity_hash hash entry)
      × (k.weight ≡ entry.weight)
      × ((is_oauth entry ≡ true) → IsValidToken now later k)
  Returned now later entry (err e) = Unit {0}

  module _ (tokens : Tokens) (now later : ℕ) (entry : KeyEntry) where
    refreshed-Returned :
        (token : String) (r : Result LiveToken)
        → refresh_token token ≡ r
        → Returned now later entry (refreshed hash refresh_token tokens entry r).1
    unfolding apply_live
    refreshed-Returned token (err e) q = tt
    refreshed-Returned token (ok live) q = (
      apply_live-identity entry live,
      refl,
      λ _. (live.expires, refl, inr (inr (token, live, q, refl))),
    )

    refresh_with-Returned :
        (o : Option String)
        → Returned now later entry (refresh_with hash refresh_token tokens entry o).1
    refresh_with-Returned none = tt
    refresh_with-Returned (some token) = elim (Bool-cases (get_or entry.issuer "" == "xai")) [
      | inl e ↦ rw e (refreshed-Returned token (refresh_token token) refl)
      | inr e ↦ rw e tt
    ]

    from_entry-Returned :
        (o : Option ℕ)
        → entry.expires ≡ o
        → Returned now later entry (from_entry hash refresh_token tokens later entry o).1
    from_entry-Returned none q = refresh_with-Returned (nonempty entry.refresh)
    from_entry-Returned (some x) q = elim (Bool-cases (token_expired later x)) [
      | inl e ↦ rw e (refresh_with-Returned (nonempty entry.refresh))
      | inr e ↦ rw e (refl, refl, λ _. (x, q, inr (inl e)))
    ]

    from_live-Returned :
        (o : Option LiveToken)
        → Returned now later entry (from_live hash refresh_token tokens now later entry o).1
    unfolding apply_live
    from_live-Returned none = from_entry-Returned entry.expires refl
    from_live-Returned (some live) = elim (Bool-cases (token_expired now live.expires)) [
      | inl e ↦ rw e (from_entry-Returned entry.expires refl)
      | inr e ↦ rw e (apply_live-identity entry live, refl, λ _. (live.expires, refl, inl e))
    ]

    -- While the hash is never empty, every credential that `ensure_fresh` returns has the identity
    -- hash and the weight of its entry, and the token of an OAuth credential was valid at one of
    -- the two readings of the clock, or the endpoint has just issued it.
    pub ensure_fresh-Returned :
        Returned now later entry (ensure_fresh hash refresh_token tokens now later entry).1
    unfolding ensure_fresh
    ensure_fresh-Returned = elim (Bool-cases (is_oauth entry)) [
      | inl e ↦ rw e (from_live-Returned (lookup (identity_hash hash entry) tokens))
      | inr e ↦ rw e (refl, refl, λ h. absurd (true≢false (sym h ∙ e)))
    ]
      where
        true≢false : true ≢ false
        true≢false h = cc
