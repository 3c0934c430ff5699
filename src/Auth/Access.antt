-- ===== src/Auth/Access.antt =====
-- Who passes the checks.
use llm_proxy.Prelude.{
  String, ◌≡◌, refl, sym, ap, ◌∙◌, subst, ◌↔◌, ◌⊎◌, inl, inr, true, Option, none, some, List, arith,
  find, ◌==◌, pair_eq, string_eq, nat_eq,
}
use llm_proxy.Prelude.Assoc.{lookup}
use llm_proxy.Prelude.Text.{strip_prefix, strip_prefix-append, strip_prefix_self}
use llm_proxy.AppError.{ok, err, into_response}
use llm_proxy.AuthStore.{ClientKeyEntry, AuthStore, validate}
use llm_proxy.Auth.{
  HeaderValue, text, opaque, Headers, to_str, and_then, bearer, AuthedClient, AuthState, known,
  refused, authed, with_key, require_auth, ip_guard,
}
use Prim.Native.String.{◌++◌}

module _ (compute_key_hash : String → String) where
  -- The requests that `valid` lets through: those whose authorization header is a text that is
  -- "Bearer " and then a key it knows.
  abbrev Presents : (String → Option ClientKeyEntry) → Headers → AuthedClient → Type 0
  Presents valid headers client =
      (key : String) × (entry : ClientKeyEntry) × (lookup "authorization" headers
        ≡ some (text ("Bearer " ++ key)))
      × (valid key ≡ some entry)
      × (client ≡ record { key_hash = compute_key_hash key; tenant_id = entry.tenant_id })

  read_iff :
      (o : Option HeaderValue) (key : String)
      → (and_then (and_then o to_str) (strip_prefix "Bearer ") ≡ some key)
        ↔ (o ≡ some (text ("Bearer " ++ key)))
  read_iff none key = (λ h. absurd (ground arith), λ h. absurd (ground arith))
  read_iff (some opaque) key = (λ h. absurd (ground arith), λ h. absurd (ground arith))
  read_iff (some (text s)) key = (
    λ h. ap (λ x. some (text x)) (strip_prefix-append "Bearer " s key h),
    λ h.
        let t : s ≡ "Bearer " ++ key = ground arith in
        ap (strip_prefix "Bearer ") t ∙ strip_prefix_self "Bearer " key,
  )

  bearer_iff :
      (headers : Headers) (key : String)
      → (bearer headers ≡ some key)
        ↔ (lookup "authorization" headers ≡ some (text ("Bearer " ++ key)))
  unfolding bearer
  bearer_iff headers key = read_iff (lookup "authorization" headers) key

  authed_iff :
      (key : String) (o : Option ClientKeyEntry) (client : AuthedClient)
      → (authed compute_key_hash key o ≡ ok client) ↔ (
          (entry : ClientKeyEntry) × (o ≡ some entry)
          × (client ≡ record { key_hash = compute_key_hash key; tenant_id = entry.tenant_id }))
  authed_iff key none client = (λ h. absurd (ground arith), λ (e, t, c). absurd (ground arith))
  authed_iff key (some entry) client = (
    λ h. (entry, refl, ground arith),
    λ (e, t, c). ap (λ x. authed compute_key_hash key x) t ∙ ap (λ x. ok x) (sym c),
  )

  with_key-Presents :
      (valid : String → Option ClientKeyEntry) (headers : Headers) (client : AuthedClient)
      (o : Option String)
      → bearer headers ≡ o
      → (with_key compute_key_hash valid o ≡ ok client) ↔ Presents valid headers client
  with_key-Presents valid headers client none b = (
    λ h. absurd (ground arith),
    λ (key, entry, h, v, c). absurd (ground (arith, bearer_iff headers key)),
  )
  with_key-Presents valid headers client (some key) b = (
    λ h.
        let (entry, v, c) = (authed_iff key (valid key) client).0 h in
        (key, entry, (bearer_iff headers key).0 b, v, c),
    λ (j, entry, h, v, c).
        let t : j ≡ key = ground (arith, bearer_iff headers j) in
        (authed_iff key (valid key) client).1 (
          entry,
          subst (λ x. valid x ≡ some entry) t v,
          c ∙ ap (λ x. record { key_hash = compute_key_hash x; tenant_id = entry.tenant_id }) t,
        ),
  )

  -- The store is the only authority where there is one; else the first entry of the configuration
  -- with the key counts.
  abbrev pub IsKnown : AuthState → String → ClientKeyEntry → Type 0
  IsKnown state key entry =
      ((store : AuthStore) × (state.store ≡ some store) × (validate store key ≡ some entry))
      ⊎ ((state.store ≡ none) × (find (λ e. e.key == key) state.entries ≡ some entry))

  known_by :
      (entries : List ClientKeyEntry) (store : Option AuthStore) (key : String)
      (entry : ClientKeyEntry)
      → let state : AuthState = record { entries = entries; store = store } in
        (known state key ≡ some entry) ↔ IsKnown state key entry
  unfolding known
  known_by entries none key entry = (
    λ h. inr (refl, h),
    λ k. elim k [ inl (store, e, v) ↦ absurd (ground arith) | inr (e, v) ↦ v ],
  )
  known_by entries (some store) key entry = (
    λ h. inl (store, refl, h),
    λ k. elim k [ inl (store', e, v) ↦ cc | inr (e, v) ↦ absurd (ground arith) ],
  )

  known_iff :
      (state : AuthState) (key : String) (entry : ClientKeyEntry)
      → (known state key ≡ some entry) ↔ IsKnown state key entry
  known_iff state key entry = known_by state.entries state.store key entry

  -- Who comes through.
  abbrev pub Admits : AuthState → Headers → AuthedClient → Type 0
  Admits state headers client =
      (key : String) × (entry : ClientKeyEntry) × (lookup "authorization" headers
        ≡ some (text ("Bearer " ++ key)))
      × IsKnown state key entry
      × (client ≡ record { key_hash = compute_key_hash key; tenant_id = entry.tenant_id })

  decided_by :
      (o : Option ClientKeyEntry) (key : String)
      → ((client : AuthedClient) × (authed compute_key_hash key o ≡ ok client))
        ⊎ (authed compute_key_hash key o ≡ err refused)
  decided_by none key = inr refl
  decided_by (some entry) key =
      inl (record { key_hash = compute_key_hash key; tenant_id = entry.tenant_id }, refl)

  key_decides :
      (valid : String → Option ClientKeyEntry) (o : Option String)
      → ((client : AuthedClient) × (with_key compute_key_hash valid o ≡ ok client))
        ⊎ (with_key compute_key_hash valid o ≡ err refused)
  key_decides valid none = inr refl
  key_decides valid (some key) = decided_by (valid key) key

  -- `require_auth` lets a request through exactly if its authorization header is "Bearer " and a
  -- key that the store accepts, if there is a store, or that is among the configuration's entries,
  -- if there is none, and then names the client by that key's hash and the tenant of its entry. A
  -- request that is not let through is answered with the error 401.
  pub require_auth-Admits :
      (state : AuthState) (headers : Headers) (client : AuthedClient)
      → ((require_auth compute_key_hash state headers ≡ ok client) ↔ Admits state headers client)
        × (((c : AuthedClient) × (require_auth compute_key_hash state headers ≡ ok c))
            ⊎ (require_auth compute_key_hash state headers ≡ err refused))
        × ((into_response refused).code ≡ 401)
  unfolding require_auth into_response
  require_auth-Admits state headers client =
      let (there, back) = with_key-Presents (known state) headers client (bearer headers) refl in
      (
        (
          λ h.
              let (key, entry, l, v, c) = there h in
              (key, entry, l, (known_iff state key entry).0 v, c),
          λ (key, entry, l, k, c). back (key, entry, l, (known_iff state key entry).1 k, c),
        ),
        key_decides (known state) (bearer headers),
        refl,
      )

-- A request with neither address header passes the guard, whatever is allowed.
ip_guard_unnamed :
    (headers : Headers) (allowed_ips : List String)
    → lookup "x-real-ip" headers ≡ none
    → lookup "x-forwarded-for" headers ≡ none
    → ip_guard headers allowed_ips ≡ true
unfolding ip_guard
ip_guard_unnamed headers allowed_ips a b = rw (a, b) refl
