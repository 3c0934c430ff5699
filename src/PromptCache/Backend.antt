-- ===== src/PromptCache/Backend.antt =====
-- src/cache/mod.rs, `backend`: the in-memory `CacheBackend`. Values are bytes, `V`; each entry
-- keeps its own time to live, in whole seconds.
use llm_proxy.Prelude.{
  ℕ, ◌-◌, ◌/◌, String, ◌≡◌, refl, inl, inr, Bool, not, ◌&&◌, Option, none, some, arith, ltb, leb,
  if◌then◌else◌, Bool-cases, is_some, ◌==◌, pair_eq, string_eq, nat_eq,
}
use llm_proxy.Prelude.Assoc.{Map, lookup, insert, remove, lookup-insert, lookup-remove}

abbrev pub MemoryBackend : Type 0 → Type 0
MemoryBackend V = Map String (V × ℕ × ℕ)

-- `created.elapsed().as_secs() > ttl`
abbrev expired : ℕ → ℕ → ℕ → Bool
expired now created ttl = ltb ttl ((now - created) / 1_000_000_000)

module _ {V : Type 0} where
  abbrev get_stored : MemoryBackend V → ℕ → String → Option (V × ℕ × ℕ) → MemoryBackend V × Option V
  get_stored store now key none = (store, none)
  get_stored store now key (some (data_, created, ttl)) =
      if expired now created ttl then (remove key store, none) else (store, some data_)

  unfoldable pub get : MemoryBackend V → ℕ → String → MemoryBackend V × Option V
  get store now key = get_stored store now key (lookup key store)

  unfoldable pub set : MemoryBackend V → ℕ → String → V → ℕ → MemoryBackend V
  set store now key value ttl_secs = insert key (value, now, ttl_secs) store

  unfoldable pub delete : MemoryBackend V → String → MemoryBackend V
  delete store key = remove key store

  unfoldable pub exists : MemoryBackend V → String → Bool
  exists store key = is_some (lookup key store)

  get_stored-value :
      (store store' : MemoryBackend V) (now : ℕ) (key : String) (o : Option (V × ℕ × ℕ))
      → (get_stored store now key o).1 ≡ (get_stored store' now key o).1
  get_stored-value store store' now key none = refl
  get_stored-value store store' now key (some (value, created, ttl)) =
      elim (Bool-cases (expired now created ttl)) [ inl e ↦ rw e refl | inr e ↦ rw e refl ]

  -- A value that was set is read back under its key while at most `ttl_secs` whole seconds have
  -- passed, and no other key's value changes.
  pub get-set :
      (store : MemoryBackend V) (set_at now : ℕ) (key other : String) (value : V) (ttl_secs : ℕ)
      → (get (set store set_at key value ttl_secs) now other).1 ≡ (
          if key == other
          then if leb ((now - set_at) / 1_000_000_000) ttl_secs then some value else none
          else (get store now other).1)
  unfolding get set
  get-set store set_at now key other value ttl_secs = elim (Bool-cases (key == other)) [
    | inl e ↦
        rw (lookup-insert, e)
          (elim (Bool-cases (expired now set_at ttl_secs)) [
            | inl x ↦ rw x (ground arith)
            | inr x ↦ rw x (ground arith)
          ])
    | inr e ↦ rw (lookup-insert, e) (get_stored-value _ store now other _)
  ]

  -- A deleted key is neither found nor reported to exist, and `delete` leaves every other key.
  pub get-delete :
      (store : MemoryBackend V) (now : ℕ) (key other : String)
      → ((get (delete store key) now other).1
          ≡ (if key == other then none else (get store now other).1))
        × (exists (delete store key) other ≡ (not (key == other) && exists store other))
  unfolding get delete exists
  get-delete store now key other = elim (Bool-cases (key == other)) [
    | inl e ↦ rw (lookup-remove, e) (refl, refl)
    | inr e ↦ rw (lookup-remove, e) (get_stored-value _ store now other _, refl)
  ]
