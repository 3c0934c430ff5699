-- ===== src/PromptCache/Key.antt =====
-- src/cache/mod.rs, `cache_key`: what of a request the key covers. The UTF-8 bytes of a text, the
-- JSON of a value, the text of a float, SHA-256 and the two hexadecimal digits of a byte are
-- parameters.
mod Examples
use llm_proxy.Prelude.{
  ℕ, String, ◌≡◌, refl, sym, ◌≢◌, true, false, Option, none, some, List, [], ◌∷◌, ◌++◌, map, arith,
  get_or, take, any, ◌==◌, pair_eq, string_eq, nat_eq,
}
use llm_proxy.Prelude.Text.{join}
use llm_proxy.Json.{Value, null, field}
use llm_proxy.Provider.{Message, ChatCompletionRequest}

pub record Encoding (N F : Type 0) : Type 0 where
  pub utf8 : String → List ℕ
  pub to_vec : Value N → List ℕ
  pub float_text : F → String
  pub sha256 : List ℕ → List ℕ
  pub hex : ℕ → String

-- The field separator.
abbrev separator : ℕ
separator = 0xff

abbrev HasNoSeparator : List ℕ → Type 0
HasNoSeparator bs = any (λ b. b == separator) bs ≡ false

-- `hasher.update(field)`, `hasher.update([0xff])`.
abbrev field_bytes : List ℕ → List ℕ → List ℕ
field_bytes bs rest = bs ++ separator ∷ rest

-- The bytes of a text and of a JSON value in UTF-8 have no byte 0xff, and distinct texts have
-- distinct bytes.
pub record IsUtf8 {N F : Type 0} (e : Encoding N F) : Type 0 where
  pub texts : (s : String) → HasNoSeparator (e.utf8 s)
  pub values : (v : Value N) → HasNoSeparator (e.to_vec v)
  pub distinct : (a b : String) → e.utf8 a ≡ e.utf8 b → a ≡ b

module _ {N F : Type 0} (e : Encoding N F) where
  abbrev message_bytes : {T : Type 0} → List (Message N T) → List ℕ → List ℕ
  message_bytes [] rest = rest
  message_bytes (m ∷ ms) rest =
      field_bytes (e.utf8 m.role) (field_bytes (e.to_vec m.content) (message_bytes ms rest))

  abbrev pub temperature_text : Option F → String
  temperature_text none = ""
  temperature_text (some t) = e.float_text t

  abbrev pub tools_json : {T : Type 0} → ChatCompletionRequest N F T → List ℕ
  tools_json req = e.to_vec (get_or req.tools null)

  -- What is fed to the hasher.
  unfoldable pub key_bytes : {T : Type 0} → ChatCompletionRequest N F T → List ℕ
  key_bytes req = field_bytes (e.utf8 req.model) (
      message_bytes req.messages
        (separator ∷ field_bytes (e.utf8 (temperature_text req.temperature)) (tools_json req)))

  -- The first six bytes of the digest in hexadecimal.
  abbrev pub cache_key : {T : Type 0} → ChatCompletionRequest N F T → String
  cache_key req = join "" (map e.hex (take 6 (e.sha256 (key_bytes req))))

  -- What the key covers of a message.
  abbrev pub covered : {T : Type 0} → Message N T → String × List ℕ
  covered m = (m.role, e.to_vec m.content)

-- The first field and what follows it are determined.
cut :
    (a b x y : List ℕ)
    → HasNoSeparator a
    → HasNoSeparator b
    → a ++ separator ∷ x ≡ b ++ separator ∷ y
    → (a ≡ b) × (x ≡ y)
cut [] [] x y p q h = (refl, cc)
cut [] (c ∷ b) x y p q h = ground (arith, h)
cut (c ∷ a) [] x y p q h = ground (arith, h)
cut (c ∷ a) (d ∷ b) x y p q h =
    let head : c ≡ d = cc in
    let tail : a ++ separator ∷ x ≡ b ++ separator ∷ y = cc in
    let (first, rest) = cut a b x y (ground (arith, p)) (ground (arith, q)) tail in (cc, rest)

has_one : (a x : List ℕ) → any (λ b. b == separator) (a ++ separator ∷ x) ≡ true
has_one [] x = ground arith
has_one (c ∷ a) x = ground (arith, has_one a x)

module _ {N F T : Type 0} (e : Encoding N F) (utf8 : IsUtf8 e) where
  ended :
      (ms : List (Message N T)) (t : List ℕ)
      → any (λ b. b == separator) (message_bytes e ms (separator ∷ t)) ≡ true
  ended [] t = ground arith
  ended (m ∷ ms) t = has_one (e.utf8 m.role) _

  -- Two fields without a separator are no message with what follows it.
  no_message :
      (m : Message N T) (ms : List (Message N T)) (u v t : List ℕ)
      → HasNoSeparator u
      → HasNoSeparator v
      → separator ∷ field_bytes u v ≢ message_bytes e (m ∷ ms) (separator ∷ t)
  no_message m ms u v t p q h =
      let (empty, rest) = cut [] (e.utf8 m.role) _ _ refl (utf8.texts m.role) h in
      let (content, more) = cut u (e.to_vec m.content) v _ p (utf8.values m.content) rest in
      let found = ended ms t in cc

  same_messages :
      (ms ms' : List (Message N T)) (u v u' v' : List ℕ)
      → HasNoSeparator u
      → HasNoSeparator v
      → HasNoSeparator u'
      → HasNoSeparator v'
      → message_bytes e ms (separator ∷ field_bytes u v)
        ≡ message_bytes e ms' (separator ∷ field_bytes u' v')
      → (map (covered e) ms ≡ map (covered e) ms') × (u ≡ u') × (v ≡ v')
  same_messages [] [] u v u' v' p q p' q' h = let (a, b) = cut u u' v v' p p' cc in (refl, a, b)
  same_messages [] (m ∷ ms) u v u' v' p q p' q' h =
      absurd (no_message m ms u v (field_bytes u' v') p q h)
  same_messages (m ∷ ms) [] u v u' v' p q p' q' h =
      absurd (no_message m ms u' v' (field_bytes u v) p' q' (sym h))
  same_messages (m ∷ ms) (m' ∷ ms') u v u' v' p q p' q' h =
      let (role, x) =
        cut (e.utf8 m.role) (e.utf8 m'.role) _ _ (utf8.texts m.role) (utf8.texts m'.role) h in
      let (content, y) =
        cut (e.to_vec m.content) (e.to_vec m'.content) _ _ (utf8.values m.content)
          (utf8.values m'.content) x in
      let (rest, a, b) = same_messages ms ms' u v u' v' p q p' q' y in
      let name = utf8.distinct m.role m'.role role in (rw (name, content, rest) refl, a, b)

  -- Two requests that feed the hasher the same bytes have the same model, as many messages, with
  -- the same roles and the same JSON of their contents, the same text of the temperature and the
  -- same JSON of the tools: only a collision of the digest mixes requests that differ in these.
  pub key_bytes-covers :
      (req req' : ChatCompletionRequest N F T)
      → key_bytes e req ≡ key_bytes e req'
      → (req.model ≡ req'.model)
        × (map (covered e) req.messages ≡ map (covered e) req'.messages)
        × (temperature_text e req.temperature ≡ temperature_text e req'.temperature)
        × (tools_json e req ≡ tools_json e req')
  unfolding key_bytes
  key_bytes-covers req req' h =
      let (model, x) =
        cut (e.utf8 req.model) (e.utf8 req'.model) _ _ (utf8.texts req.model)
          (utf8.texts req'.model) h in
      let (messages, t, tools) =
        same_messages req.messages req'.messages _ _ _ _ (utf8.texts _) (utf8.values _)
          (utf8.texts _) (utf8.values _) x in
      (utf8.distinct req.model req'.model model, messages, utf8.distinct _ _ t, tools)
