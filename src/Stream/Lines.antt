-- ===== src/Stream/Lines.antt =====
-- `feed_bytes` of both relays: the bytes are cut into lines, one call at a time. The frames of a
-- stream do depend on how its bytes were cut into chunks, since they are sent in between.
use llm_proxy.Prelude.{
  ℕ, zero, suc, ◌+◌, ◌<◌, String, ◌≡◌, refl, sym, ap, ◌∙◌, subst, inl, inr, true, false, Option,
  none, some, List, [], ◌∷◌, ◌++◌, append_assoc, append-nil, arith, if◌then◌else◌, Bool-cases,
  length, any, length-append, any-append, ◌==◌, pair_eq, string_eq, nat_eq,
}
use llm_proxy.Stream.{Relay, RelayState}

-- `position` of the newline, and what stands before and after it.
abbrev cons_line : ℕ → Option (List ℕ × List ℕ) → Option (List ℕ × List ℕ)
cons_line b none = none
cons_line b (some (line, rest)) = some (b ∷ line, rest)

abbrev split_line : List ℕ → Option (List ℕ × List ℕ)
split_line [] = none
split_line (b ∷ bs) =
    let found = split_line bs in if b == 10 then some ([], bs) else cons_line b found

abbrev pub HasNoNewline : List ℕ → Type 0
HasNoNewline bs = any (λ b. b == 10) bs ≡ false

module _ (decode : List ℕ → String) (process_line : Relay → String → Relay) where
  unfoldable pub take_line : Relay → List ℕ → Relay
  take_line r line = if decode line == "" then r else process_line r (decode line)

  -- The `while` loop, on fuel.
  drain : ℕ → Relay → List ℕ → Option RelayState
  drain zero r buffer = none
  drain (suc fuel) r buffer = elim (split_line buffer) [
    | none ↦ some (record { relay = r; buffer = buffer })
    | some (line, rest) ↦ drain fuel (take_line r line) rest
  ]

  unfoldable pub feed_bytes : RelayState → List ℕ → Option RelayState
  unfolding drain
  feed_bytes s bs = let buffer = s.buffer ++ bs in drain (length buffer + 1) s.relay buffer

  -- The reference: one byte at a time.
  abbrev feed_byte : RelayState → ℕ → RelayState
  feed_byte s b =
      if b == 10
      then record { relay = take_line s.relay s.buffer; buffer = [] }
      else record s { buffer = s.buffer ++ b ∷ [] }

  unfoldable pub feed_each : RelayState → List ℕ → RelayState
  feed_each s [] = s
  feed_each s (b ∷ bs) = feed_each (feed_byte s b) bs

  no_line : (buf : List ℕ) → HasNoNewline buf → split_line buf ≡ none
  no_line [] h = refl
  no_line (b ∷ bs) h =
      let x : (b == 10) ≡ false = ground arith in
      let y : HasNoNewline bs = ground arith in rw (x, no_line bs y) refl

  first_line : (buf bs : List ℕ) → HasNoNewline buf → split_line (buf ++ 10 ∷ bs) ≡ some (buf, bs)
  first_line [] bs h = refl
  first_line (b ∷ buf) bs h =
      let x : (b == 10) ≡ false = ground arith in
      let y : HasNoNewline buf = ground arith in rw (x, first_line buf bs y) refl

  kept_byte :
      (buf : List ℕ) (b : ℕ) → HasNoNewline buf → (b == 10) ≡ false → HasNoNewline (buf ++ b ∷ [])
  kept_byte buf b h n = ground (arith, any-append (λ x. x == 10) buf (b ∷ []))

  feed_byte-HasNoNewline :
      (s : RelayState) (b : ℕ) → HasNoNewline s.buffer → HasNoNewline (feed_byte s b).buffer
  feed_byte-HasNoNewline s b h = elim (Bool-cases (b == 10)) [
    | inl e ↦ rw e refl
    | inr e ↦ rw e (kept_byte s.buffer b h e)
  ]

  pub feed_each-HasNoNewline :
      (s : RelayState) (bs : List ℕ) → HasNoNewline s.buffer → HasNoNewline (feed_each s bs).buffer
  unfolding feed_each
  feed_each-HasNoNewline s [] h = h
  feed_each-HasNoNewline s (b ∷ bs) h =
      feed_each-HasNoNewline (feed_byte s b) bs (feed_byte-HasNoNewline s b h)

  drain_first :
      (fuel : ℕ) (r : Relay) (buffer line rest : List ℕ)
      → split_line buffer ≡ some (line, rest)
      → drain (suc fuel) r buffer ≡ drain fuel (take_line r line) rest
  unfolding drain
  drain_first fuel r buffer line rest h = rw (h, drain) refl

  drain_last :
      (fuel : ℕ) (r : Relay) (buffer : List ℕ)
      → split_line buffer ≡ none
      → drain (suc fuel) r buffer ≡ some (record { relay = r; buffer = buffer })
  unfolding drain
  drain_last fuel r buffer h = rw (h, drain) refl

  feed_none : (s : RelayState) → feed_each s [] ≡ s
  unfolding feed_each
  feed_none s = refl

  feed_newline :
      (s : RelayState) (bs : List ℕ)
      → feed_each s (10 ∷ bs)
        ≡ feed_each (record { relay = take_line s.relay s.buffer; buffer = [] }) bs
  unfolding feed_each
  feed_newline s bs = refl

  feed_other :
      (s : RelayState) (b : ℕ) (bs : List ℕ)
      → (b == 10) ≡ false
      → feed_each s (b ∷ bs) ≡ feed_each (record s { buffer = s.buffer ++ b ∷ [] }) bs
  unfolding feed_each
  feed_other s b bs h = rw h refl

  drain_lem :
      (fuel : ℕ) (s : RelayState) (bs : List ℕ)
      → HasNoNewline s.buffer
      → length bs < fuel
      → drain fuel s.relay (s.buffer ++ bs) ≡ some (feed_each s bs)
  drain_lem zero s bs h l = absurd (omega arith)
  drain_lem (suc fuel) s [] h l =
      ap (λ buf. drain (suc fuel) s.relay buf) (append-nil s.buffer)
      ∙ drain_last fuel s.relay s.buffer (no_line s.buffer h)
      ∙ ap (λ x. some x) (sym (feed_none s))
  drain_lem (suc fuel) s (b ∷ bs) h l = elim (Bool-cases (b == 10)) [
    | inl e ↦
        let s' : RelayState = record { relay = take_line s.relay s.buffer; buffer = [] } in
        subst (λ x. drain (suc fuel) s.relay (s.buffer ++ x ∷ bs) ≡ some (feed_each s (x ∷ bs)))
          (sym (ten b e))
          (drain_first fuel s.relay (s.buffer ++ 10 ∷ bs) s.buffer bs (first_line s.buffer bs h)
            ∙ drain_lem fuel s' bs refl (omega arith)
            ∙ ap (λ x. some x) (sym (feed_newline s bs)))
    | inr e ↦
        let s' : RelayState = record s { buffer = s.buffer ++ b ∷ [] } in
        ap (λ buf. drain (suc fuel) s.relay buf) (sym (append_assoc s.buffer (b ∷ []) bs))
        ∙ drain_lem (suc fuel) s' bs (kept_byte s.buffer b h e) (omega arith)
        ∙ ap (λ x. some x) (sym (feed_other s b bs e))
  ]
    where
      ten : (b : ℕ) → (b == 10) ≡ true → b ≡ 10
      ten b e = ground (arith, e)

  -- While the buffer holds no newline, as it does in a new state, one call of `feed_bytes` ends and
  -- leaves the state that taking the bytes one at a time leaves, where a line is processed when its
  -- newline arrives; then the buffer holds no newline again.
  pub feed_bytes-eq-feed_each :
      (s : RelayState) (bs : List ℕ)
      → HasNoNewline s.buffer
      → (feed_bytes s bs ≡ some (feed_each s bs)) × HasNoNewline (feed_each s bs).buffer
  unfolding feed_bytes
  feed_bytes-eq-feed_each s bs h = (
    drain_lem (length (s.buffer ++ bs) + 1) s bs h (omega (arith, length-append s.buffer bs)),
    feed_each-HasNoNewline s bs h,
  )
