-- ===== src/ResponseNormalize/Message/Laws.antt =====
-- Folding the aliases, and normalising twice.
use llm_proxy.Prelude.{
  String, ◌≡◌, refl, sym, ap, ◌∙◌, inl, inr, false, Option, none, some, List, [], ◌∷◌, map,
  Bool-cases, get_or, All, ◌==◌, pair_eq, string_eq, nat_eq,
}
use llm_proxy.Prelude.Text.{append_nonempty_left, nil-append}
use llm_proxy.Json.{Value, null, boolean, number, string, array, object}
use llm_proxy.ResponseNormalize.{builtin_think_pairs, new, flush}
use llm_proxy.ResponseNormalize.Plain.{has_angle, feed-plain, builtin-HasAngles}
use llm_proxy.ResponseNormalize.Message.{
  feed_events, extract_think_tags, take_nonempty, merge_part, ResponseMessage, thinking_part,
  thinking_rest, fold_message_reasoning, normalize_content, normalize_message,
  normalize_chat_response,
}
use Prim.Native.String.{◌++◌ as ◌⧺◌}

-- Absent, or not empty.
abbrev IsTaken : Option String → Type 0
IsTaken none = Unit
IsTaken (some s) = (s == "") ≡ false

take_nonempty-IsTaken : (o : Option String) → IsTaken (take_nonempty o)
take_nonempty-IsTaken none = tt
take_nonempty-IsTaken (some s) = elim (Bool-cases (s == "")) [ inl e ↦ rw e tt | inr e ↦ rw e e ]

take_nonempty_same : (o : Option String) → IsTaken o → take_nonempty o ≡ o
take_nonempty_same none h = refl
take_nonempty_same (some s) h = rw h refl

merge_part-IsTaken : (a b : Option String) → IsTaken a → IsTaken b → IsTaken (merge_part a b)
merge_part-IsTaken a none h k = h
merge_part-IsTaken none (some t) h k = k
merge_part-IsTaken (some s) (some t) h k = rw (h, k) (append_nonempty_left s ("\n" ⧺ t) h)

module _ {N : Type 0} where
  thinking_part-IsTaken : (o : Option (Value N)) → IsTaken (thinking_part o)
  thinking_part-IsTaken none = tt
  thinking_part-IsTaken (some (string s)) = take_nonempty-IsTaken (some s)
  thinking_part-IsTaken (some null) = tt
  thinking_part-IsTaken (some (boolean b)) = tt
  thinking_part-IsTaken (some (number n)) = tt
  thinking_part-IsTaken (some (array a)) = tt
  thinking_part-IsTaken (some (object o)) = tt

  thinking_twice :
      (o : Option (Value N))
      → (thinking_part (thinking_rest o) ≡ none)
        × (thinking_rest (thinking_rest o) ≡ thinking_rest o)
  thinking_twice none = (refl, refl)
  thinking_twice (some (string s)) = elim (Bool-cases (s == "")) [
    | inl e ↦ rw (e, e) (refl, refl)
    | inr e ↦ rw e (refl, refl)
  ]
  thinking_twice (some null) = (refl, refl)
  thinking_twice (some (boolean b)) = (refl, refl)
  thinking_twice (some (number n)) = (refl, refl)
  thinking_twice (some (array a)) = (refl, refl)
  thinking_twice (some (object o)) = (refl, refl)

merge_part-none : (o : Option String) → merge_part none o ≡ o
merge_part-none none = refl
merge_part-none (some s) = refl

extract_think_tags-plain :
    (content : String)
    → (content == "") ≡ false
    → has_angle content ≡ false
    → extract_think_tags content builtin_think_pairs ≡ (none, content)
unfolding extract_think_tags feed_events flush new
extract_think_tags-plain content n h =
    rw (feed-plain (new builtin_think_pairs) content builtin-HasAngles refl h, n)
      (ap (λ x. (none, x)) (nil-append content))

module _ {N T : Type 0} where
  folded-IsTaken : (m : ResponseMessage N T) → IsTaken (fold_message_reasoning m).reasoning_content
  unfolding fold_message_reasoning
  folded-IsTaken m =
      merge_part-IsTaken _ (thinking_part m.thinking)
        (merge_part-IsTaken _ (take_nonempty m.reasoning_text)
          (merge_part-IsTaken _ (take_nonempty m.reasoning_alias)
            (merge_part-IsTaken none (take_nonempty m.reasoning_content) tt
              (take_nonempty-IsTaken m.reasoning_content))
            (take_nonempty-IsTaken m.reasoning_alias))
          (take_nonempty-IsTaken m.reasoning_text))
        (thinking_part-IsTaken m.thinking)

  fold_twice :
      (m : ResponseMessage N T)
      → fold_message_reasoning (fold_message_reasoning m) ≡ fold_message_reasoning m
  unfolding fold_message_reasoning
  fold_twice m =
      ap (λ x. folded x (thinking_rest (thinking_rest m.thinking)))
        (ap (merge_part (merge_part none (take_nonempty once.reasoning_content)))
            (thinking_twice m.thinking).0
          ∙ ap (merge_part none) (take_nonempty_same once.reasoning_content (folded-IsTaken m))
          ∙ merge_part-none once.reasoning_content)
      ∙ ap (folded once.reasoning_content) (thinking_twice m.thinking).1
    where
      once : ResponseMessage N T
      once = fold_message_reasoning m

      folded : Option String → Option (Value N) → ResponseMessage N T
      folded x y = record once { reasoning_content = x; thinking = y }

  -- A content without "<", or none.
  abbrev pub IsPlain : ResponseMessage N T → Type 0
  IsPlain m = has_angle (get_or m.content "") ≡ false

  normalize_content-plain :
      (m : ResponseMessage N T) (o : Option String)
      → m.content ≡ o
      → has_angle (get_or o "") ≡ false
      → normalize_content m o ≡ m
  normalize_content-plain m none e h = refl
  normalize_content-plain m (some c) e h = elim (Bool-cases (c == "")) [
    | inl n ↦ rw n refl
    | inr n ↦ rw (n, extract_think_tags-plain c n h) (ap (λ x. record m { content = x }) (sym e))
  ]

  normalize_message-plain :
      (m : ResponseMessage N T) → IsPlain m → normalize_message m ≡ fold_message_reasoning m
  unfolding normalize_message fold_message_reasoning
  normalize_message-plain m h = normalize_content-plain (fold_message_reasoning m) m.content refl h

  normalize_message_twice :
      (m : ResponseMessage N T)
      → IsPlain m
      → normalize_message (normalize_message m) ≡ normalize_message m
  unfolding fold_message_reasoning
  normalize_message_twice m p =
      let e = normalize_message-plain m p in
      ap normalize_message e
      ∙ normalize_message-plain (fold_message_reasoning m) p
      ∙ fold_twice m
      ∙ sym e

  -- In a response whose contents have no "<", every content stays as it is, the reasoning aliases
  -- of each message are folded, and a second normalisation changes nothing.
  pub normalize_chat_response-plain :
      (ms : List (ResponseMessage N T))
      → All IsPlain ms
      → (normalize_chat_response ms ≡ map fold_message_reasoning ms)
        × (normalize_chat_response (normalize_chat_response ms) ≡ normalize_chat_response ms)
  unfolding normalize_chat_response
  normalize_chat_response-plain [] h = (refl, refl)
  normalize_chat_response-plain (m ∷ ms) (p, h) =
      let (a, b) = normalize_chat_response-plain ms h in
      let e = normalize_message-plain m p in (cons_eq e a, cons_eq (normalize_message_twice m p) b)
    where
      cons_eq :
          {x y : ResponseMessage N T} {xs ys : List (ResponseMessage N T)}
          → x ≡ y
          → xs ≡ ys
          → x ∷ xs ≡ y ∷ ys
      cons_eq {y} {xs} p q = ap (λ t. t ∷ xs) p ∙ ap (λ t. y ∷ t) q
