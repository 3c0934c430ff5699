-- ===== src/StreamNormalize/Delta/Plain.antt =====
-- What a chunk's delta holds after it is rewritten.
use llm_proxy.Prelude.{
  String, ◌≡◌, refl, ap, ◌∙◌, inl, inr, false, Option, none, some, [], ◌∷◌, arith, Bool-cases, ◌==◌,
  pair_eq, string_eq, nat_eq,
}
use llm_proxy.Prelude.Text.{text_append_nil}
use llm_proxy.Json.{Value, string, Fields, get, put, cut, get-put, get-cut}
use llm_proxy.ResponseNormalize.{text, in_text, ThinkTagAccumulator, emit}
use llm_proxy.ResponseNormalize.Plain.{has_angle, HasAngles, feed-plain}
use llm_proxy.ResponseNormalize.Message.{feed_events}
use llm_proxy.StreamNormalize.Delta.{
  taken_text, take_thinking, put_parts, fold_reasoning_aliases, append_reasoning, split_content,
  rewrite_content, rewrite_delta,
}
use llm_proxy.Prelude.Text.{eq_iff}

-- The fields that the folding of the aliases leaves alone.
abbrev pub IsOther : String → Type 0
IsOther j =
    (("reasoning_content" == j) ≡ false)
    × (("reasoning" == j) ≡ false)
    × (("reasoning_text" == j) ≡ false)
    × (("thinking" == j) ≡ false)

content_IsOther : IsOther "content"
content_IsOther = (refl, refl, refl, refl)

feed_events-plain :
    (acc : ThinkTagAccumulator) (content : String)
    → HasAngles acc.pairs
    → acc.held ≡ ""
    → has_angle content ≡ false
    → feed_events acc content ≡ (acc, emit acc.state content)
unfolding feed_events
feed_events-plain acc content a e h = rw (feed-plain acc content a e h) refl

module _ {N : Type 0} where
  get_put_other :
      (k j : String) (v : Value N) (fs : Fields N)
      → (k == j) ≡ false
      → get j (put k v fs) ≡ get j fs
  get_put_other k j v fs h = get-put k j v fs ∙ ground (arith, h)

  get_cut_other : (k j : String) (fs : Fields N) → (k == j) ≡ false → get j (cut k fs) ≡ get j fs
  get_cut_other k j fs h = get-cut k j fs ∙ ground (arith, h)

  put_parts_other :
      (j : String) (p : Fields N × String)
      → ("reasoning_content" == j) ≡ false
      → get j (put_parts p) ≡ get j p.0
  put_parts_other j (delta, parts) h = elim (Bool-cases (parts == "")) [
    | inl e ↦ rw e refl
    | inr e ↦ rw e (get_put_other "reasoning_content" j (string parts) delta h)
  ]

  take_thinking_other :
      (j : String) (p : Fields N × String)
      → ("thinking" == j) ≡ false
      → get j (take_thinking p).0 ≡ get j p.0
  take_thinking_other j (delta, parts) h =
      elim (Bool-cases (taken_text (get "thinking" delta) == "")) [
        | inl e ↦ rw e refl
        | inr e ↦ rw e (get_cut_other "thinking" j delta h)
      ]

  fold_other :
      (j : String) (delta : Fields N)
      → IsOther j
      → get j (fold_reasoning_aliases delta) ≡ get j delta
  unfolding fold_reasoning_aliases
  fold_other j delta (a, b, c, d) =
      put_parts_other j _ a
      ∙ take_thinking_other j _ d
      ∙ get_cut_other "reasoning_text" j _ c
      ∙ get_cut_other "reasoning" j _ b
      ∙ get_cut_other "reasoning_content" j delta a

  fold_aliases :
      (delta : Fields N)
      → (get "reasoning" (fold_reasoning_aliases delta) ≡ none)
        × (get "reasoning_text" (fold_reasoning_aliases delta) ≡ none)
  unfolding fold_reasoning_aliases
  fold_aliases delta = (
    put_parts_other "reasoning" _ refl
        ∙ take_thinking_other "reasoning" _ refl
        ∙ get_cut_other "reasoning_text" "reasoning" _ refl
        ∙ get-cut "reasoning" "reasoning" (cut "reasoning_content" delta),
    put_parts_other "reasoning_text" _ refl
        ∙ take_thinking_other "reasoning_text" _ refl
        ∙ get-cut "reasoning_text" "reasoning_text" _,
  )

  split_content-text :
      (acc : ThinkTagAccumulator) (delta : Fields N) (content : String)
      → (content == "") ≡ false
      → split_content delta (acc, text content ∷ []) ≡ (acc, put "content" (string content) delta)
  unfolding append_reasoning
  split_content-text acc delta content n = rw (text_append_nil, n) refl

  rewrite_content-text :
      (acc : ThinkTagAccumulator) (delta : Fields N) (content : String) (o : Option (Value N))
      → o ≡ some (string content)
      → (content == "") ≡ false
      → feed_events acc content ≡ (acc, text content ∷ [])
      → rewrite_content acc delta o ≡ (acc, put "content" (string content) delta)
  rewrite_content-text acc delta content o e n f =
      ap (rewrite_content acc delta) e ∙ rw (n, f) (split_content-text acc delta content n)

  rewrite_delta-put :
      (acc : ThinkTagAccumulator) (delta : Fields N) (content : String)
      → HasAngles acc.pairs
      → acc.held ≡ ""
      → acc.state ≡ in_text
      → get "content" delta ≡ some (string content)
      → (content == "") ≡ false
      → has_angle content ≡ false
      → rewrite_delta acc delta
        ≡ (acc, put "content" (string content) (fold_reasoning_aliases delta))
  unfolding rewrite_delta
  rewrite_delta-put acc delta content a e s g n h =
      rewrite_content-text acc _ content _ (fold_other "content" delta content_IsOther ∙ g) n
        (feed_events-plain acc content a e h ∙ ap (λ st. (acc, emit st content)) s ∙ rw n refl)

  put_same :
      (j : String) (v : Value N) (fs gs : Fields N)
      → get j fs ≡ get j gs
      → get "content" gs ≡ some v
      → get j (put "content" v fs) ≡ get j gs
  put_same j v fs gs e g = get-put "content" j v fs ∙ ground (arith, eq_iff "content" j, e, g)

  -- In text, with nothing held, a delta whose content is a text without "<" keeps every field but
  -- the reasoning ones, known or unknown; `reasoning` and `reasoning_text` are gone, and the
  -- accumulator stays as it was.
  pub rewrite_delta-plain :
      (acc : ThinkTagAccumulator) (delta : Fields N) (content : String)
      → HasAngles acc.pairs
      → acc.held ≡ ""
      → acc.state ≡ in_text
      → get "content" delta ≡ some (string content)
      → (content == "") ≡ false
      → has_angle content ≡ false
      → ((rewrite_delta acc delta).0 ≡ acc)
        × ((j : String) → IsOther j → get j (rewrite_delta acc delta).1 ≡ get j delta)
        × (get "reasoning" (rewrite_delta acc delta).1 ≡ none)
        × (get "reasoning_text" (rewrite_delta acc delta).1 ≡ none)
  rewrite_delta-plain acc delta content a e s g n h =
      let (x, y) = fold_aliases delta in
      rw (rewrite_delta-put acc delta content a e s g n h) (
        refl,
        λ j o. put_same j (string content) _ delta (fold_other j delta o) g,
        get_put_other "content" "reasoning" _ _ refl ∙ x,
        get_put_other "content" "reasoning_text" _ _ refl ∙ y,
      )
