-- ===== src/Inspector/Last.antt =====
-- The summary holds the last of each value that the stream sent.
use llm_proxy.Prelude.{
  ℕ, String, ◌≡◌, refl, sym, ap, ◌∙◌, Option, none, some, List, [], ◌∷◌, pair_eq, string_eq, nat_eq,
}
use llm_proxy.Json.{Value, Items, no_items, item, value_get, as_str, items_of}
use llm_proxy.Inspector.{
  Reader, StreamInspector, counted_reason, later, finish_in, new_started_at, chunk_of, usage_of,
  absorb, started, absorbed, ingest_chunk, ingest_all,
}

module _ {A : Type 0} where
  -- The last line on which `f` finds something.
  abbrev first_of : Option A → Option A → Option A
  first_of none o = o
  first_of (some a) o = some a

  abbrev pub last_some : (List ℕ → Option A) → List (ℕ × List ℕ) → Option A
  last_some f [] = none
  last_some f ((now, line) ∷ lines) = first_of (last_some f lines) (f line)

  later_first : (old a b : Option A) → later (later old a) b ≡ later old (first_of b a)
  later_first old a none = refl
  later_first old none (some b) = refl
  later_first old (some a) (some b) = refl

  later-none : (o : Option A) → later none o ≡ o
  later-none none = refl
  later-none (some a) = refl

  later_assoc : (a b c : Option A) → later (later a b) c ≡ later a (later b c)
  later_assoc a b none = refl
  later_assoc a b (some c) = refl

module _ {N : Type 0} where
  finish_in-later :
      (choices : Items N) (fr : Option String)
      → finish_in fr choices ≡ later fr (finish_in none choices)
  unfolding finish_in
  finish_in-later no_items fr = refl
  finish_in-later (item choice choices) fr =
      let r = counted_reason (as_str (value_get "finish_reason" choice)) in
      finish_in-later choices (later fr r)
      ∙ later_assoc fr r (finish_in none choices)
      ∙ ap (later fr) (
          ap (λ x. later x (finish_in none choices)) (sym (later-none r))
          ∙ sym (finish_in-later choices (later none r)))

module _ {N I U : Type 0} (reader : Reader N I U) where
  abbrev pub found : {A : Type 0} → (Value N → Option A) → List ℕ → Option A
  found f line = elim (chunk_of reader line) [ none ↦ none | some chunk ↦ f chunk ]

  abbrev pub model_in : Value N → Option String
  model_in chunk = as_str (value_get "model" chunk)

  abbrev pub usage_in : Value N → Option U
  usage_in chunk = usage_of reader (value_get "usage" chunk)

  abbrev pub reason_in : Value N → Option String
  reason_in chunk = finish_in none (items_of (value_get "choices" chunk))

  -- `i` after the lines: each of the three values is the last that was found, or the old one.
  record Holds (i j : StreamInspector N I U) (lines : List (ℕ × List ℕ)) : Type 0 where
    model : j.upstream_model ≡ later i.upstream_model (last_some (found model_in) lines)
    usage : j.accumulated_usage ≡ later i.accumulated_usage (last_some (found usage_in) lines)
    reason : j.finish_reason ≡ later i.finish_reason (last_some (found reason_in) lines)

  -- One line.
  record Took (i j : StreamInspector N I U) (o : Option (Value N)) : Type 0 where
    new_model :
        j.upstream_model ≡ later i.upstream_model (elim o [ none ↦ none | some c ↦ model_in c ])
    new_usage :
        j.accumulated_usage
        ≡ later i.accumulated_usage (elim o [ none ↦ none | some c ↦ usage_in c ])
    new_reason :
        j.finish_reason ≡ later i.finish_reason (elim o [ none ↦ none | some c ↦ reason_in c ])

  absorbed-Took :
      (now : ℕ) (i : StreamInspector N I U) (o : Option (Value N))
      → Took i (absorbed reader (started reader now i) o) o
  unfolding absorb
  absorbed-Took now i none = record { new_model = refl; new_usage = refl; new_reason = refl }
  absorbed-Took now i (some c) = record {
    new_model = refl;
    new_usage = refl;
    new_reason = finish_in-later (items_of (value_get "choices" c)) i.finish_reason;
  }

  ingest_all-Holds :
      (lines : List (ℕ × List ℕ)) (i : StreamInspector N I U)
      → Holds i (ingest_all reader i lines) lines
  unfolding ingest_all ingest_chunk
  ingest_all-Holds [] i = record { model = refl; usage = refl; reason = refl }
  ingest_all-Holds ((now, line) ∷ lines) i =
      let t = absorbed-Took now i (chunk_of reader line) in
      let h = ingest_all-Holds lines (ingest_chunk reader now i line) in
      record {
        model =
            h.model
            ∙ ap (λ x. later x (last_some (found model_in) lines)) t.new_model
            ∙ later_first i.upstream_model (found model_in line) (last_some (found model_in) lines);
        usage =
            h.usage
            ∙ ap (λ x. later x (last_some (found usage_in) lines)) t.new_usage
            ∙ later_first i.accumulated_usage (found usage_in line)
                (last_some (found usage_in) lines);
        reason =
            h.reason
            ∙ ap (λ x. later x (last_some (found reason_in) lines)) t.new_reason
            ∙ later_first i.finish_reason (found reason_in line)
                (last_some (found reason_in) lines);
      }

  -- After the lines of a stream the inspector's model, usage and finish reason are each the last
  -- one that a parsed line carried, and absent if none did.
  pub ingest_all-last :
      (start_at : ℕ) (lines : List (ℕ × List ℕ))
      → ((ingest_all reader (new_started_at reader start_at) lines).upstream_model
          ≡ last_some (found model_in) lines)
        × ((ingest_all reader (new_started_at reader start_at) lines).accumulated_usage
            ≡ last_some (found usage_in) lines)
        × ((ingest_all reader (new_started_at reader start_at) lines).finish_reason
            ≡ last_some (found reason_in) lines)
  unfolding new_started_at
  ingest_all-last start_at lines =
      let h = ingest_all-Holds lines (new_started_at reader start_at) in
      (h.model ∙ later-none _, h.usage ∙ later-none _, h.reason ∙ later-none _)
