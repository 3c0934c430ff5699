-- ===== src/Stream/Gemini.antt =====
-- src/provider/gemini_stream.rs: one line of the Gemini stream, which is a JSON value by itself.
use llm_proxy.Prelude.{
  ℕ, ◌%◌, ◌^◌, String, Bool, true, false, not, ◌||◌, Option, none, some, List, [], ◌∷◌,
  if◌then◌else◌, get_or, is_some, is_empty, ◌==◌, pair_eq, string_eq, nat_eq,
}
use llm_proxy.Stream.{Json, Relay, RelayState, new, emit_chunk, usage_chunk, push}
use llm_proxy.Stream.Lines.{feed_bytes}
use llm_proxy.Stream.Anthropic.{option_map, field, text_field, number_field}
use Prim.Native.String.{◌++◌ as str_append}

abbrev finish_of : String → String
finish_of s =
    if s == "STOP"
    then "stop"
    else if s == "MAX_TOKENS"
    then "length"
    else if s == "SAFETY" || s == "RECITATION"
    then "content_filter"
    else "stop"

abbrev not_null : Option String → Option String
not_null none = none
not_null (some s) = if s == "null" then none else some s

-- `finish_reason.is_some() && finish_reason != self.finish_reason` sets it: a new reason replaces
-- the old one, and none leaves it.
abbrev or_else : Option String → Option String → Option String
or_else none old = old
or_else (some new) old = some new

module _ (j : Json) where
  -- The text and the `thought` flag of the parts.
  abbrev part_text : j.Value → String
  part_text part = get_or (text_field j (j.get part "text")) ""

  abbrev flag_field : Option j.Value → Bool
  flag_field none = false
  flag_field (some v) = get_or (j.as_bool v) false

  unfoldable pub read_parts : String → Bool → List j.Value → String × Bool
  read_parts text reasoning [] = (text, reasoning)
  read_parts text reasoning (part ∷ parts) =
      read_parts (str_append text (part_text part)) (reasoning || flag_field (j.get part "thought"))
        parts

  abbrev array_field : Option j.Value → Option (List j.Value)
  array_field none = none
  array_field (some v) = j.as_array v

  -- The role chunk, if nothing is pending.
  abbrev push_first : Relay → Relay
  push_first r = if is_empty r.pending then push r (emit_chunk r "assistant" none false) else r

  abbrev push_text : Relay → String → Bool → Relay
  push_text r text reasoning =
      if not (text == "")
      then push r (emit_chunk r text r.finish_reason reasoning)
      else if is_some r.finish_reason
      then push r (emit_chunk r "" r.finish_reason false)
      else r

  abbrev push_usage : Relay → Relay
  push_usage r =
      if is_some r.finish_reason then record (push r (usage_chunk r)) { done = true } else r

  unfoldable pub process_parts : Relay → j.Value → List j.Value → Relay
  process_parts r candidate parts =
      let (text, reasoning) = read_parts "" false parts in
      let reason =
        option_map finish_of (not_null (text_field j (j.get candidate "finishReason"))) in
      let r' = record r { finish_reason = or_else reason r.finish_reason } in
      push_usage (push_text (push_first r') text reasoning)

  abbrev process_found : Relay → j.Value → Option (List j.Value) → Relay
  process_found r candidate none = r
  process_found r candidate (some parts) = process_parts r candidate parts

  unfoldable pub process_candidates : Relay → List j.Value → Relay
  process_candidates r [] = r
  process_candidates r (candidate ∷ cs) =
      process_candidates
        (process_found r candidate (array_field (field j (j.get candidate "content") "parts"))) cs

  -- `usageMetadata`; the counts are cut to 32 bits.
  unfoldable pub process_usage : Relay → Option j.Value → Relay
  process_usage r usage = record r {
    prompt_tokens =
        get_or (option_map (λ n. n % 2 ^ 32) (number_field j (field j usage "promptTokenCount")))
          r.prompt_tokens;
    streamed_tokens =
        get_or
          (option_map (λ n. n % 2 ^ 32) (number_field j (field j usage "candidatesTokenCount")))
          r.streamed_tokens;
  }

  abbrev process_all : Relay → Option (List j.Value) → Relay
  process_all r none = r
  process_all r (some cs) = process_candidates r cs

  unfoldable pub process_value : Relay → Option j.Value → Relay
  process_value r none = r
  process_value r (some value) =
      process_all (process_usage r (j.get value "usageMetadata"))
        (array_field (j.get value "candidates"))

  unfoldable pub process_line : Relay → String → Relay
  process_line r line = process_value r (j.from_str line)

  unfoldable pub feed : RelayState → List ℕ → RelayState
  feed s bs = get_or (feed_bytes j.decode process_line s bs) s
