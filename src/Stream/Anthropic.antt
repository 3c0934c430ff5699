-- ===== src/Stream/Anthropic.antt =====
-- src/provider/anthropic_stream.rs: one event of the Anthropic stream.
use llm_proxy.Prelude.{
  ℕ, ◌%◌, ◌^◌, String, true, false, Option, none, some, List, if◌then◌else◌, get_or, ◌==◌, pair_eq,
  string_eq, nat_eq,
}
use llm_proxy.Stream.{Json, Relay, RelayState, emit_chunk, usage_chunk, push}
use llm_proxy.Stream.Lines.{feed_bytes}
use text.Mathlib.Text.{starts_with, get?}
use Prim.Native.String.{len as str_len}

abbrev pub nonempty_or : Option String → String
nonempty_or o = get_or o ""

abbrev stop_reason : String → String
stop_reason s =
    if s == "end_turn"
    then "stop"
    else if s == "max_tokens"
    then "length"
    else if s == "stop_sequence"
    then "stop"
    else if s == "tool_use"
    then "tool_calls"
    else "stop"

-- `line.strip_prefix("data: ")`
unfoldable pub strip_data : String → Option String
strip_data line = if starts_with line "data: " then get? line 6 (str_len line) else none

abbrev pub option_map {ℓ} : {A B : Type ℓ} → (A → B) → Option A → Option B
option_map f none = none
option_map f (some a) = some (f a)

module _ (j : Json) where
  abbrev pub field : Option j.Value → String → Option j.Value
  field none name = none
  field (some v) name = j.get v name

  abbrev pub text_field : Option j.Value → Option String
  text_field none = none
  text_field (some v) = j.as_str v

  abbrev pub number_field : Option j.Value → Option ℕ
  number_field none = none
  number_field (some v) = j.as_u64 v

  -- `message_start`
  unfoldable pub message_start : Relay → j.Value → Relay
  message_start r value =
      let msg = j.get value "message" in
      let r' = record r {
        message_id = get_or (text_field (field msg "id")) r.message_id;
        model = get_or (text_field (field msg "model")) r.model;
      } in
      push r' (emit_chunk r' "assistant" none false)

  -- `content_block_delta`
  unfoldable pub content_block_delta : Relay → j.Value → Relay
  content_block_delta r value =
      let delta = j.get value "delta" in
      let thinking = nonempty_or (text_field (field delta "type")) == "thinking_delta" in
      let text = nonempty_or (text_field (field delta (if thinking then "thinking" else "text"))) in
      let r' = record r { content_idx = get_or (number_field (j.get value "index")) 0 } in
      push r' (emit_chunk r' text none thinking)

  -- `message_delta`; `output_tokens` is cut to 32 bits.
  unfoldable pub message_delta : Relay → j.Value → Relay
  message_delta r value =
      let tokens = number_field (field (j.get value "usage") "output_tokens") in
      let r' = record r {
        finish_reason =
            option_map stop_reason (text_field (field (j.get value "delta") "stop_reason"));
        streamed_tokens = get_or (option_map (λ n. n % 2 ^ 32) tokens) r.streamed_tokens;
      } in
      push r' (emit_chunk r' "" r'.finish_reason false)

  -- `message_stop`
  unfoldable pub message_stop : Relay → Relay
  message_stop r = record (push r (usage_chunk r)) { done = true }

  unfoldable pub process_event : Relay → j.Value → Relay
  process_event r value =
      let ev_type = nonempty_or (text_field (j.get value "type")) in
      if ev_type == "message_start"
      then message_start r value
      else if ev_type == "content_block_delta"
      then content_block_delta r value
      else if ev_type == "message_delta"
      then message_delta r value
      else if ev_type == "message_stop"
      then message_stop r
      else r

  abbrev pub process_parsed : Relay → Option j.Value → Relay
  process_parsed r none = r
  process_parsed r (some value) = process_event r value

  abbrev pub process_data : Relay → Option String → Relay
  process_data r none = r
  process_data r (some data_) = if data_ == "" then r else process_parsed r (j.from_str data_)

  unfoldable pub process_line : Relay → String → Relay
  process_line r line = process_data r (strip_data line)

  -- The relay's `feed_bytes`, which always ends (Lines).
  unfoldable pub feed : RelayState → List ℕ → RelayState
  feed s bs = get_or (feed_bytes j.decode process_line s bs) s
