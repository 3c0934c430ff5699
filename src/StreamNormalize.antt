-- ===== src/StreamNormalize.antt =====
-- src/server/stream_normalize.rs: the pass over a stream of SSE lines (`NormalizingStream`). Of
-- `serde_json` and of UTF-8 the code takes what `Codec` lists. The order of an object's fields is
-- not claimed.
pub mod Delta
mod Marker
pub mod Done
mod Examples
use llm_proxy.Prelude.{
  ℕ, zero, suc, String, Bool, true, false, not, ◌||◌, Option, none, some, List, [], ◌∷◌, ◌++◌, ltb,
  if◌then◌else◌, get_or, is_empty, ◌==◌, pair_eq, string_eq, nat_eq,
}
use llm_proxy.Prelude.Text.{trim_start, strip_prefix}
use llm_proxy.AppError.{AppError}
use llm_proxy.Json.{Value, number, string, array, object, no_items, item, Fields, no_fields, field}
use llm_proxy.Stream.{Item, bytes, fails, waits}
use llm_proxy.ResponseNormalize.{
  builtin_think_pairs, ThinkTagAccumulator, new, in_reasoning?, emit, flush,
}
use llm_proxy.StreamNormalize.Delta.{rewrite_chunk_value}
use Prim.Native.Char.{code}
use Prim.Native.String.{[] as nil, ◌∷◌ as ◌⊳◌}

-- `from_str`, `to_string` and the number 0 of `serde_json`, and `str::from_utf8`.
pub record Codec (N : Type 0) : Type 0 where
  pub from_str : String → Option (Value N)
  pub to_string : Value N → String
  pub zero_number : N
  pub from_utf8 : List ℕ → Option String

-- What is sent: a line as it came, a line with a blank line behind it, a rewritten chunk as
-- `data: …`, or the `DONE` marker.
pub data Frame : Type 0 where
  as_it_came : List ℕ → Frame
  sse_line : String → Frame
  data_line : String → Frame
  done_marker : Frame

-- `inner` is the list of the answers to its next polls.
pub record NormalizingStream : Type 0 where
  pub inner : List Item
  pub acc : ThinkTagAccumulator
  pub pending : List ℕ
  pub seen_done : Bool
  pub inner_eof : Bool
  pub completed : Bool

unfoldable pub new_stream : List Item → NormalizingStream
new_stream inner = record {
  inner = inner;
  acc = new builtin_think_pairs;
  pending = [];
  seen_done = false;
  inner_eof = false;
  completed = false;
}

-- `strip_suffix` of one character.
abbrev strip_last : ℕ → String → String
strip_last n nil = ""
strip_last n (c ⊳ nil) = if code c == n then "" else c ⊳ nil
strip_last n (c ⊳ (d ⊳ s)) = c ⊳ strip_last n (d ⊳ s)

abbrev text_of_line : String → String
text_of_line s = strip_last 13 (strip_last 10 s)

-- `Poll<Option<Result<Bytes, AppError>>>`; what is ready is one frame, or at the end up to two.
pub data Poll : Type 0 where
  ready : List Frame → Poll
  ready_err : AppError → Poll
  ended : Poll
  pending_ : Poll

abbrev last_byte : List ℕ → Option ℕ
last_byte [] = none
last_byte (b ∷ []) = some b
last_byte (b ∷ (c ∷ bs)) = last_byte (c ∷ bs)

-- At the end of the stream an unfinished line gets its newline.
abbrev closed_line : List ℕ → List ℕ
closed_line bs = if is_empty bs || get_or (last_byte bs) 0 == 10 then bs else bs ++ 10 ∷ []

abbrev line_done :
    List ℕ
    → NormalizingStream × Option Frame
    → NormalizingStream × Option Frame
    → NormalizingStream × Option Frame
line_done rest (s, some frame) later = (record s { pending = rest }, some frame)
line_done rest (s, none) later = later

module _ {N : Type 0} (codec : Codec N) where
  abbrev rewritten :
      NormalizingStream
      → List ℕ
      → String
      → ThinkTagAccumulator × (Fields N × Bool)
      → NormalizingStream × Option Frame
  rewritten s line payload (acc', (chunk, emit)) =
      let s' : NormalizingStream = record s { acc = acc' } in
      let printed = codec.to_string (object chunk) in
      if emit
      then (s', some (if printed == payload then as_it_came line else data_line printed))
      else (s', none)

  abbrev transform_json :
      NormalizingStream
      → List ℕ
      → String
      → String
      → Option (Value N)
      → NormalizingStream × Option Frame
  transform_json s line text_ payload (some (object chunk)) =
      rewritten s line payload (rewrite_chunk_value s.acc chunk)
  transform_json s line text_ payload (some v) = (s, some (sse_line text_))
  transform_json s line text_ payload none = (s, some (sse_line text_))

  abbrev transform_data :
      NormalizingStream → List ℕ → String → Option String → NormalizingStream × Option Frame
  transform_data s line text_ none = (s, some (sse_line text_))
  transform_data s line text_ (some payload) =
      if trim_start payload == "[DONE]"
      then (record s { seen_done = true }, some done_marker)
      else transform_json s line text_ (trim_start payload) (codec.from_str (trim_start payload))

  abbrev transform_text :
      NormalizingStream → List ℕ → Option String → NormalizingStream × Option Frame
  transform_text s line none = (s, some (as_it_came line))
  transform_text s line (some text_) =
      if text_of_line text_ == ""
      then (s, none)
      else transform_data s line (text_of_line text_) (strip_prefix "data:" (text_of_line text_))

  unfoldable pub transform_line : NormalizingStream → List ℕ → NormalizingStream × Option Frame
  transform_line s line = transform_text s line (codec.from_utf8 line)

  -- `process_pending`: `line` is what was read of the pending bytes since the last newline.
  unfoldable pub process_bytes :
      NormalizingStream → List ℕ → List ℕ → NormalizingStream × Option Frame
  unfolding transform_line
  process_bytes s line [] = (record s { pending = line }, none)
  process_bytes s line (b ∷ bs) =
      let now = transform_line s (line ++ b ∷ []) in
      let next = process_bytes now.0 [] bs in
      let more = process_bytes s (line ++ b ∷ []) bs in
      if b == 10 then line_done bs now next else more

  unfoldable pub process_pending : NormalizingStream → NormalizingStream × Option Frame
  unfolding process_bytes
  process_pending s = process_bytes s [] s.pending

  abbrev drained_value : String → Bool → Value N
  drained_value flushed as_reasoning =
      let name = if as_reasoning then "reasoning_content" else "content" in
      let delta = object (field name (string flushed) no_fields) in
      let choice =
        object (field "index" (number codec.zero_number) (field "delta" delta no_fields)) in
      object (field "choices" (array (item choice no_items)) no_fields)

  unfoldable pub assemble_drained : String → Bool → Bool → List Frame
  assemble_drained flushed as_reasoning seen =
      (if flushed == ""
        then []
        else data_line (codec.to_string (drained_value flushed as_reasoning)) ∷ [])
      ++ (if seen then [] else done_marker ∷ [])

  unfoldable pub flush_eof : NormalizingStream → NormalizingStream × List Frame
  unfolding assemble_drained flush
  flush_eof s =
      let as_reasoning = in_reasoning? s.acc || ltb 0 s.acc.tag_count in
      let (acc', flushed) = flush s.acc in
      (record s { acc = acc'; seen_done = true }, assemble_drained flushed as_reasoning s.seen_done)

  abbrev ready_or_ended : List Frame → Poll
  ready_or_ended [] = ended
  ready_or_ended (f ∷ fs) = ready (f ∷ fs)

  abbrev poll_flush : NormalizingStream → NormalizingStream × Poll
  poll_flush s =
      let (s', frames) = flush_eof (record s { completed = true }) in (s', ready_or_ended frames)

  -- After `process_pending`: what is ready, the end, or else the rest of the loop.
  abbrev after_pending :
      NormalizingStream × Option Frame
      → List Item
      → NormalizingStream × Poll
      → NormalizingStream × Poll
  after_pending (s, some frame) items next = (record s { inner = items }, ready (frame ∷ []))
  after_pending (s, none) items next = if s.inner_eof then poll_flush s else next

  -- The inner stream ends; the next round finds the closed line or the end.
  abbrev poll_eof : NormalizingStream → NormalizingStream × Poll
  poll_eof s =
      let s' : NormalizingStream = record s {
        inner = [];
        inner_eof = true;
        pending = closed_line s.pending;
      } in
      after_pending (process_pending s') [] (s', ended)

  -- The rounds of the loop: each takes the next answer of the inner stream.
  unfoldable pub poll_loop : NormalizingStream → List Item → NormalizingStream × Poll
  unfolding process_pending flush_eof
  poll_loop s [] = let now = process_pending s in after_pending now [] (poll_eof now.0)
  poll_loop s (bytes bs ∷ items) =
      let now = process_pending s in
      let next = poll_loop (record now.0 { pending = now.0.pending ++ bs }) items in
      after_pending now (bytes bs ∷ items) next
  poll_loop s (fails e ∷ items) =
      let now = process_pending s in
      after_pending now (fails e ∷ items) (record now.0 { inner = items }, ready_err e)
  poll_loop s (waits ∷ items) =
      let now = process_pending s in
      after_pending now (waits ∷ items) (record now.0 { inner = items }, pending_)

  unfoldable pub poll_next : NormalizingStream → NormalizingStream × Poll
  unfolding poll_loop
  poll_next s = if s.completed then (s, ended) else poll_loop s s.inner

  -- The answers to the next polls.
  unfoldable pub polls : ℕ → NormalizingStream → NormalizingStream × List Poll
  unfolding poll_next
  polls zero s = (s, [])
  polls (suc n) s = let (s', p) = poll_next s in let (s'', ps) = polls n s' in (s'', p ∷ ps)
