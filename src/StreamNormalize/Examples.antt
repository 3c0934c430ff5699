-- ===== src/StreamNormalize/Examples.antt =====
-- A short stream, a delta with an unknown field, and two choices in one chunk.
use llm_proxy.Prelude.{
  ℕ, String, ◌≡◌, refl, true, false, Option, none, some, List, [], ◌∷◌, ◌++◌, if◌then◌else◌, length,
  ◌==◌, pair_eq, string_eq, nat_eq,
}
use llm_proxy.Json.{
  Value, number, string, object, no_items, item, Fields, no_fields, field, get, put, cut,
}
use llm_proxy.ResponseNormalize.{
  builtin_think_pairs, new, needles, find_next_tag, hold_position, hold_partial_tail, finish, drain,
  drain_resolved, feed, flush,
}
use llm_proxy.ResponseNormalize.Message.{feed_events}
use llm_proxy.Stream.{Item, bytes, waits}
use llm_proxy.StreamNormalize.Delta.{
  fold_reasoning_aliases, append_reasoning, delta_has_payload, rewrite_delta, rewrite_choices,
  rewrite_chunk_value,
}
use llm_proxy.StreamNormalize.{
  Codec, as_it_came, done_marker, new_stream, ready, ended, pending_, transform_line, process_bytes,
  process_pending, assemble_drained, flush_eof, poll_loop, poll_next, polls,
}
use llm_proxy.StreamNormalize.Marker.{has_done}
use llm_proxy.StreamNormalize.Done.{all_frames, polls-seen_done}

-- Two lines are known: the marker (13 bytes) and a chunk (9 bytes); a line of one byte is blank.
abbrev decoded : List ℕ → Option String
decoded bs =
    if length bs == 13
    then some "data: [DONE]\n"
    else if length bs == 9
    then some "data: {}\n"
    else if length bs == 1
    then some "\n"
    else none

abbrev codec : Codec ℕ
codec = record {
  from_str = λ s. if s == "{}" then some (object no_fields) else none;
  to_string = λ v. "{}";
  zero_number = 0;
  from_utf8 = decoded;
}

abbrev chunk_line : List ℕ
chunk_line = 1 ∷ 2 ∷ 3 ∷ 4 ∷ 5 ∷ 6 ∷ 7 ∷ 8 ∷ 10 ∷ []

abbrev chunks : List Item
chunks = bytes (chunk_line ++ 10 ∷ []) ∷ waits ∷ bytes (chunk_line ++ 10 ∷ []) ∷ []

-- A chunk that is not rewritten goes out with its own newline only: the blank line behind it is
-- dropped. The marker is added at the end.
blank_lines_dropped :
    (polls codec 5 (new_stream chunks)).1
    ≡ ready (as_it_came chunk_line ∷ [])
      ∷ pending_
      ∷ ready (as_it_came chunk_line ∷ [])
      ∷ ready (done_marker ∷ [])
      ∷ ended
      ∷ []
unfolding polls poll_next poll_loop process_pending process_bytes transform_line rewrite_chunk_value
    flush_eof assemble_drained flush new_stream new get
blank_lines_dropped = refl

polls-seen_done_example :
    ((polls codec 5 (new_stream chunks)).0.seen_done
      ≡ has_done (all_frames (polls codec 5 (new_stream chunks)).1))
    × ((polls codec 5 (new_stream chunks)).0.completed ≡ true
        → has_done (all_frames (polls codec 5 (new_stream chunks)).1) ≡ true)
polls-seen_done_example = polls-seen_done codec 5 chunks

abbrev one_field : String → String → Fields ℕ
one_field name value = field name (string value) no_fields

abbrev greeting : Fields ℕ
greeting = field "custom" (number 7) (field "reasoning" (string "why") (one_field "content" "hi"))

abbrev choice_of : String → Value ℕ
choice_of content_ = object (field "delta" (object (one_field "content" content_)) no_fields)

-- The choices of a chunk share one accumulator: a tag that opens in one takes the other's answer.
choices_share_state :
    (rewrite_choices
      (new builtin_think_pairs)
      (item (choice_of "<think>") (item (choice_of "answer") no_items))
      false).1.0
    ≡ item (object (field "delta" (object no_fields) no_fields)) (
        item
          (object (field "delta" (object (one_field "reasoning_content" "answer")) no_fields))
          no_items)
unfolding rewrite_choices rewrite_delta fold_reasoning_aliases append_reasoning delta_has_payload
    feed_events feed drain_resolved drain find_next_tag needles finish hold_partial_tail
    hold_position new get put cut
choices_share_state = refl
