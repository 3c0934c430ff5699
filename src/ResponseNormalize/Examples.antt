-- ===== src/ResponseNormalize/Examples.antt =====
-- Think blocks cut across chunks, finished contents, and messages with aliases.
use llm_proxy.Prelude.{
  ℕ, ◌-◌, ◌≤◌, String, ◌≡◌, refl, Option, none, some, List, [], ◌∷◌, map, pair_eq, string_eq,
  nat_eq,
}
use llm_proxy.Json.{string}
use llm_proxy.ResponseNormalize.{
  ThinkEvent, reasoning, text, pending, builtin_think_pairs, ThinkTagAccumulator, longest, new,
  needles, find_next_tag, hold_position, hold_partial_tail, finish, drain, drain_resolved, feed,
  flush,
}
use llm_proxy.ResponseNormalize.Conservation.{Joins}
use llm_proxy.ResponseNormalize.Chunks.{feeds, joined, feeds-Joins}
use llm_proxy.ResponseNormalize.Plain.{has_angle, feed-plain, builtin-HasAngles}
use llm_proxy.ResponseNormalize.Message.{
  feed_events, extract_think_tags, ResponseMessage, fold_message_reasoning, normalize_message,
  normalize_chat_response,
}
use llm_proxy.ResponseNormalize.Message.Laws.{normalize_chat_response-plain}
use Prim.Native.String.{len}

abbrev halves : List String
halves = "a<th" ∷ "ink>b</think>c<" ∷ []

abbrev shown : Option (ThinkTagAccumulator × List ThinkEvent) → Option (String × List ThinkEvent)
shown none = none
shown (some (acc, events)) = some (acc.held, events)

-- The open tag is recognised across the two chunks; the last "<" is held.
two_chunks :
    shown (feeds (new builtin_think_pairs) halves)
    ≡ some ("<", text "a" ∷ pending ∷ reasoning "b" ∷ text "c" ∷ pending ∷ [])
unfolding feeds feed drain_resolved drain find_next_tag needles finish hold_partial_tail
    hold_position new
two_chunks = refl

one_block : extract_think_tags "x<thinking>y</thinking>z" builtin_think_pairs ≡ (some "y", "xz")
unfolding extract_think_tags feed_events feed drain_resolved drain find_next_tag needles finish
    hold_partial_tail hold_position flush new
one_block = refl

-- An unclosed block that ends in a held "<" gets a line break that was not in the content.
held_break : extract_think_tags "<think>ab<" builtin_think_pairs ≡ (some "ab\n<", "")
unfolding extract_think_tags feed_events feed drain_resolved drain find_next_tag needles finish
    hold_partial_tail hold_position flush new
held_break = refl

feeds-Joins_example :
    (r : ThinkTagAccumulator × List ThinkEvent) × (feeds (new builtin_think_pairs) halves ≡ some r)
    × Joins builtin_think_pairs (joined halves) r.1 r.0.held
    × (len r.0.held ≤ longest builtin_think_pairs - 1)
feeds-Joins_example = feeds-Joins builtin_think_pairs halves

feed-plain_example :
    feed (new builtin_think_pairs) "1 > 0" ≡ some (new builtin_think_pairs, text "1 > 0" ∷ [])
unfolding new has_angle
feed-plain_example = feed-plain (new builtin_think_pairs) "1 > 0" builtin-HasAngles refl refl

abbrev answered : ResponseMessage ℕ ℕ
answered = record {
  role = "assistant";
  content = some "42";
  tool_calls = none;
  reasoning_content = some "";
  reasoning_alias = some "first";
  reasoning_text = none;
  thinking = some (string "second");
}

aliases_folded : normalize_message answered ≡ record answered {
  reasoning_content = some "first\nsecond";
  reasoning_alias = none;
  thinking = none;
}
unfolding normalize_message fold_message_reasoning extract_think_tags feed_events feed
    drain_resolved drain find_next_tag needles finish hold_partial_tail hold_position flush new
aliases_folded = refl

normalize_chat_response-plain_example :
    (normalize_chat_response (answered ∷ []) ≡ map fold_message_reasoning (answered ∷ []))
    × (normalize_chat_response (normalize_chat_response (answered ∷ []))
        ≡ normalize_chat_response (answered ∷ []))
unfolding has_angle
normalize_chat_response-plain_example = normalize_chat_response-plain (answered ∷ []) (refl, tt)
