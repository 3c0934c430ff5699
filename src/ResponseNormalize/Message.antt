-- ===== src/ResponseNormalize/Message.antt =====
-- src/response_normalize.rs, the pass over a whole response: reasoning aliases, and think tags
-- taken out of a finished content. Of the response's fields (src/types.rs) only the messages
-- matter.
pub mod Laws
use llm_proxy.Prelude.{
  String, Bool, true, false, not, ◌&&◌, ◌||◌, Option, none, some, List, [], ◌∷◌, ltb, if◌then◌else◌,
  get_or, take, is_empty, any, ◌==◌, pair_eq, string_eq, nat_eq,
}
use llm_proxy.Json.{Value, string}
use llm_proxy.ResponseNormalize.{
  ThinkEvent, reasoning, text, pending, Pairs, builtin_think_pairs, ThinkTagAccumulator, new,
  in_reasoning?, feed, flush,
}
use Prim.Native.String.{◌++◌ as ◌⧺◌}

-- `feed`, which always answers (Conservation).
unfoldable pub feed_events : ThinkTagAccumulator → String → ThinkTagAccumulator × List ThinkEvent
feed_events acc delta = get_or (feed acc delta) (acc, [])

record Parts : Type 0 where
  reasons : String
  answer : String
  saw_reasoning : Bool

abbrev add_event : Parts → ThinkEvent → Parts
add_event p (reasoning s) =
    let joined = if not (p.reasons == "") && not (s == "") then p.reasons ⧺ "\n" else p.reasons in
    record p { reasons = joined ⧺ s; saw_reasoning = true }
add_event p (text s) = record p { answer = p.answer ⧺ s }
add_event p pending = p

abbrev add_events : Parts → List ThinkEvent → Parts
add_events p [] = p
add_events p (e ∷ events) = add_events (add_event p e) events

-- `reasoning.push('\n')` in front of more reasoning.
abbrev broken : String → String
broken s = if s == "" then s else s ⧺ "\n"

-- What is still held at the end.
abbrev add_flushed : Bool → String → Parts → Parts
add_flushed thinking flushed p =
    if flushed == ""
    then p
    else if thinking
    then record p { reasons = broken p.reasons ⧺ flushed; saw_reasoning = true }
    else record p { answer = p.answer ⧺ flushed }

abbrev no_parts : Parts
no_parts = record { reasons = ""; answer = ""; saw_reasoning = false }

abbrev extracted : ThinkTagAccumulator × List ThinkEvent → Option String × String
extracted (acc, events) =
    let p = add_flushed (in_reasoning? acc) (flush acc).1 (add_events no_parts events) in
    (if p.saw_reasoning || ltb 0 acc.tag_count then some p.reasons else none, p.answer)

unfoldable pub extract_think_tags : String → Pairs → Option String × String
unfolding flush
extract_think_tags content pairs = extracted (feed_events (new pairs) content)

-- `slot.take().filter(|s| !s.is_empty())`: what is taken, since the slot is empty afterwards.
abbrev pub take_nonempty : Option String → Option String
take_nonempty none = none
take_nonempty (some s) = if s == "" then none else some s

abbrev pub merge_nonempty : Option String → Option String → Option String
merge_nonempty none none = none
merge_nonempty (some a) none = some a
merge_nonempty none (some b) = some b
merge_nonempty (some a) (some b) =
    if a == "" then some b else if b == "" then some a else some (a ⧺ ("\n" ⧺ b))

-- `parts.push` and the fold over the parts.
abbrev merge_part : Option String → Option String → Option String
merge_part acc none = acc
merge_part acc (some s) = merge_nonempty acc (some s)

-- `ResponseMessage`; tool calls are of any type `T`.
pub record ResponseMessage (N T : Type 0) : Type 0 where
  pub role : String
  pub content : Option String
  pub tool_calls : Option T
  pub reasoning_content : Option String
  pub reasoning_alias : Option String
  pub reasoning_text : Option String
  pub thinking : Option (Value N)

module _ {N : Type 0} where
  -- A `thinking` that is a text and not empty is taken; anything else stays.
  abbrev thinking_part : Option (Value N) → Option String
  thinking_part (some (string s)) = if s == "" then none else some s
  thinking_part (some v) = none
  thinking_part none = none

  abbrev thinking_rest : Option (Value N) → Option (Value N)
  thinking_rest (some (string s)) = if s == "" then some (string s) else none
  thinking_rest (some v) = some v
  thinking_rest none = none

module _ {N T : Type 0} where
  unfoldable pub fold_message_reasoning : ResponseMessage N T → ResponseMessage N T
  fold_message_reasoning msg = record msg {
    reasoning_content =
        merge_part
          (merge_part
            (merge_part (merge_part none (take_nonempty msg.reasoning_content))
              (take_nonempty msg.reasoning_alias))
            (take_nonempty msg.reasoning_text))
          (thinking_part msg.thinking);
    reasoning_alias = none;
    reasoning_text = none;
    thinking = thinking_rest msg.thinking;
  }

  abbrev with_extracted : ResponseMessage N T → Option String × String → ResponseMessage N T
  with_extracted msg (extracted_, cleaned) = record msg {
    content = some cleaned;
    reasoning_content = merge_part msg.reasoning_content (take_nonempty extracted_);
  }

  abbrev normalize_content : ResponseMessage N T → Option String → ResponseMessage N T
  normalize_content msg none = msg
  normalize_content msg (some content_) =
      if content_ == ""
      then msg
      else with_extracted msg (extract_think_tags content_ builtin_think_pairs)

  -- One round of the loop over the choices.
  unfoldable pub normalize_message : ResponseMessage N T → ResponseMessage N T
  unfolding fold_message_reasoning extract_think_tags
  normalize_message msg = normalize_content (fold_message_reasoning msg) msg.content

  unfoldable pub normalize_chat_response : List (ResponseMessage N T) → List (ResponseMessage N T)
  normalize_chat_response [] = []
  normalize_chat_response (m ∷ ms) = normalize_message m ∷ normalize_chat_response ms
