-- ===== src/Stream.antt =====
-- src/provider/anthropic_stream.rs and src/provider/gemini_stream.rs: the relays from the
-- upstream's events to OpenAI chunks. The two files declare the same state, `emit_chunk`,
-- `next_chunk` and `poll_next`, which are modelled once; `serde_json` is the interface `Json`.
pub mod Lines
pub mod Anthropic
pub mod Gemini
pub mod Order
pub mod Polling
mod Examples
use llm_proxy.Prelude.{
  ℕ, ◌+◌, ◌%◌, ◌^◌, String, Bool, true, false, ◌||◌, Option, none, some, List, [], ◌∷◌, ◌++◌,
  if◌then◌else◌, ◌==◌, pair_eq, string_eq, nat_eq,
}
use llm_proxy.AppError.{AppError}

-- `serde_json::Value`, and `from_utf8(line).unwrap_or("").trim()` of the line's bytes.
pub record Json : Type 1 where
  pub Value : Type 0
  pub from_str : String → Option Value
  pub get : Value → String → Option Value
  pub as_str : Value → Option String
  pub as_u64 : Value → Option ℕ
  pub as_bool : Value → Option Bool
  pub as_array : Value → Option (List Value)
  pub decode : List ℕ → String

pub data Delta : Type 0 where
  role : Delta
  content : String → Delta
  reasoning_content : String → Delta
  no_delta : Delta

pub record Usage : Type 0 where
  pub completion_tokens : ℕ
  pub prompt_tokens : ℕ
  pub total_tokens : ℕ

-- A `chat.completion.chunk` with its only choice.
pub record Chunk : Type 0 where
  pub id : String
  pub created : ℕ
  pub model : String
  pub index : ℕ
  pub delta : Delta
  pub finish_reason : Option String
  pub usage : Option Usage

-- What is sent as `data: …`: a chunk, or the `DONE` marker.
pub data Frame : Type 0 where
  chunk : Chunk → Frame
  done_marker : Frame

-- `RelayState` without its buffer. Anthropic's relay leaves `prompt_tokens` at 0.
pub record Relay : Type 0 where
  pub message_id : String
  pub model : String
  pub created : ℕ
  pub content_idx : ℕ
  pub streamed_tokens : ℕ
  pub prompt_tokens : ℕ
  pub finish_reason : Option String
  pub pending : List Frame
  pub done : Bool

pub record RelayState : Type 0 where
  pub relay : Relay
  pub buffer : List ℕ

-- The id (a fresh UUID) and the time are made by the caller.
unfoldable pub new : String → ℕ → String → RelayState
new message_id created model = record {
  relay = record {
    message_id = message_id;
    model = model;
    created = created;
    content_idx = 0;
    streamed_tokens = 0;
    prompt_tokens = 0;
    finish_reason = none;
    pending = [];
    done = false;
  };
  buffer = [];
}

abbrev pub delta_of : String → Bool → Delta
delta_of text reasoning =
    if text == "assistant"
    then role
    else if reasoning
    then reasoning_content text
    else if text == ""
    then no_delta
    else content text

-- The chunk is a JSON value, which `to_string` always prints.
unfoldable pub emit_chunk : Relay → String → Option String → Bool → Frame
emit_chunk r text finish_reason reasoning = chunk (record {
  id = r.message_id;
  created = r.created;
  model = r.model;
  index = r.content_idx;
  delta = delta_of text reasoning;
  finish_reason = finish_reason;
  usage = none;
})

-- The closing chunk with the usage; the total is a `u32`.
unfoldable pub usage_chunk : Relay → Frame
usage_chunk r = chunk (record {
  id = r.message_id;
  created = r.created;
  model = r.model;
  index = r.content_idx;
  delta = no_delta;
  finish_reason = r.finish_reason;
  usage = some (record {
    completion_tokens = r.streamed_tokens;
    prompt_tokens = r.prompt_tokens;
    total_tokens = (r.prompt_tokens + r.streamed_tokens) % 2 ^ 32;
  });
})

abbrev pub push : Relay → Frame → Relay
push r f = record r { pending = r.pending ++ f ∷ [] }

-- What the upstream answers to a poll; after the last item it has ended.
pub data Item : Type 0 where
  bytes : List ℕ → Item
  fails : AppError → Item
  waits : Item

-- `Poll<Option<Result<Bytes, AppError>>>`
pub data Poll : Type 0 where
  ready : Frame → Poll
  ready_err : AppError → Poll
  ended : Poll
  pending_ : Poll

pub record RelayStream : Type 0 where
  pub state : RelayState
  pub upstream : List Item
  pub upstream_done : Bool

abbrev with_pending : RelayState → List Frame → RelayState
with_pending s fs = record s { relay = record s.relay { pending = fs } }

-- The mutex is never poisoned: no code panics while it is held.
module _ (feed : RelayState → List ℕ → RelayState) where
  -- After the upstream's bytes were fed.
  abbrev poll_fed : RelayStream → List Frame → RelayStream × Poll
  poll_fed s [] = (s, pending_)
  poll_fed s (f ∷ fs) = (record s { state = with_pending s.state fs }, ready f)

  -- Nothing was pending when the upstream ended.
  abbrev poll_end : RelayStream → RelayStream × Poll
  poll_end s = if s.state.relay.done then (s, ended) else (
    record s {
      state = record s.state { relay = record (push s.state.relay done_marker) { done = true } };
    },
    ready done_marker,
  )

  abbrev poll_upstream : RelayStream → List Item → RelayStream × Poll
  poll_upstream s [] = poll_end (record s { upstream_done = true })
  poll_upstream s (bytes bs ∷ items) =
      let state' = feed s.state bs in
      poll_fed (record s { state = state'; upstream = items }) state'.relay.pending
  poll_upstream s (fails e ∷ items) =
      (record s { upstream = items; upstream_done = true }, ready_err e)
  poll_upstream s (waits ∷ items) = (record s { upstream = items }, pending_)

  abbrev poll_pending : RelayStream → List Frame → RelayStream × Poll
  poll_pending s (f ∷ fs) = (record s { state = with_pending s.state fs }, ready f)
  poll_pending s [] =
      if s.state.relay.done || s.upstream_done then (s, ended) else poll_upstream s s.upstream

  unfoldable pub poll_next : RelayStream → RelayStream × Poll
  poll_next s = poll_pending s s.state.relay.pending
