-- ===== src/Stream/Examples.antt =====
-- A relay over toy JSON, in which a text is an object whose only field is its type.
use llm_proxy.Prelude.{
  ℕ, String, ◌≡◌, refl, true, false, none, some, List, [], ◌∷◌, if◌then◌else◌, length, ◌==◌,
  pair_eq, string_eq, nat_eq,
}
use llm_proxy.Stream.{Json, role, done_marker, Relay, RelayState, new, delta_of, bytes, RelayStream}
use llm_proxy.Stream.Lines.{take_line, HasNoNewline, feed_bytes, feed_each, feed_bytes-eq-feed_each}
use llm_proxy.Stream.Anthropic.{strip_data, message_stop, process_event, process_line, feed}

abbrev start_of : RelayState
start_of = new "id" 7 "m"

-- A line that starts with "s" stops the message, any other is a ping.
abbrev decode_mark : List ℕ → String
decode_mark [] = ""
decode_mark (b ∷ bs) = if b == 115 then "data: message_stop" else "data: ping"

abbrev letters : Json
letters = record {
  Value = String;
  from_str = λ s. some s;
  get = λ v name. if name == "type" then some v else none;
  as_str = λ v. some v;
  as_u64 = λ v. none;
  as_bool = λ v. none;
  as_array = λ v. none;
  decode = decode_mark;
}

abbrev line : Relay → String → Relay
line = process_line letters

abbrev feed_mark : RelayState → List ℕ → RelayState
feed_mark = feed letters

stopped : (feed_mark start_of (112 ∷ 10 ∷ 115 ∷ 10 ∷ [])).relay.done ≡ true
unfolding feed feed_bytes process_line process_event message_stop take_line new strip_data
stopped = refl

one_frame : length (feed_mark start_of (112 ∷ 10 ∷ 115 ∷ 10 ∷ [])).relay.pending ≡ 1
unfolding feed feed_bytes process_line process_event message_stop take_line new strip_data
one_frame = refl

-- A text delta that reads "assistant" is sent as the role, and its text is lost.
role_delta : delta_of "assistant" false ≡ role
role_delta = refl

abbrev at_end : RelayStream
at_end = record { state = start_of; upstream = []; upstream_done = false }

abbrev closing : RelayStream
closing = record {
  state = record {
    relay = record start_of.relay { pending = done_marker ∷ []; done = true };
    buffer = [];
  };
  upstream = bytes (115 ∷ []) ∷ [];
  upstream_done = false;
}

-- A line that an earlier chunk began ends in this one.
abbrev begun : RelayState
begun = record start_of { buffer = 115 ∷ [] }

feed_bytes-eq-feed_each_example :
    (feed_bytes decode_mark line begun (10 ∷ 112 ∷ [])
      ≡ some (feed_each decode_mark line begun (10 ∷ 112 ∷ [])))
    × HasNoNewline (feed_each decode_mark line begun (10 ∷ 112 ∷ [])).buffer
unfolding new
feed_bytes-eq-feed_each_example =
    feed_bytes-eq-feed_each decode_mark line begun (10 ∷ 112 ∷ []) refl
