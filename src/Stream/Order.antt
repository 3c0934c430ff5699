-- ===== src/Stream/Order.antt =====
-- Frames are only added behind the pending ones.
use llm_proxy.Prelude.{
  ◌≤◌, String, ◌≡◌, refl, sym, Bool, true, false, Option, none, some, List, [], ◌∷◌, ◌++◌,
  append-nil, arith, if◌then◌else◌, length, ◌==◌, pair_eq, string_eq, nat_eq,
}
use llm_proxy.Stream.{Json, Frame, Relay}
use llm_proxy.Stream.Anthropic.{
  nonempty_or, strip_data, text_field, message_start, content_block_delta, message_delta,
  message_stop, process_event, process_parsed, process_data, process_line,
}

-- `r'` holds the frames of `r` and then at most one more, and is done if `r` was.
pub record Appends (r r' : Relay) : Type 0 where
  pub added : List Frame
  pub at_most_one : length added ≤ 1
  pub behind : r'.pending ≡ r.pending ++ added
  pub closes : r.done ≡ true → r'.done ≡ true

same : (r : Relay) → Appends r r
same r = record {
  added = [];
  at_most_one = omega arith;
  behind = sym (append-nil r.pending);
  closes = λ h. h;
}

one :
    (r r' : Relay) (f : Frame)
    → r'.pending ≡ r.pending ++ f ∷ []
    → (r.done ≡ true → r'.done ≡ true)
    → Appends r r'
one r r' f p d = record { added = f ∷ []; at_most_one = omega arith; behind = p; closes = d }

either : (b : Bool) {r x y : Relay} → Appends r x → Appends r y → Appends r (if b then x else y)
either true h k = h
either false h k = k

module _ (j : Json) where
  message_start-Appends : (r : Relay) (value : j.Value) → Appends r (message_start j r value)
  unfolding message_start
  message_start-Appends r value = one r _ _ refl (λ h. h)

  delta-Appends : (r : Relay) (value : j.Value) → Appends r (content_block_delta j r value)
  unfolding content_block_delta
  delta-Appends r value = one r _ _ refl (λ h. h)

  message_delta-Appends : (r : Relay) (value : j.Value) → Appends r (message_delta j r value)
  unfolding message_delta
  message_delta-Appends r value = one r _ _ refl (λ h. h)

  message_stop-Appends : (r : Relay) → Appends r (message_stop j r)
  unfolding message_stop
  message_stop-Appends r = one r _ _ refl (λ h. refl)

  process_event-Appends : (r : Relay) (value : j.Value) → Appends r (process_event j r value)
  unfolding process_event
  process_event-Appends r value =
      either (ev_type == "message_start") (message_start-Appends r value) (
        either (ev_type == "content_block_delta") (delta-Appends r value) (
          either (ev_type == "message_delta") (message_delta-Appends r value)
            (either (ev_type == "message_stop") (message_stop-Appends r) (same r))))
    where
      ev_type : String
      ev_type = nonempty_or (text_field j (j.get value "type"))

  process_parsed-Appends : (r : Relay) (o : Option j.Value) → Appends r (process_parsed j r o)
  process_parsed-Appends r none = same r
  process_parsed-Appends r (some value) = process_event-Appends r value

  process_data-Appends : (r : Relay) (o : Option String) → Appends r (process_data j r o)
  process_data-Appends r none = same r
  process_data-Appends r (some data_) = either _ (same r) (process_parsed-Appends r _)

  -- Whatever a line of Anthropic's stream holds, it adds at most one frame, behind the pending
  -- ones, and a relay that is done stays done.
  pub process_line-Appends : (r : Relay) (line : String) → Appends r (process_line j r line)
  unfolding process_line
  process_line-Appends r line = process_data-Appends r (strip_data line)
