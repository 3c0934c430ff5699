-- ===== src/StreamNormalize/Marker.antt =====
-- What a line of the stream does to the `DONE` marker's flag and to the other flags.
use llm_proxy.Prelude.{
  ℕ, String, ◌≡◌, refl, ◌∙◌, inl, inr, Bool, true, false, ◌||◌, Option, none, some, List, [], ◌∷◌,
  ◌++◌, arith, if◌then◌else◌, Bool-cases, any, ◌==◌, pair_eq, string_eq, nat_eq,
}
use llm_proxy.Prelude.Text.{trim_start, strip_prefix}
use llm_proxy.Json.{Value, null, boolean, number, string, array, object, Fields}
use llm_proxy.ResponseNormalize.{ThinkTagAccumulator, emit}
use llm_proxy.StreamNormalize.Delta.{rewrite_chunk_value}
use llm_proxy.StreamNormalize.{
  Codec, Frame, as_it_came, sse_line, data_line, done_marker, NormalizingStream, text_of_line,
  line_done, rewritten, transform_json, transform_data, transform_text, transform_line,
  process_bytes, process_pending,
}

abbrev pub is_done : Frame → Bool
is_done (as_it_came bs) = false
is_done (sse_line s) = false
is_done (data_line s) = false
is_done done_marker = true

abbrev pub has_done : List Frame → Bool
has_done = any is_done

abbrev pub opt_frames : Option Frame → List Frame
opt_frames none = []
opt_frames (some f) = f ∷ []

-- From `s` to the state of `r` the marker is counted, and the rest of the loop's flags stay.
pub record Kept (s : NormalizingStream) (r : NormalizingStream × Option Frame) : Type 0 where
  pub counted : r.0.seen_done ≡ (s.seen_done || has_done (opt_frames r.1))
  pub same_completed : r.0.completed ≡ s.completed
  pub same_eof : r.0.inner_eof ≡ s.inner_eof

pub quiet :
    (s s' : NormalizingStream) (o : Option Frame)
    → s'.seen_done ≡ s.seen_done
    → has_done (opt_frames o) ≡ false
    → s'.completed ≡ s.completed
    → s'.inner_eof ≡ s.inner_eof
    → Kept s (s', o)
quiet s s' o a b c d = record { counted = ground (arith, a); same_completed = c; same_eof = d }

either :
    (b : Bool) {s : NormalizingStream} {x y : NormalizingStream × Option Frame}
    → Kept s x
    → Kept s y
    → Kept s (if b then x else y)
either true h k = h
either false h k = k

Kept-trans :
    (s t : NormalizingStream) (r : NormalizingStream × Option Frame)
    → Kept s (t, none)
    → Kept t r
    → Kept s r
Kept-trans s t r h k =
    let a = h.counted in
    let b = k.counted in
    record {
      counted = ground arith;
      same_completed = k.same_completed ∙ h.same_completed;
      same_eof = k.same_eof ∙ h.same_eof;
    }

module _ {N : Type 0} (codec : Codec N) where
  rewritten-Kept :
      (s : NormalizingStream) (line : List ℕ) (payload : String)
      (r : ThinkTagAccumulator × (Fields N × Bool))
      → Kept s (rewritten codec s line payload r)
  rewritten-Kept s line payload (acc', (chunk, emit)) =
      either emit
        (elim (Bool-cases (codec.to_string (object chunk) == payload)) [
          | inl e ↦ rw e (quiet s _ _ refl refl refl refl)
          | inr e ↦ rw e (quiet s _ _ refl refl refl refl)
        ])
        (quiet s _ _ refl refl refl refl)

  transform_json-Kept :
      (s : NormalizingStream) (line : List ℕ) (text_ payload : String) (o : Option (Value N))
      → Kept s (transform_json codec s line text_ payload o)
  transform_json-Kept s line text_ payload none = quiet s _ _ refl refl refl refl
  transform_json-Kept s line text_ payload (some null) = quiet s _ _ refl refl refl refl
  transform_json-Kept s line text_ payload (some (boolean b)) = quiet s _ _ refl refl refl refl
  transform_json-Kept s line text_ payload (some (number n)) = quiet s _ _ refl refl refl refl
  transform_json-Kept s line text_ payload (some (string v)) = quiet s _ _ refl refl refl refl
  transform_json-Kept s line text_ payload (some (array v)) = quiet s _ _ refl refl refl refl
  transform_json-Kept s line text_ payload (some (object chunk)) =
      rewritten-Kept s line payload (rewrite_chunk_value s.acc chunk)

  transform_data-Kept :
      (s : NormalizingStream) (line : List ℕ) (text_ : String) (o : Option String)
      → Kept s (transform_data codec s line text_ o)
  transform_data-Kept s line text_ none = quiet s _ _ refl refl refl refl
  transform_data-Kept s line text_ (some payload) =
      either (trim_start payload == "[DONE]")
        (record { counted = ground arith; same_completed = refl; same_eof = refl })
        (transform_json-Kept s line text_ (trim_start payload) _)

  transform_text-Kept :
      (s : NormalizingStream) (line : List ℕ) (o : Option String)
      → Kept s (transform_text codec s line o)
  transform_text-Kept s line none = quiet s _ _ refl refl refl refl
  transform_text-Kept s line (some t) =
      either (text_of_line t == "") (quiet s _ _ refl refl refl refl)
        (transform_data-Kept s line (text_of_line t) (strip_prefix "data:" (text_of_line t)))

  line_done-Kept :
      (s : NormalizingStream) (rest : List ℕ) (now later : NormalizingStream × Option Frame)
      → Kept s now
      → (Kept s (now.0, none) → Kept s later)
      → Kept s (line_done rest now later)
  line_done-Kept s rest (t, some f) later h k = record {
    counted = h.counted;
    same_completed = h.same_completed;
    same_eof = h.same_eof;
  }
  line_done-Kept s rest (t, none) later h k = k h

  process_bytes-Kept :
      (bs line : List ℕ) (s : NormalizingStream) → Kept s (process_bytes codec s line bs)
  unfolding process_bytes transform_line
  process_bytes-Kept [] line s = quiet s _ _ refl refl refl refl
  process_bytes-Kept (b ∷ bs) line s =
      either (b == 10)
        (line_done-Kept s bs _ _
          (transform_text-Kept s (line ++ b ∷ []) (codec.from_utf8 (line ++ b ∷ [])))
          (λ h. Kept-trans s _ _ h (process_bytes-Kept bs [] _)))
        (process_bytes-Kept bs (line ++ b ∷ []) s)

  pub process_pending-Kept : (s : NormalizingStream) → Kept s (process_pending codec s)
  unfolding process_pending
  process_pending-Kept s = process_bytes-Kept s.pending [] s
