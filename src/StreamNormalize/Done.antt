-- ===== src/StreamNormalize/Done.antt =====
-- The `DONE` marker: it is sent once the stream has ended, and `seen_done` says whether it was.
use llm_proxy.Prelude.{
  ℕ, zero, suc, String, ◌≡◌, refl, sym, ap, ◌∙◌, subst, inl, inr, Bool, true, false, not, ◌||◌,
  Option, none, some, List, [], ◌∷◌, ◌++◌, arith, ltb, if◌then◌else◌, Bool-cases, any-append, ◌==◌,
  pair_eq, string_eq, nat_eq,
}
use llm_proxy.Stream.{Item, bytes, fails, waits}
use llm_proxy.ResponseNormalize.{in_reasoning?, flush}
use llm_proxy.StreamNormalize.{
  Codec, Frame, NormalizingStream, new_stream, Poll, ready, ready_err, ended, pending_, closed_line,
  process_pending, assemble_drained, flush_eof, ready_or_ended, poll_flush, after_pending, poll_eof,
  poll_loop, poll_next, polls,
}
use llm_proxy.StreamNormalize.Marker.{is_done, has_done, Kept, quiet, process_pending-Kept}

abbrev pub frames_of : Poll → List Frame
frames_of (ready fs) = fs
frames_of (ready_err e) = []
frames_of ended = []
frames_of pending_ = []

abbrev pub all_frames : List Poll → List Frame
all_frames [] = []
all_frames (p ∷ ps) = frames_of p ++ all_frames ps

-- After a poll `seen_done` counts the marker, and the stream completes only once it was sent.
record Told (s : NormalizingStream) (r : NormalizingStream × Poll) : Type 0 where
  counts : r.0.seen_done ≡ (s.seen_done || has_done (frames_of r.1))
  closes : s.completed ≡ false → r.0.completed ≡ true → r.0.seen_done ≡ true

if_poll :
    (b : Bool) {s : NormalizingStream} {x y : NormalizingStream × Poll}
    → (b ≡ true → Told s x)
    → (b ≡ false → Told s y)
    → Told s (if b then x else y)
if_poll true h k = h refl
if_poll false h k = k refl

or_false : (b : Bool) → b ≡ (b || false)
or_false b = ground arith

or_append :
    (b : Bool) (fs gs : List Frame)
    → ((b || has_done fs) || has_done gs) ≡ (b || has_done (fs ++ gs))
or_append b fs gs = ground (arith, any-append is_done fs gs)

counted_once : (x y z : Bool) → y ≡ (x || false) → z ≡ not y → true ≡ (x || z)
counted_once x y z a b = ground arith

Told-after :
    (s t t' : NormalizingStream) (r : NormalizingStream × Poll)
    → Kept s (t, none)
    → t'.seen_done ≡ t.seen_done
    → t'.completed ≡ t.completed
    → Told t' r
    → Told s r
Told-after s t t' r k a b h =
    let e = k.counted in
    let f = k.same_completed in
    let g = h.counts in record { counts = ground arith; closes = λ c d. h.closes (b ∙ (f ∙ c)) d }

silent :
    (s t t' : NormalizingStream) (p : Poll)
    → Kept s (t, none)
    → has_done (frames_of p) ≡ false
    → t'.seen_done ≡ t.seen_done
    → t'.completed ≡ t.completed
    → Told s (t', p)
silent s t t' p k n a b =
    let e = k.counted in
    let f = k.same_completed in
    record { counts = ground arith; closes = λ c d. absurd (ground arith) }

module _ {N : Type 0} (codec : Codec N) where
  drained-done :
      (flushed : String) (r seen : Bool)
      → has_done (assemble_drained codec flushed r seen) ≡ not seen
  unfolding assemble_drained
  drained-done flushed r true = elim (Bool-cases (flushed == "")) [
    | inl e ↦ rw e refl
    | inr e ↦ rw e refl
  ]
  drained-done flushed r false = elim (Bool-cases (flushed == "")) [
    | inl e ↦ rw e refl
    | inr e ↦ rw e refl
  ]

  sent-done : (fs : List Frame) → has_done (frames_of (ready_or_ended codec fs)) ≡ has_done fs
  sent-done [] = refl
  sent-done (f ∷ fs) = refl

  flush-Told : (s t : NormalizingStream) → Kept s (t, none) → Told s (poll_flush codec t)
  unfolding flush_eof flush
  flush-Told s t k =
      let a = k.counted in
      let fs = (flush_eof codec (record t { completed = true })).1 in
      let b = sent-done fs in
      let c =
        drained-done (flush t.acc).1 (in_reasoning? t.acc || ltb 0 t.acc.tag_count) t.seen_done in
      record { counts = counted_once s.seen_done t.seen_done _ a (b ∙ c); closes = λ h d. refl }

  after_pending-Told :
      (s : NormalizingStream) (r : NormalizingStream × Option Frame) (items : List Item)
      (next : NormalizingStream × Poll)
      → Kept s r
      → (Kept s (r.0, none) → Told s next)
      → Told s (after_pending codec r items next)
  after_pending-Told s (t, some f) items next k h = record {
    counts = k.counted;
    closes = λ c d. let e = k.same_completed in absurd (ground arith);
  }
  after_pending-Told s (t, none) items next k h =
      if_poll t.inner_eof (λ e. flush-Told s t k) (λ e. h k)

  poll_eof-Told : (s t : NormalizingStream) → Kept s (t, none) → Told s (poll_eof codec t)
  poll_eof-Told s t k =
      let t' : NormalizingStream = record t {
        inner = [];
        inner_eof = true;
        pending = closed_line t.pending;
      } in
      Told-after s t t' _ k refl refl (
        after_pending-Told t' (process_pending codec t') [] (t', ended)
          (process_pending-Kept codec t')
          (λ h. silent t' t' t' ended (quiet t' t' none refl refl refl refl) refl refl refl))

  poll_loop-Told : (items : List Item) (s : NormalizingStream) → Told s (poll_loop codec s items)
  unfolding poll_loop
  poll_loop-Told [] s =
      after_pending-Told s (process_pending codec s) [] _ (process_pending-Kept codec s)
        (poll_eof-Told s (process_pending codec s).0)
  poll_loop-Told (bytes bs ∷ items) s =
      after_pending-Told s (process_pending codec s) (bytes bs ∷ items) _
        (process_pending-Kept codec s)
        (λ k. Told-after s (process_pending codec s).0 _ _ k refl refl (poll_loop-Told items _))
  poll_loop-Told (fails e ∷ items) s =
      after_pending-Told s (process_pending codec s) (fails e ∷ items) _
        (process_pending-Kept codec s)
        (λ k. silent s (process_pending codec s).0 _ (ready_err e) k refl refl refl)
  poll_loop-Told (waits ∷ items) s =
      after_pending-Told s (process_pending codec s) (waits ∷ items) _
        (process_pending-Kept codec s)
        (λ k. silent s (process_pending codec s).0 _ pending_ k refl refl refl)

  poll_next-Told : (s : NormalizingStream) → s.completed ≡ false → Told s (poll_next codec s)
  unfolding poll_next
  poll_next-Told s h =
      if_poll s.completed (λ e. absurd (ground arith)) (λ e. poll_loop-Told s.inner s)

  poll_next_completed :
      (s : NormalizingStream) → s.completed ≡ true → poll_next codec s ≡ (s, ended)
  unfolding poll_next
  poll_next_completed s h = rw h refl

  -- What holds of a stream that `DONE` was counted in, after the frames `fs`.
  abbrev Counted : Bool → NormalizingStream → List Frame → Type 0
  Counted before s fs =
      (s.seen_done ≡ (before || has_done fs)) × (s.completed ≡ true → s.seen_done ≡ true)

  poll_next-Counted :
      (s : NormalizingStream)
      → (s.completed ≡ true → s.seen_done ≡ true)
      → Counted s.seen_done (poll_next codec s).0 (frames_of (poll_next codec s).1)
  poll_next-Counted s h = elim (Bool-cases s.completed) [
    | inl e ↦
        subst (λ r. Counted s.seen_done r.0 (frames_of r.1)) (sym (poll_next_completed s e))
          (or_false s.seen_done, h)
    | inr e ↦ let t = poll_next-Told s e in (t.counts, t.closes e)
  ]

  polls-Counted :
      (n : ℕ) (s : NormalizingStream)
      → (s.completed ≡ true → s.seen_done ≡ true)
      → Counted s.seen_done (polls codec n s).0 (all_frames (polls codec n s).1)
  unfolding polls
  polls-Counted zero s h = (ground arith, h)
  polls-Counted (suc n) s h =
      let (a, b) = poll_next-Counted s h in
      let (c, d) = polls-Counted n (poll_next codec s).0 b in
      (
        c
            ∙ ap (λ x. x || has_done (all_frames (polls codec n (poll_next codec s).0).1)) a
            ∙ or_append s.seen_done (frames_of (poll_next codec s).1) _,
        d,
      )

  -- Whatever the upstream sends and however often a new stream is polled, the stream remembers
  -- exactly whether the `DONE` marker was among the frames that it handed out, and once it has
  -- completed the marker was.
  pub polls-seen_done :
      (n : ℕ) (inner : List Item)
      → ((polls codec n (new_stream inner)).0.seen_done
          ≡ has_done (all_frames (polls codec n (new_stream inner)).1))
        × ((polls codec n (new_stream inner)).0.completed ≡ true
            → has_done (all_frames (polls codec n (new_stream inner)).1) ≡ true)
  unfolding new_stream
  polls-seen_done n inner =
      let (a, b) = polls-Counted n (new_stream inner) (λ h. absurd (ground arith)) in
      (a, λ c. sym a ∙ b c)
