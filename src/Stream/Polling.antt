-- ===== src/Stream/Polling.antt =====
-- What a client of a relay reads, poll by poll.
use llm_proxy.Prelude.{
  ℕ, zero, suc, ◌≡◌, refl, ap, true, false, List, [], ◌∷◌, ◌++◌, map, length, pair_eq, string_eq,
  nat_eq,
}
use llm_proxy.Stream.{
  Frame, done_marker, RelayState, Poll, ready, ended, RelayStream, with_pending, poll_next,
}

module _ (feed : RelayState → List ℕ → RelayState) where
  -- The answers to the next polls.
  unfoldable pub polls : ℕ → RelayStream → List Poll
  polls zero s = []
  polls (suc n) s = let (s', p) = poll_next feed s in p ∷ polls n s'

  -- Once the relay is done it hands out the pending frames in their order and ends, and reads
  -- nothing more from the upstream; it adds no `DONE` marker.
  pub polls-done :
      (s : RelayStream) (fs : List Frame)
      → s.state.relay.done ≡ true
      → s.state.relay.pending ≡ fs
      → polls (suc (length fs)) s ≡ map ready fs ++ ended ∷ []
  unfolding polls poll_next
  polls-done s [] d p = rw (p, d) refl
  polls-done s (f ∷ fs) d p = rw p (
      ap (λ ps. ready f ∷ ps) (polls-done (record s { state = with_pending s.state fs }) fs d refl))

  -- The fault at the end of an upstream that sent no closing event: with nothing pending, the
  -- `DONE` marker is handed out twice.
  pub polls-eof :
      (s : RelayStream)
      → s.state.relay.done ≡ false
      → s.state.relay.pending ≡ []
      → s.upstream ≡ []
      → s.upstream_done ≡ false
      → polls 3 s ≡ ready done_marker ∷ ready done_marker ∷ ended ∷ []
  unfolding polls poll_next
  polls-eof s d p u n = rw (p, d, n, u) refl
