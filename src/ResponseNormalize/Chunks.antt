-- ===== src/ResponseNormalize/Chunks.antt =====
-- A stream of chunks, one `feed` after the other.
use llm_proxy.Prelude.{
  ◌-◌, ◌≤◌, String, ◌≡◌, refl, sym, ap, ◌∙◌, subst, Option, none, some, List, [], ◌∷◌, ◌++◌, arith,
}
use llm_proxy.Prelude.{pair_eq, string_eq, nat_eq}
use llm_proxy.Prelude.Text.{nil-append, text_append_nil, text_assoc}
use llm_proxy.ResponseNormalize.{
  ThinkEvent, Pairs, ThinkTagAccumulator, longest, new, before_events, feed,
}
use llm_proxy.ResponseNormalize.Conservation.{Joins, ends, Joins-append, Drained, feed-Drained}
use Prim.Native.String.{◌++◌ as ◌⧺◌, len}

-- The chunks of a stream, one `feed` after the other, with all the events.
unfoldable pub feeds :
    ThinkTagAccumulator → List String → Option (ThinkTagAccumulator × List ThinkEvent)
feeds acc [] = some (acc, [])
feeds acc (c ∷ cs) = elim (feed acc c) [
  | none ↦ none
  | some (acc', events) ↦ before_events events (feeds acc' cs)
]

abbrev pub joined : List String → String
joined [] = ""
joined (c ∷ cs) = c ⧺ joined cs

feeds-next :
    (acc acc' : ThinkTagAccumulator) (c : String) (cs : List String) (events : List ThinkEvent)
    → feed acc c ≡ some (acc', events)
    → feeds acc (c ∷ cs) ≡ before_events events (feeds acc' cs)
unfolding feeds
feeds-next acc acc' c cs events h = rw (h, feeds) refl

-- What the events of a run say of the chunks that were fed to it.
pub record Fed (acc : ThinkTagAccumulator) (cs : List String)
    (r : ThinkTagAccumulator × List ThinkEvent) : Type 0 where
  pub joins : Joins acc.pairs (acc.held ⧺ joined cs) r.1 r.0.held
  pub short : len acc.held ≤ acc.longest_tag - 1 → len r.0.held ≤ acc.longest_tag - 1

next-Fed :
    (acc acc' : ThinkTagAccumulator) (c : String) (cs : List String) (events : List ThinkEvent)
    (r : ThinkTagAccumulator × List ThinkEvent)
    → Drained (record acc { held = acc.held ⧺ c }) (acc', events)
    → Fed acc' cs r
    → Fed acc (c ∷ cs) (r.0, events ++ r.1)
next-Fed acc acc' c cs events r d f = record {
  joins =
      subst (λ x. Joins acc.pairs x (events ++ r.1) r.0.held) (text_assoc acc.held c (joined cs))
        (Joins-append acc.pairs (joined cs) d.joins
          (subst (λ p. Joins p (acc'.held ⧺ joined cs) r.1 r.0.held) d.same_pairs f.joins));
  short = λ h.
      let l = d.short in
      let e = d.same_longest in let k = f.short (omega (arith, l, e)) in omega (arith, k, e);
}

feeds-Fed :
    (cs : List String) (acc : ThinkTagAccumulator)
    → (r : ThinkTagAccumulator × List ThinkEvent) × (feeds acc cs ≡ some r) × Fed acc cs r
unfolding feeds
feeds-Fed [] acc = (
  (acc, []),
  refl,
  record {
    joins = subst (λ x. Joins acc.pairs x [] acc.held) (sym (text_append_nil acc.held)) ends;
    short = λ h. h;
  },
)
feeds-Fed (c ∷ cs) acc =
    let ((acc', events), e, d) = feed-Drained acc c in
    let (r, e', f) = feeds-Fed cs acc' in
    (
      (r.0, events ++ r.1),
      feeds-next acc acc' c cs events e ∙ ap (before_events events) e',
      next-Fed acc acc' c cs events r d f,
    )

-- A new accumulator, fed with any chunks, always answers. The chunks, joined, are the texts of its
-- events in their order and then the held tail, with nothing left out in between but tags of the
-- pairs; and the tail is shorter than the longest tag, or empty.
pub feeds-Joins :
    (pairs : Pairs) (cs : List String)
    → (r : ThinkTagAccumulator × List ThinkEvent) × (feeds (new pairs) cs ≡ some r)
      × Joins pairs (joined cs) r.1 r.0.held
      × (len r.0.held ≤ longest pairs - 1)
unfolding new
feeds-Joins pairs cs =
    let (r, e, f) = feeds-Fed cs (new pairs) in
    (
      r,
      e,
      subst (λ x. Joins pairs x r.1 r.0.held) (nil-append (joined cs)) f.joins,
      f.short (omega arith),
    )
