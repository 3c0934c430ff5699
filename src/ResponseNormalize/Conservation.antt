-- ===== src/ResponseNormalize/Conservation.antt =====
-- The accumulator always answers, loses nothing, invents nothing and holds back little.
use llm_proxy.Prelude.{
  ℕ, zero, suc, ◌+◌, ◌-◌, ◌≤◌, ◌<◌, String, ◌≡◌, refl, sym, ap, ◌∙◌, subst, inl, inr, false, ◌||◌,
  Option, none, some, List, [], ◌∷◌, ◌++◌, arith, Bool-cases, Option-cases, ◌==◌, eq_of_beq,
}
use llm_proxy.Prelude.{pair_eq, string_eq, nat_eq}
use llm_proxy.Prelude.Text.{len-pos, nil-append, text_append_nil, text_assoc, len-append}
use llm_proxy.ResponseNormalize.{
  ThinkEvent, reasoning, text, pending, State, in_text, in_reasoning, Pairs, ThinkTagAccumulator,
  Found, find_next_tag, held_at, hold_partial_tail, event, emit, consume, rest_pending, finish,
  before_events, drain, drain_resolved, feed,
}
use llm_proxy.ResponseNormalize.Needles.{
  IsTag, IsHit, find_next_tag-IsHit, IsSplit, hold_position-IsSplit,
}
use Prim.Native.String.{◌++◌ as ◌⧺◌, len}

-- `Joins pairs s events kept`: `s` is the texts of the events, in their order, and then `kept`,
-- with nothing but tags of the pairs in between.
pub data Joins (pairs : Pairs) : String → List ThinkEvent → String → Type 0 where
  ends : {s : String} → Joins pairs s [] s
  tags :
      {s kept : String} {events : List ThinkEvent} (t rest : String)
      → IsTag pairs t
      → s ≡ t ⧺ rest
      → Joins pairs rest events kept
      → Joins pairs s events kept
  says :
      {s kept : String} {events : List ThinkEvent} (t rest : String)
      → s ≡ t ⧺ rest
      → Joins pairs rest events kept
      → Joins pairs s (text t ∷ events) kept
  thinks :
      {s kept : String} {events : List ThinkEvent} (t rest : String)
      → s ≡ t ⧺ rest
      → Joins pairs rest events kept
      → Joins pairs s (reasoning t ∷ events) kept
  waits :
      {s kept : String} {events : List ThinkEvent}
      → Joins pairs s events kept
      → Joins pairs s (pending ∷ events) kept

module _ (pairs : Pairs) where
  event-Joins :
      (st : State) (s t rest kept : String) (events : List ThinkEvent)
      → s ≡ t ⧺ rest
      → Joins pairs rest events kept
      → Joins pairs s (event st t ∷ events) kept
  event-Joins in_text s t rest kept events e j = says t rest e j
  event-Joins in_reasoning s t rest kept events e j = thinks t rest e j

  emit-Joins :
      (st : State) (s t rest kept : String) (events : List ThinkEvent)
      → s ≡ t ⧺ rest
      → Joins pairs rest events kept
      → Joins pairs s (emit st t ++ events) kept
  emit-Joins st s t rest kept events e j = elim (Bool-cases (t == "")) [
    | inl h ↦
        let n : t ≡ "" = eq_of_beq t "" h in
        let k : s ≡ rest = e ∙ ap (λ x. x ⧺ rest) n ∙ nil-append rest in
        rw h (subst (λ x. Joins pairs x events kept) (sym k) j)
    | inr h ↦ rw h (event-Joins st s t rest kept events e j)
  ]

  rest-Joins : (s : String) → Joins pairs s (rest_pending s) s
  rest-Joins s = elim (Bool-cases (s == "")) [ inl h ↦ rw h ends | inr h ↦ rw h (waits ends) ]

  pub Joins-append :
      {s k kept : String} {events later : List ThinkEvent} (d : String)
      → Joins pairs s events k
      → Joins pairs (k ⧺ d) later kept
      → Joins pairs (s ⧺ d) (events ++ later) kept
  Joins-append d ends m = m
  Joins-append d (tags t rest i e j) m =
      tags t (rest ⧺ d) i (ap (λ x. x ⧺ d) e ∙ text_assoc t rest d) (Joins-append d j m)
  Joins-append d (says t rest e j) m =
      says t (rest ⧺ d) (ap (λ x. x ⧺ d) e ∙ text_assoc t rest d) (Joins-append d j m)
  Joins-append d (thinks t rest e j) m =
      thinks t (rest ⧺ d) (ap (λ x. x ⧺ d) e ∙ text_assoc t rest d) (Joins-append d j m)
  Joins-append d (waits j) m = waits (Joins-append d j m)

-- The answer to a call: its events join to what was held, the new tail is short, and the
-- configuration is kept.
pub record Drained (acc : ThinkTagAccumulator) (r : ThinkTagAccumulator × List ThinkEvent)
    : Type 0 where
  pub joins : Joins acc.pairs acc.held r.1 r.0.held
  pub short : len r.0.held ≤ acc.longest_tag - 1
  pub same_pairs : r.0.pairs ≡ acc.pairs
  pub same_longest : r.0.longest_tag ≡ acc.longest_tag

held_at-IsSplit :
    (m : ℕ) (s : String) (o : Option (String × String))
    → IsSplit m s o
    → IsSplit m s (some (held_at s o))
held_at-IsSplit m s none h = (sym (text_append_nil s), omega arith)
held_at-IsSplit m s (some p) h = h

hold_partial_tail-IsSplit :
    (acc : ThinkTagAccumulator)
    → IsSplit (acc.longest_tag - 1) acc.held (some (hold_partial_tail acc))
unfolding hold_partial_tail
hold_partial_tail-IsSplit acc = elim (Bool-cases (acc.held == "" || acc.longest_tag == 0)) [
  | inl h ↦ rw h (sym (text_append_nil acc.held), omega arith)
  | inr h ↦ rw h (
      held_at-IsSplit _ acc.held _ (hold_position-IsSplit acc.pairs (acc.longest_tag - 1) acc.held))
]

finish-Drained : (acc : ThinkTagAccumulator) → Drained acc (finish acc)
unfolding finish
finish-Drained acc =
    let (e, l) = hold_partial_tail-IsSplit acc in
    record {
      joins = emit-Joins acc.pairs acc.state acc.held _ _ _ _ e (rest-Joins acc.pairs _);
      short = l;
      same_pairs = refl;
      same_longest = refl;
    }

consume-Drained :
    (acc : ThinkTagAccumulator) (f : Found) (r : ThinkTagAccumulator × List ThinkEvent)
    → IsHit acc.pairs acc.held (some f)
    → Drained (consume acc f) r
    → Drained acc (r.0, emit acc.state f.before ++ r.1)
consume-Drained acc f r (i, e) d = record {
  joins =
      emit-Joins acc.pairs acc.state acc.held f.before _ _ _ e (tags f.tag f.after i refl d.joins);
  short = d.short;
  same_pairs = d.same_pairs;
  same_longest = d.same_longest;
}

after-lt : (pairs : Pairs) (s : String) (f : Found) → IsHit pairs s (some f) → len f.after < len s
after-lt pairs s f (i, e) =
    let p : (f.tag == "") ≡ false = ground (arith, i) in
    rw (e, len-append, len-append) (omega (arith, len-pos f.tag p))

pub drain-last :
    (fuel : ℕ) (acc : ThinkTagAccumulator)
    → find_next_tag acc ≡ none
    → drain (suc fuel) acc ≡ some (finish acc)
unfolding drain
drain-last fuel acc h = rw (h, drain) refl

drain-next :
    (fuel : ℕ) (acc : ThinkTagAccumulator) (f : Found)
    → find_next_tag acc ≡ some f
    → drain (suc fuel) acc ≡ before_events (emit acc.state f.before) (drain fuel (consume acc f))
unfolding drain
drain-next fuel acc f h = rw (h, drain) refl

drain-Drained :
    (fuel : ℕ) (acc : ThinkTagAccumulator)
    → len acc.held < fuel
    → (r : ThinkTagAccumulator × List ThinkEvent) × (drain fuel acc ≡ some r) × Drained acc r
drain-Drained zero acc h = absurd (omega arith)
drain-Drained (suc fuel) acc h = elim (Option-cases (find_next_tag acc)) [
  | inl e ↦ (finish acc, drain-last fuel acc e, finish-Drained acc)
  | inr (f, e) ↦
      let hit : IsHit acc.pairs acc.held (some f) =
        subst (IsHit acc.pairs acc.held) e (find_next_tag-IsHit acc) in
      let lt = after-lt acc.pairs acc.held f hit in
      let (r, d, k) = drain-Drained fuel (consume acc f) (omega (arith, lt)) in
      (
        (r.0, emit acc.state f.before ++ r.1),
        drain-next fuel acc f e ∙ ap (before_events (emit acc.state f.before)) d,
        consume-Drained acc f r hit k,
      )
]

pub feed-Drained :
    (acc : ThinkTagAccumulator) (delta : String)
    → (r : ThinkTagAccumulator × List ThinkEvent) × (feed acc delta ≡ some r)
      × Drained (record acc { held = acc.held ⧺ delta }) r
unfolding feed drain_resolved
feed-Drained acc delta =
    drain-Drained (len (acc.held ⧺ delta) + 1) (record acc { held = acc.held ⧺ delta })
      (omega arith)
