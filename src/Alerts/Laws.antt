-- ===== src/Alerts/Laws.antt =====
-- The snapshot as the last events pushed, and the delivery loop's outcome.
use llm_proxy.Prelude.{
  ℕ, suc, ◌+◌, ◌-◌, ◌≤◌, ◌<◌, ◌≡◌, sym, ◌∙◌, inl, inr, Bool, ◌||◌, some, List, [], ◌∷◌, ◌++◌,
  append_assoc, append-nil, arith, ltb, if◌then◌else◌, Bool-cases, length, drop, length-append,
  pair_eq, string_eq, nat_eq,
}
use llm_proxy.Alerts.{AlertEvent, push_snapshot, push_all, deliver}

append_snoc : (snap es : List AlertEvent) (e : AlertEvent) → (snap ++ e ∷ []) ++ es ≡ snap ++ e ∷ es
append_snoc snap es e = append_assoc snap (e ∷ []) es

drop_cong : (n m : ℕ) (xs : List AlertEvent) → n ≡ m → drop n xs ≡ drop m xs
drop_cong n m xs h = cc

full_step :
    (x : AlertEvent) (r es : List AlertEvent) (e : AlertEvent) (n : ℕ)
    → n ≡ suc (length es)
    → drop n (x ∷ (r ++ e ∷ es)) ≡ drop (length es) ((r ++ e ∷ []) ++ es)
full_step x r es e n h = rw (h, append_snoc r es e)

push_snapshot_room :
    (snap : List AlertEvent) (e : AlertEvent)
    → length snap < 1024
    → push_snapshot snap e ≡ snap ++ e ∷ []
unfolding push_snapshot
push_snapshot_room snap e h = ground (arith, length-append snap (e ∷ []))

push_snapshot_full :
    (x : AlertEvent) (r : List AlertEvent) (e : AlertEvent)
    → length r ≡ 1023
    → push_snapshot (x ∷ r) e ≡ r ++ e ∷ []
unfolding push_snapshot
push_snapshot_full x r e h = ground (arith, length-append r (e ∷ []))

length_snoc : (snap : List AlertEvent) (e : AlertEvent) → length (snap ++ e ∷ []) ≡ length snap + 1
length_snoc snap e = length-append snap (e ∷ [])

-- The snapshot, which starts within its bound of 1024, then holds the last 1024 of its events and
-- the pushed ones, in order.
pub push_all-eq-drop :
    (snap es : List AlertEvent)
    → length snap ≤ 1024
    → push_all snap es ≡ drop (length snap + length es - 1024) (snap ++ es)
unfolding push_all
push_all-eq-drop snap [] h = let z : length snap + 0 - 1024 ≡ 0 = omega arith in rw (z, append-nil)
push_all-eq-drop [] (e ∷ es) h = rw (push_snapshot_room [] e (omega arith)) (
    push_all-eq-drop (e ∷ []) es (omega arith)
    ∙ drop_cong (1 + length es - 1024) (0 + suc (length es) - 1024) (e ∷ es) (omega arith))
push_all-eq-drop (x ∷ r) (e ∷ es) h = elim (Bool-cases (ltb (length r) 1023)) [
  | inl t ↦
      let snap = x ∷ r in
      rw (push_snapshot_room snap e (ground arith)) (
        push_all-eq-drop (snap ++ e ∷ []) es (ground (arith, length_snoc snap e))
        ∙ rw (append_snoc snap es e) (
            drop_cong (length (snap ++ e ∷ []) + length es - 1024)
              (length snap + suc (length es) - 1024) (snap ++ e ∷ es)
              (omega (arith, length_snoc snap e))))
  | inr t ↦
      let full : length r ≡ 1023 = ground arith in
      rw (push_snapshot_full x r e full) (
        push_all-eq-drop (r ++ e ∷ []) es (ground (arith, length_snoc r e))
        ∙ drop_cong (length (r ++ e ∷ []) + length es - 1024) (length es) ((r ++ e ∷ []) ++ es)
            (omega (arith, length_snoc r e, full))
        ∙ sym (full_step x r es e (suc (length r) + suc (length es) - 1024) (omega (arith, full))))
]

-- A delivery ends after at most three tries: it reports success exactly when one of the three
-- succeeds, and sleeps one second before the second try and two before the third, none after.
pub deliver_lem :
    (delivers : ℕ → Bool)
    → deliver delivers
      ≡ some (
        (delivers 1 || (delivers 2 || delivers 3)),
        (if delivers 1 then [] else if delivers 2 then 1 ∷ [] else 1 ∷ 2 ∷ []),
      )
unfolding deliver
deliver_lem delivers = ground arith
