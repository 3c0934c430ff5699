-- ===== src/Runtime/Rebuilds.antt =====
-- The router that is live after any ticks of the rebuilder.
use llm_proxy.Prelude.{
  ◌≡◌, refl, ap, ◌∙◌, Bool, true, Option, none, some, List, [], ◌∷◌, All, pair_eq, string_eq,
  nat_eq,
}
use llm_proxy.AppError.{Result, ok, err}
use llm_proxy.Router.{Router}
use llm_proxy.Runtime.Registry.{Factory}
use llm_proxy.Runtime.{Snapshot, Reads, compared, Rebuilder}
use llm_proxy.Runtime.{rebuild_router, changed, tick, ticks}

module _ {P J : Type 0} (is_object : J → Bool) (factories : List (Factory P J)) where
  abbrev built_or : Router P J → Result (Router P J) → Router P J
  built_or r (ok r') = r'
  built_or r (err e) = r

  -- The reference: every snapshot is built, and the last one that succeeds counts.
  unfoldable pub newest : Router P J → List (Snapshot J) → Router P J
  newest r [] = r
  newest r (s ∷ ss) = newest (built_or r (rebuild_router is_object factories s)) ss

  -- The live router is the one of the last snapshot, if a tick has built one.
  abbrev IsLastOf : Router P J → Option (Snapshot J) → Type 0
  IsLastOf r none = Unit
  IsLastOf r (some l) = rebuild_router is_object factories l ≡ ok r

  module _ (same : Snapshot J → Snapshot J → Bool)
      (same_eq : (l s : Snapshot J) → same l s ≡ true → l ≡ s) where
    -- After a tick the live router is the one of the snapshot, if that can be built.
    abbrev IsTicked : Rebuilder P J → Snapshot J → Rebuilder P J → Type 0
    IsTicked b s b' =
        (b'.current ≡ built_or b.current (rebuild_router is_object factories s))
        × IsLastOf b'.current b'.last

  module _ (same : Snapshot J → Snapshot J → Bool)
      (same_refl : (s : Snapshot J) → same s s ≡ true) where
    unchanged_tick :
        (b : Rebuilder P J) (s : Snapshot J) (r : Reads J)
        → b.last ≡ some s
        → compared r ≡ s
        → tick is_object factories same b r ≡ b
    unfolding tick
    unchanged_tick b s r l e = rw (l, e, same_refl s) refl

    unchanged_ticks :
        (rs : List (Reads J)) (b : Rebuilder P J) (s : Snapshot J)
        → b.last ≡ some s
        → All (λ r. compared r ≡ s) rs
        → ticks is_object factories same b rs ≡ b
    unfolding ticks
    unchanged_ticks [] b s l a = refl
    unchanged_ticks (r ∷ rs) b s l (e, a) =
        let t = unchanged_tick b s r l e in
        ap (λ x. ticks is_object factories same x rs) t ∙ unchanged_ticks rs b s l a

    built_tick :
        (b : Rebuilder P J) (r : Reads J) (router : Router P J)
        → changed same b.last (compared r) ≡ true
        → rebuild_router is_object factories r.for_build ≡ ok router
        → tick is_object factories same b r ≡ record { current = router; last = some (compared r) }
    unfolding tick
    built_tick b r router c h = rw (c, h) refl

    -- The fault of the separate reads: where a tick compares one configuration and builds from
    -- another, which came in between, the live router is the one of the other, and stays so as long
    -- as the store holds the configuration that was compared.
    pub ticks-stale :
        (b : Rebuilder P J) (r : Reads J) (rs : List (Reads J)) (router : Router P J)
        → changed same b.last (compared r) ≡ true
        → rebuild_router is_object factories r.for_build ≡ ok router
        → All (λ x. compared x ≡ compared r) rs
        → (ticks is_object factories same b (r ∷ rs)).current ≡ router
    unfolding ticks
    ticks-stale b r rs router c h a =
        ap (λ x. (ticks is_object factories same x rs).current) (built_tick b r router c h)
        ∙ ap (λ x. x.current) (unchanged_ticks rs _ (compared r) refl a)
