-- ===== src/Prelude/Compare.antt =====
-- `Ordering` and the order of texts: by their characters, so by their bytes in UTF-8.
use Prim.Native.Nat.{ℕ, compare, Ordering}
use Prim.Native.Char.{code}
use Prim.Native.String.{String, [], ◌∷◌}
use mathlib.Core.Path.{◌≡◌, refl, ap, ◌∙◌}
use mathlib.Core.Bool.{Bool, true, false}
use native.Mathlib.Omega.{arith}
use text.Mathlib.TextEquality.{Char-path}

-- `Ordering::then_with`
abbrev pub then_with : Ordering → Ordering → Ordering
then_with Ordering.eq o = o
then_with Ordering.lt o = Ordering.lt
then_with Ordering.gt o = Ordering.gt

abbrev pub swap : Ordering → Ordering
swap Ordering.lt = Ordering.gt
swap Ordering.eq = Ordering.eq
swap Ordering.gt = Ordering.lt

-- `bool::cmp`
abbrev pub compare_bool : Bool → Bool → Ordering
compare_bool false true = Ordering.lt
compare_bool true false = Ordering.gt
compare_bool false false = Ordering.eq
compare_bool true true = Ordering.eq

unfoldable pub compare_text : String → String → Ordering
compare_text [] [] = Ordering.eq
compare_text [] (d ∷ t) = Ordering.lt
compare_text (c ∷ s) [] = Ordering.gt
compare_text (c ∷ s) (d ∷ t) = then_with (compare (code c) (code d)) (compare_text s t)

pub compare_text-eq : (s t : String) → compare_text s t ≡ Ordering.eq → s ≡ t
unfolding compare_text
compare_text-eq [] [] h = refl
compare_text-eq [] (d ∷ t) h = absurd (ground arith)
compare_text-eq (c ∷ s) [] h = absurd (ground arith)
compare_text-eq (c ∷ s) (d ∷ t) h =
    let e : c ≡ d = Char-path c d (ground arith) in
    ap (λ x. x ∷ s) e ∙ ap (λ x. d ∷ x) (compare_text-eq s t (ground arith))

pub compare_text-swap : (s t : String) → compare_text t s ≡ swap (compare_text s t)
unfolding compare_text
compare_text-swap [] [] = refl
compare_text-swap [] (d ∷ t) = refl
compare_text-swap (c ∷ s) [] = refl
compare_text-swap (c ∷ s) (d ∷ t) = ground (arith, compare_text-swap s t)

pub swap-then_with : (o p : Ordering) → swap (then_with o p) ≡ then_with (swap o) (swap p)
swap-then_with o p = ground arith

-- Three comparisons, of a first with a second, the second with a third and the first with the
-- third, that agree as those of an order do.
abbrev pub Chain : Ordering → Ordering → Ordering → Type 0
Chain Ordering.lt Ordering.gt z = Unit
Chain Ordering.gt Ordering.lt z = Unit
Chain Ordering.lt Ordering.lt z = z ≡ Ordering.lt
Chain Ordering.lt Ordering.eq z = z ≡ Ordering.lt
Chain Ordering.eq y z = z ≡ y
Chain Ordering.gt Ordering.eq z = z ≡ Ordering.gt
Chain Ordering.gt Ordering.gt z = z ≡ Ordering.gt

pub compare-Chain : (a b c : ℕ) → Chain (compare a b) (compare b c) (compare a c)
compare-Chain a b c = ground arith

pub compare_flip-Chain : (a b c : ℕ) → Chain (compare b a) (compare c b) (compare c a)
compare_flip-Chain a b c = ground arith

pub compare_bool_flip-Chain :
    (a b c : Bool) → Chain (compare_bool b a) (compare_bool c b) (compare_bool c a)
compare_bool_flip-Chain a b c = ground arith

before-Chain : (x : Ordering) → Chain x Ordering.lt Ordering.lt
before-Chain Ordering.lt = refl
before-Chain Ordering.eq = refl
before-Chain Ordering.gt = tt

after-Chain : (x : Ordering) → Chain x Ordering.gt Ordering.gt
after-Chain Ordering.lt = tt
after-Chain Ordering.eq = refl
after-Chain Ordering.gt = refl

pub then_with-Chain :
    (o p q x y z : Ordering)
    → Chain o p q
    → Chain x y z
    → Chain (then_with o x) (then_with p y) (then_with q z)
then_with-Chain Ordering.lt Ordering.gt q x y z h k = tt
then_with-Chain Ordering.gt Ordering.lt q x y z h k = tt
then_with-Chain Ordering.lt Ordering.lt q x y z h k = rw h refl
then_with-Chain Ordering.lt Ordering.eq q x y z h k = rw h (ground arith)
then_with-Chain Ordering.eq Ordering.lt q x y z h k = rw h (before-Chain x)
then_with-Chain Ordering.eq Ordering.gt q x y z h k = rw h (after-Chain x)
then_with-Chain Ordering.eq Ordering.eq q x y z h k = rw h k
then_with-Chain Ordering.gt Ordering.eq q x y z h k = rw h (ground arith)
then_with-Chain Ordering.gt Ordering.gt q x y z h k = rw h refl

pub compare_text-Chain :
    (s t u : String) → Chain (compare_text s t) (compare_text t u) (compare_text s u)
unfolding compare_text
compare_text-Chain [] [] u = refl
compare_text-Chain [] (d ∷ t) [] = tt
compare_text-Chain [] (d ∷ t) (b ∷ u) = ground arith
compare_text-Chain (c ∷ s) [] [] = refl
compare_text-Chain (c ∷ s) [] (b ∷ u) = tt
compare_text-Chain (c ∷ s) (d ∷ t) [] = ground arith
compare_text-Chain (c ∷ s) (d ∷ t) (b ∷ u) =
    then_with-Chain (compare (code c) (code d)) (compare (code d) (code b))
      (compare (code c) (code b)) (compare_text s t) (compare_text t u) (compare_text s u)
      (compare-Chain (code c) (code d) (code b)) (compare_text-Chain s t u)
