-- ===== src/Base/Order.antt =====
-- The order of texts by code points, and `sorted` over texts.
use mathlib.Core.Path.{◌≡◌, refl}
use mathlib.Core.Bool.{Bool, true, false, ◌||◌, ◌&&◌}
use mathlib.Core.Option.{Option, none, some}
use mathlib.Core.List.{List, [], ◌∷◌}
use native.Mathlib.Omega.{arith}
use talk_sip_bridge.Base.Tests.{if◌then◌else◌, ltb, ◌==◌}
use talk_sip_bridge.Base.Text.{Text, text_eq}
use talk_sip_bridge.Base.Dict.{elem}

-- `s <= t` of Python strings.
unfoldable pub text_leb : Text → Text → Bool
text_leb [] t = true
text_leb (x ∷ xs) [] = false
text_leb (x ∷ xs) (y ∷ ys) = ltb x y || (x == y) && text_leb xs ys

pub text_leb_refl : (s : Text) → text_leb s s ≡ true
unfolding text_leb
text_leb_refl [] = refl
text_leb_refl (x ∷ xs) = ground (arith, text_leb_refl xs)

pub text_leb_total : (s t : Text) → text_leb s t ≡ false → text_leb t s ≡ true
unfolding text_leb
text_leb_total [] [] h = refl
text_leb_total [] (y ∷ ys) h = cc
text_leb_total (x ∷ xs) [] h = refl
text_leb_total (x ∷ xs) (y ∷ ys) h = ground (arith, text_leb_total xs ys)

pub text_leb_trans :
    (s t u : Text) → text_leb s t ≡ true → text_leb t u ≡ true → text_leb s u ≡ true
unfolding text_leb
text_leb_trans [] t u h k = refl
text_leb_trans (x ∷ xs) [] u h k = cc
text_leb_trans (x ∷ xs) (y ∷ ys) [] h k = cc
text_leb_trans (x ∷ xs) (y ∷ ys) (z ∷ zs) h k = ground (arith, text_leb_trans xs ys zs)

pub text_leb_antisym : (s t : Text) → text_leb s t ≡ true → text_leb t s ≡ true → s ≡ t
unfolding text_leb
text_leb_antisym [] [] h k = refl
text_leb_antisym [] (y ∷ ys) h k = cc
text_leb_antisym (x ∷ xs) [] h k = cc
text_leb_antisym (x ∷ xs) (y ∷ ys) h k = ground (arith, text_leb_antisym xs ys)

unfoldable pub insert : Text → List Text → List Text
insert x [] = x ∷ []
insert x (y ∷ ys) = elim (text_leb x y) [ true ↦ x ∷ y ∷ ys | false ↦ y ∷ insert x ys ]

-- `sorted(xs)`
unfoldable pub sorted : List Text → List Text
unfolding insert
sorted [] = []
sorted (x ∷ xs) = insert x (sorted xs)

elem-insert : (k x : Text) (ys : List Text) → elem k (insert x ys) ≡ (text_eq x k || elem k ys)
unfolding elem insert
elem-insert k x [] = refl
elem-insert k x (y ∷ ys) = ground (arith, elem-insert k x ys)

pub elem-sorted : (k : Text) (xs : List Text) → elem k (sorted xs) ≡ elem k xs
unfolding elem sorted
elem-sorted k [] = refl
elem-sorted k (x ∷ xs) = ground (arith, elem-insert k x (sorted xs), elem-sorted k xs)

-- A lower bound of a list, and a list in order.
abbrev pub AllAbove : Text → List Text → Type 0
AllAbove x [] = Unit
AllAbove x (y ∷ ys) = (text_leb x y ≡ true) × AllAbove x ys

abbrev pub IsSorted : List Text → Type 0
IsSorted [] = Unit
IsSorted (x ∷ xs) = AllAbove x xs × IsSorted xs

AllAbove-trans : (x y : Text) (ys : List Text) → text_leb x y ≡ true → AllAbove y ys → AllAbove x ys
AllAbove-trans x y [] h a = tt
AllAbove-trans x y (z ∷ zs) h a = (text_leb_trans x y z h a.0, AllAbove-trans x y zs h a.1)

AllAbove-insert :
    (x y : Text) (ys : List Text) → text_leb y x ≡ true → AllAbove y ys → AllAbove y (insert x ys)
unfolding insert
AllAbove-insert x y [] h a = (h, tt)
AllAbove-insert x y (z ∷ zs) h a = ground (arith, AllAbove-insert x y zs h a.1)

insert-IsSorted : (x : Text) (ys : List Text) → IsSorted ys → IsSorted (insert x ys)
unfolding insert
insert-IsSorted x [] s = (tt, tt)
insert-IsSorted x (y ∷ ys) s = ground (
  arith,
  AllAbove-trans x y ys,
  text_leb_total x y,
  AllAbove-insert x y ys,
  insert-IsSorted x ys s.1,
)

pub sorted-IsSorted : (xs : List Text) → IsSorted (sorted xs)
unfolding sorted
sorted-IsSorted [] = tt
sorted-IsSorted (x ∷ xs) = insert-IsSorted x (sorted xs) (sorted-IsSorted xs)

-- `next((x for x in xs if x not in ours), None)`
unfoldable pub first_outside : List Text → List Text → Option Text
first_outside [] ours = none
first_outside (x ∷ xs) ours =
    let rest = first_outside xs ours in if elem x ours then rest else some x
