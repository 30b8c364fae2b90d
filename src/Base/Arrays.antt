-- ===== src/Base/Arrays.antt =====
-- Arrays as lists: reads by index, slices, slice assignment, and lists given by a function.
use Prim.Native.Nat.{ℕ, zero, suc, ◌+◌, ◌-◌, ◌%◌, ◌<◌, ◌≤◌}
use mathlib.Core.Path.{◌≡◌, refl, ap, ap₂, ◌∙◌}
use mathlib.Core.Logic.{inl, inr}
use mathlib.Core.List.{List, [], ◌∷◌, ◌++◌}
use native.Mathlib.Nat.{mod-eq_of_lt, mod-eq-sub-mod}
use native.Mathlib.Omega.{arith}
use talk_sip_bridge.Base.Tests.{ltb, if◌then◌else◌, Bool-cases}
use talk_sip_bridge.Base.Lists.{length, get_or, take, drop}

module _ {A : Type 0} where
  -- `xs[:len(ys)] = ys`
  unfoldable pub overlay : List A → List A → List A
  overlay [] ys = []
  overlay (x ∷ xs) [] = x ∷ xs
  overlay (x ∷ xs) (y ∷ ys) = y ∷ overlay xs ys

  -- `xs[at:at + len(ys)] = ys`, inside the array.
  unfoldable pub splice : List A → ℕ → List A → List A
  unfolding overlay
  splice xs zero ys = overlay xs ys
  splice [] (suc a) ys = []
  splice (x ∷ xs) (suc a) ys = x ∷ splice xs a ys

  -- The first `n` values of a function.
  abbrev pub tabulate : ℕ → (ℕ → A) → List A
  tabulate zero f = []
  tabulate (suc n) f = f 0 ∷ tabulate n (λ i. f (suc i))

module _ {A : Type 0} where
  pub length-overlay : (xs ys : List A) → length (overlay xs ys) ≡ length xs
  unfolding overlay
  length-overlay [] ys = refl
  length-overlay (x ∷ xs) [] = refl
  length-overlay (x ∷ xs) (y ∷ ys) = ap suc (length-overlay xs ys)

  pub length-splice : (xs : List A) (a : ℕ) (ys : List A) → length (splice xs a ys) ≡ length xs
  unfolding splice
  length-splice xs zero ys = length-overlay xs ys
  length-splice [] (suc a) ys = refl
  length-splice (x ∷ xs) (suc a) ys = ap suc (length-splice xs a ys)

  get_or-overlay :
      (xs ys : List A) (j : ℕ) (d : A)
      → length ys ≤ length xs
      → get_or (overlay xs ys) j d ≡ (if ltb j (length ys) then get_or ys j d else get_or xs j d)
  unfolding overlay
  get_or-overlay [] [] j d h = ground arith
  get_or-overlay [] (y ∷ ys) j d h = absurd (omega arith)
  get_or-overlay (x ∷ xs) [] j d h = ground arith
  get_or-overlay (x ∷ xs) (y ∷ ys) zero d h = ground arith
  get_or-overlay (x ∷ xs) (y ∷ ys) (suc j) d h = ground (arith, get_or-overlay xs ys j d)

  -- What an array holds after a slice assignment.
  pub get_or-splice :
      (xs : List A) (a : ℕ) (ys : List A) (j : ℕ) (d : A)
      → a + length ys ≤ length xs
      → get_or (splice xs a ys) j d ≡ (
          if ltb j a
          then get_or xs j d
          else if ltb j (a + length ys)
          then get_or ys (j - a) d
          else get_or xs j d)
  unfolding splice
  get_or-splice xs zero ys j d h = ground (arith, get_or-overlay xs ys j d)
  get_or-splice [] (suc a) ys j d h = absurd (omega arith)
  get_or-splice (x ∷ xs) (suc a) ys zero d h = ground arith
  get_or-splice (x ∷ xs) (suc a) ys (suc j) d h = ground (arith, get_or-splice xs a ys j d)

  pub length-tabulate : (n : ℕ) (f : ℕ → A) → length (tabulate n f) ≡ n
  length-tabulate zero f = refl
  length-tabulate (suc n) f = ap suc (length-tabulate n (λ i. f (suc i)))

  pub tabulate_ext :
      (n : ℕ) (f g : ℕ → A) → ((i : ℕ) → i < n → f i ≡ g i) → tabulate n f ≡ tabulate n g
  tabulate_ext zero f g h = refl
  tabulate_ext (suc n) f g h =
      ap₂ ◌∷◌ (h 0 (omega arith))
        (tabulate_ext n (λ i. f (suc i)) (λ i. g (suc i)) (λ i l. h (suc i) (omega arith)))

  pub tabulate-get_or : (xs : List A) (d : A) → tabulate (length xs) (λ i. get_or xs i d) ≡ xs
  tabulate-get_or [] d = refl
  tabulate-get_or (x ∷ xs) d = ap (λ t. x ∷ t) (tabulate-get_or xs d)

  pub tabulate-add :
      (n m k : ℕ) (f : ℕ → A)
      → k ≡ n + m
      → tabulate k f ≡ tabulate n f ++ tabulate m (λ i. f (n + i))
  tabulate-add zero m k f e =
      ap (λ j. tabulate j f) (e ∙ omega arith)
      ∙ tabulate_ext m f (λ i. f (0 + i)) (λ i l. ap f (omega arith))
  tabulate-add (suc n) m zero f e = absurd (omega arith)
  tabulate-add (suc n) m (suc k) f e =
      ap (λ t. f 0 ∷ t)
        (tabulate-add n m k (λ i. f (suc i)) (omega arith)
          ∙ ap (λ t. tabulate n (λ i. f (suc i)) ++ t)
              (tabulate_ext m (λ i. f (suc (n + i))) (λ i. f (suc n + i))
                (λ i l. ap f (omega arith))))

  pub get_or-drop :
      (n : ℕ) (xs : List A) (i : ℕ) (d : A) → get_or (drop n xs) i d ≡ get_or xs (n + i) d
  get_or-drop zero xs i d = ap (λ k. get_or xs k d) (omega arith)
  get_or-drop (suc n) [] i d = refl
  get_or-drop (suc n) (x ∷ xs) i d = get_or-drop n xs i d ∙ ap (λ k. get_or (x ∷ xs) k d) shift
    where
      shift : suc (n + i) ≡ suc n + i
      shift = omega arith

  -- A slice `xs[:n]`, by index.
  pub take-tabulate :
      (n : ℕ) (xs : List A) (d : A) → n ≤ length xs → take n xs ≡ tabulate n (λ i. get_or xs i d)
  take-tabulate zero xs d h = refl
  take-tabulate (suc n) [] d h = absurd (omega arith)
  take-tabulate (suc n) (x ∷ xs) d h = ap (λ t. x ∷ t) (take-tabulate n xs d (omega arith))

-- An index that has gone round at most once.
mod_wrap : (x c : ℕ) → x < c + c → x % c ≡ (if ltb x c then x else x - c)
mod_wrap x c h = elim (Bool-cases (ltb x c)) [
  | inl l ↦ rw l (mod-eq_of_lt (ground arith))
  | inr g ↦ rw g (mod-eq-sub-mod {n = x} {m = c} (ground arith) ∙ mod-eq_of_lt (ground arith))
]
