-- ===== src/Base/Dict.antt =====
-- Python's `dict` with text keys, as an association list in insertion order.
use mathlib.Core.Path.{◌≡◌, refl}
use mathlib.Core.Logic.{inl, inr}
use mathlib.Core.Bool.{Bool, true, false, ◌||◌}
use mathlib.Core.Option.{Option, none, some}
use mathlib.Core.List.{List, [], ◌∷◌}
use native.Mathlib.Omega.{arith}
use talk_sip_bridge.Base.Tests.{if◌then◌else◌, Bool-cases}
use talk_sip_bridge.Base.Text.{Text, text_eq, text_eq_iff}

-- `k in xs`, of a list or a set.
unfoldable pub elem : Text → List Text → Bool
elem k [] = false
elem k (x ∷ xs) = text_eq x k || elem k xs

abbrev pub is_empty : List Text → Bool
is_empty [] = true
is_empty (x ∷ xs) = false

abbrev pub Dict {ℓ} : Type ℓ → Type ℓ
Dict V = List (Text × V)

module _ {ℓ} {V : Type ℓ} where
  -- `d.get(k)`
  unfoldable pub get : Text → Dict V → Option V
  get k [] = none
  get k ((j, v) ∷ d) = if text_eq j k then some v else get k d

  -- `k in d`
  unfoldable pub has : Text → Dict V → Bool
  has k [] = false
  has k ((j, v) ∷ d) = text_eq j k || has k d

  -- `d[k] = v`
  unfoldable pub put : Text → V → Dict V → Dict V
  put k v [] = (k, v) ∷ []
  put k v ((j, w) ∷ d) = if text_eq j k then (k, v) ∷ d else (j, w) ∷ put k v d

  -- `d.pop(k, None)`
  unfoldable pub remove : Text → Dict V → Dict V
  remove k [] = []
  remove k ((j, v) ∷ d) = if text_eq j k then d else (j, v) ∷ remove k d

  -- `{k for k, v in d.items() if p(k, v)}`
  unfoldable pub keys_where : (Text → V → Bool) → Dict V → List Text
  keys_where p [] = []
  keys_where p ((j, v) ∷ d) = let rest = keys_where p d in if p j v then j ∷ rest else rest

  -- `any(p(k, v) for k, v in d.items())`
  unfoldable pub any_item : (Text → V → Bool) → Dict V → Bool
  any_item p [] = false
  any_item p ((j, v) ∷ d) = p j v || any_item p d

  -- No key stands twice.
  abbrev pub IsUnique : Dict V → Type 0
  IsUnique [] = Unit
  IsUnique ((j, v) ∷ d) = (has j d ≡ false) × IsUnique d

module _ {ℓ} {V : Type ℓ} where
  pub get-put :
      (k j : Text) (v : V) (d : Dict V)
      → get j (put k v d) ≡ (if text_eq k j then some v else get j d)
  unfolding get put
  get-put k j v [] = refl
  get-put k j v ((i, w) ∷ d) =
      ground (arith, text_eq_iff k j, text_eq_iff i k, text_eq_iff i j, get-put k j v d)

  pub has-put : (k j : Text) (v : V) (d : Dict V) → has j (put k v d) ≡ (text_eq k j || has j d)
  unfolding has put
  has-put k j v [] = refl
  has-put k j v ((i, w) ∷ d) =
      ground (arith, text_eq_iff k j, text_eq_iff i k, text_eq_iff i j, has-put k j v d)

  pub put-IsUnique : (k : Text) (v : V) (d : Dict V) → IsUnique d → IsUnique (put k v d)
  unfolding put has
  put-IsUnique k v [] u = (refl, tt)
  put-IsUnique k v ((i, w) ∷ d) u = elim (Bool-cases (text_eq i k)) [
    | inl e ↦ ground (arith, text_eq_iff i k)
    | inr e ↦
        ground (arith, has-put k i v d, text_eq_iff i k, text_eq_iff k i, put-IsUnique k v d u.1)
  ]

  pub get-none : (k : Text) (d : Dict V) → has k d ≡ false → get k d ≡ none
  unfolding get has
  get-none k [] h = refl
  get-none k ((i, w) ∷ d) h = ground (arith, get-none k d)

  pub has_of_get : (k : Text) (d : Dict V) {v : V} → get k d ≡ some v → has k d ≡ true
  unfolding get has
  has_of_get k [] h = cc
  has_of_get k ((i, w) ∷ d) {v} h = ground (arith, has_of_get k d {v = v})

  -- What a comprehension over the items of a dict holds, by lookup.
  abbrev pub holds_at : (Text → V → Bool) → Text → Option V → Bool
  holds_at p k none = false
  holds_at p k (some v) = p k v

  pub elem-keys_where_absent :
      (p : Text → V → Bool) (k : Text) (d : Dict V)
      → has k d ≡ false
      → elem k (keys_where p d) ≡ false
  unfolding elem keys_where has
  elem-keys_where_absent p k [] h = refl
  elem-keys_where_absent p k ((i, w) ∷ d) h = ground (arith, elem-keys_where_absent p k d)

  pub elem-keys_where :
      (p : Text → V → Bool) (k : Text) (d : Dict V)
      → IsUnique d
      → elem k (keys_where p d) ≡ holds_at p k (get k d)
  unfolding elem keys_where get
  elem-keys_where p k [] u = refl
  elem-keys_where p k ((i, w) ∷ d) u =
      ground (arith, text_eq_iff i k, elem-keys_where_absent p i d u.0, elem-keys_where p k d u.1)

  -- `any` over the items is a non-empty comprehension.
  pub any_item-keys_where :
      (p : Text → V → Bool) (d : Dict V)
      → any_item p d ≡ (if is_empty (keys_where p d) then false else true)
  unfolding any_item keys_where
  any_item-keys_where p [] = refl
  any_item-keys_where p ((i, w) ∷ d) = ground (arith, any_item-keys_where p d)
