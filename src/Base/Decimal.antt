-- ===== src/Base/Decimal.antt =====
-- Decimal numerals: `str(n)`, and reading them back.
use Prim.Native.Nat.{ℕ, zero, suc, ◌+◌, ◌-◌, ◌*◌, ◌/◌, ◌%◌, ◌<◌, ◌≤◌}
use mathlib.Core.Path.{◌≡◌, refl, ◌∙◌, ap}
use mathlib.Core.Bool.{Bool, true, false}
use mathlib.Core.Option.{some}
use mathlib.Core.List.{[], ◌∷◌, reverse, reverse-cons, reverse-reverse}
use native.Mathlib.Omega.{arith}
use mathlib.Core.Logic.{inl, inr}
use talk_sip_bridge.Base.Tests.{Bool-cases, ltb, if◌then◌else◌}
use talk_sip_bridge.Base.Lists.{All, All-append}
use talk_sip_bridge.Base.Text.{Text}
use talk_sip_bridge.Base.Int.{pos}
use talk_sip_bridge.Base.Str.{digits_from, signed, plain, lstrip, strip, parse_int}

-- The digits of `n` before those of `rest`, on fuel.
unfoldable pub show_from : ℕ → ℕ → Text → Text
show_from zero n rest = rest
show_from (suc f) n rest =
    let more = show_from f (n / 10) ((48 + n % 10) ∷ rest) in
    if ltb n 10 then (48 + n) ∷ rest else more

-- `str(n)` of a number that is not negative.
unfoldable pub show : ℕ → Text
unfolding show_from
show n = show_from (suc n) n []

abbrev pub IsDigit : ℕ → Type 0
IsDigit c = (48 ≤ c) × (c ≤ 57)

digits_from-cons :
    (b : Bool) (acc d k : ℕ) (rest : Text)
    → IsDigit d
    → k ≡ acc * 10 + (d - 48)
    → digits_from b acc (d ∷ rest) ≡ digits_from true k rest
unfolding digits_from
digits_from-cons b acc d k rest h e = ground arith

digits_from-show_from :
    (f n : ℕ) (b : Bool) (rest : Text)
    → n < f
    → digits_from b 0 (show_from f n rest) ≡ digits_from true n rest
unfolding show_from
digits_from-show_from zero n b rest h = absurd (omega arith)
digits_from-show_from (suc f) n b rest h = elim (Bool-cases (ltb n 10)) [
  | inl small ↦ rw small (digits_from-cons b 0 (48 + n) n rest (ground arith) (omega arith))
  | inr big ↦ rw big (
      digits_from-show_from f (n / 10) b ((48 + n % 10) ∷ rest) (ground arith)
      ∙ digits_from-cons true (n / 10) (48 + n % 10) n rest (omega arith) (omega arith))
]

show_from-IsDigit : (f n : ℕ) (rest : Text) → All IsDigit rest → All IsDigit (show_from f n rest)
unfolding show_from
show_from-IsDigit zero n rest h = h
show_from-IsDigit (suc f) n rest h =
    ground (arith, show_from-IsDigit f (n / 10) ((48 + n % 10) ∷ rest))

-- A numeral consists of digits.
pub show-IsDigit : (n : ℕ) → All IsDigit (show n)
unfolding show
show-IsDigit n = show_from-IsDigit (suc n) n [] tt

lstrip-IsDigit : (s : Text) → All IsDigit s → lstrip s ≡ s
unfolding lstrip
lstrip-IsDigit [] h = refl
lstrip-IsDigit (c ∷ cs) h = ground arith

All-reverse : (s : Text) → All IsDigit s → All IsDigit (reverse s)
All-reverse [] h = tt
All-reverse (c ∷ cs) h =
    rw (reverse-cons c cs) (All-append IsDigit (reverse cs) (c ∷ []) (All-reverse cs h.1) (h.0, tt))

strip-IsDigit : (s : Text) → All IsDigit s → strip s ≡ s
unfolding strip
strip-IsDigit s h =
    ap (λ t. reverse (lstrip (reverse t))) (lstrip-IsDigit s h)
    ∙ ap reverse (lstrip-IsDigit (reverse s) (All-reverse s h))
    ∙ reverse-reverse s

signed-IsDigit : (s : Text) → All IsDigit s → signed s ≡ plain (digits_from false 0 s)
unfolding signed digits_from
signed-IsDigit [] h = refl
signed-IsDigit (c ∷ cs) h = ground arith

digits_from-show : (n : ℕ) → digits_from false 0 (show n) ≡ some n
unfolding show digits_from
digits_from-show n = digits_from-show_from (suc n) n false [] (omega arith)

-- `str(n)` has no white space to strip, in front of it or behind a blank.
pub strip-show : (n : ℕ) → strip (32 ∷ show n) ≡ show n
unfolding strip
strip-show n = strip-IsDigit (show n) (show-IsDigit n)

-- `int(str(n))` is `n`.
pub parse_int-show : (n : ℕ) → parse_int (show n) ≡ some (pos n)
unfolding parse_int
parse_int-show n =
    ap signed (strip-IsDigit (show n) (show-IsDigit n))
    ∙ signed-IsDigit (show n) (show-IsDigit n)
    ∙ ap plain (digits_from-show n)
