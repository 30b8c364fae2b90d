-- ===== src/Requests/Lines.antt =====
-- Joining header lines and splitting them again.
use talk_sip_bridge.Base.{
  ℕ, suc, ◌+◌, ◌≡◌, refl, sym, ap, ◌∙◌, ◌≢◌, Option, none, some, List, [], ◌∷◌, ◌++◌, arith, length,
  All, length-append,
}
use mathlib.Core.List.{append_assoc}
use talk_sip_bridge.Base.Text.{Text}
use talk_sip_bridge.Base.Str.{find?, shifted, split_lines, push}
use talk_sip_bridge.Messages.{separator}
use talk_sip_bridge.Requests.{join_lines}

-- A text without a carriage return, and a header line: such a text that is not empty.
abbrev pub IsClean : Text → Type 0
IsClean = All (λ c. c ≢ 13)

abbrev pub IsLine : Text → Type 0
IsLine [] = ⊥
IsLine (c ∷ cs) = (c ≢ 13) × IsClean cs

pub IsLine-IsClean : (l : Text) → IsLine l → IsClean l
IsLine-IsClean [] h = absurd h
IsLine-IsClean (c ∷ cs) h = h

split_lines-push : (c : ℕ) (s : Text) → c ≢ 13 → split_lines (c ∷ s) ≡ push c (split_lines s)
unfolding split_lines
split_lines-push c [] h = refl
split_lines-push c (d ∷ s) h = ground arith

split_lines-last : (l : Text) → IsClean l → split_lines l ≡ l ∷ []
unfolding split_lines
split_lines-last [] h = refl
split_lines-last (c ∷ cs) h = split_lines-push c cs h.0 ∙ ap (push c) (split_lines-last cs h.1)

pub split_lines-first :
    (l t : Text) → IsClean l → split_lines (l ++ (13 ∷ 10 ∷ t)) ≡ l ∷ split_lines t
unfolding split_lines
split_lines-first [] t h = refl
split_lines-first (c ∷ cs) t h =
    split_lines-push c (cs ++ (13 ∷ 10 ∷ t)) h.0 ∙ ap (push c) (split_lines-first cs t h.1)

-- Lines that hold no line break come back as they were.
pub split_lines-join_lines :
    (l : Text) (ls : List Text)
    → IsClean l
    → All IsClean ls
    → split_lines (join_lines (l ∷ ls)) ≡ l ∷ ls
unfolding join_lines
split_lines-join_lines l [] h k = split_lines-last l h
split_lines-join_lines l (m ∷ ls) h k =
    split_lines-first l (join_lines (m ∷ ls)) h
    ∙ ap (λ r. l ∷ r) (split_lines-join_lines m ls k.0 k.1)

-- An empty line and a body come out as the separator and the body.
pub join_lines-append :
    (l : Text) (ls : List Text) (body : Text)
    → join_lines ((l ∷ ls) ++ [] ∷ body ∷ []) ≡ join_lines (l ∷ ls) ++ (separator ++ body)
unfolding join_lines
join_lines-append l [] body = refl
join_lines-append l (m ∷ ls) body =
    ap (λ t. l ++ (13 ∷ 10 ∷ t)) (join_lines-append m ls body)
    ∙ sym (append_assoc l (13 ∷ 10 ∷ join_lines (m ∷ ls)) (separator ++ body))

abbrev shift_by : ℕ → Option ℕ → Option ℕ
shift_by n none = none
shift_by n (some k) = some (n + k)

find?-step : (c : ℕ) (s : Text) → c ≢ 13 → find? (c ∷ s) separator ≡ shifted (find? s separator)
unfolding find?
find?-step c s h = ground arith

shift_by-zero : (o : Option ℕ) → o ≡ shift_by 0 o
shift_by-zero none = refl
shift_by-zero (some k) = ap some (omega arith)

shifted-shift_by : (n : ℕ) (o : Option ℕ) → shifted (shift_by n o) ≡ shift_by (suc n) o
shifted-shift_by n none = refl
shifted-shift_by n (some k) = ap some (omega arith)

find?-clean :
    (l t : Text) → IsClean l → find? (l ++ t) separator ≡ shift_by (length l) (find? t separator)
find?-clean [] t h = shift_by-zero (find? t separator)
find?-clean (c ∷ cs) t h =
    find?-step c (cs ++ t) h.0
    ∙ ap shifted (find?-clean cs t h.1)
    ∙ shifted-shift_by (length cs) (find? t separator)

-- A single line break, followed by a line, is not the separator.
find?-break :
    (l t : Text)
    → IsLine l
    → find? (13 ∷ 10 ∷ (l ++ t)) separator ≡ shifted (shifted (find? (l ++ t) separator))
unfolding find?
find?-break [] t h = absurd h
find?-break (c ∷ cs) t h = ground arith

pub join_lines-IsLine :
    (l : Text) (ls : List Text) (t : Text)
    → IsLine l
    → (u : Text) × (join_lines (l ∷ ls) ++ t ≡ l ++ u)
unfolding join_lines
join_lines-IsLine l [] t h = (t, refl)
join_lines-IsLine l (m ∷ ls) t h =
    ((13 ∷ 10 ∷ join_lines (m ∷ ls)) ++ t, append_assoc l (13 ∷ 10 ∷ join_lines (m ∷ ls)) t)

find?-separator : (body : Text) → find? (separator ++ body) separator ≡ some 0
unfolding find?
find?-separator body = refl

-- The separator is found right behind the header lines.
pub find?-join_lines :
    (l : Text) (ls : List Text) (body : Text)
    → IsLine l
    → All IsLine ls
    → find? (join_lines (l ∷ ls) ++ (separator ++ body)) separator
      ≡ some (length (join_lines (l ∷ ls)))
unfolding join_lines
find?-join_lines l [] body h k =
    find?-clean l (separator ++ body) (IsLine-IsClean l h)
    ∙ ap (shift_by (length l)) (find?-separator body)
    ∙ ap some (omega arith)
find?-join_lines l (m ∷ ls) body h k =
    let rest = join_lines (m ∷ ls) ++ (separator ++ body) in
    let (u, e) = join_lines-IsLine m ls (separator ++ body) k.0 in
    ap (λ t. find? t separator) (append_assoc l (13 ∷ 10 ∷ join_lines (m ∷ ls)) (separator ++ body))
    ∙ find?-clean l (13 ∷ 10 ∷ rest) (IsLine-IsClean l h)
    ∙ ap (λ t. shift_by (length l) (find? (13 ∷ 10 ∷ t) separator)) e
    ∙ ap (shift_by (length l)) (find?-break m u k.0)
    ∙ ap (λ t. shift_by (length l) (shifted (shifted (find? t separator)))) (sym e)
    ∙ ap (λ o. shift_by (length l) (shifted (shifted o))) (find?-join_lines m ls body k.0 k.1)
    ∙ ap some (sym (length-append l (13 ∷ 10 ∷ join_lines (m ∷ ls))))
