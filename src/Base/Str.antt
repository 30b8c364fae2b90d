-- ===== src/Base/Str.antt =====
-- The methods of Python's `str` that the bridge uses, over lists of code points. White space and
-- digits are those of ASCII.
use Prim.Native.Nat.{ℕ, suc, ◌+◌, ◌-◌, ◌*◌}
use mathlib.Core.Bool.{Bool, true, false, ◌&&◌, ◌||◌}
use mathlib.Core.Option.{Option, none, some}
use mathlib.Core.List.{List, [], ◌∷◌, reverse}
use talk_sip_bridge.Base.Tests.{leb, ◌==◌, if◌then◌else◌}
use talk_sip_bridge.Base.Text.{Text}
use talk_sip_bridge.Base.Int.{ℤ, pos, sub_ℕ}

unfoldable pub is_space : ℕ → Bool
is_space c = (leb 9 c && leb c 13) || (leb 28 c && leb c 32)

unfoldable pub is_digit : ℕ → Bool
is_digit c = leb b'0' c && leb c b'9'

-- `s.lstrip()`
unfoldable pub lstrip : Text → Text
unfolding is_space
lstrip [] = []
lstrip (c ∷ cs) = let rest = lstrip cs in if is_space c then rest else c ∷ cs

-- `s.strip()`
unfoldable pub strip : Text → Text
unfolding lstrip
strip s = reverse (lstrip (reverse (lstrip s)))

-- The digits of `int(s)`, one underscore allowed between two digits: `after` says that a digit
-- stands just before.
unfoldable pub digits_from : Bool → ℕ → Text → Option ℕ
unfolding is_digit
digits_from after acc [] = if after then some acc else none
digits_from after acc (c ∷ cs) =
    let rest = digits_from (is_digit c) (if is_digit c then acc * 10 + (c - 48) else acc) cs in
    if is_digit c || (c == b'_' && after) then rest else none

abbrev pub negated : Option ℕ → Option ℤ
negated none = none
negated (some n) = some (sub_ℕ 0 n)

abbrev pub plain : Option ℕ → Option ℤ
plain none = none
plain (some n) = some (pos n)

unfoldable pub signed : Text → Option ℤ
unfolding digits_from
signed [] = none
signed (c ∷ cs) =
    if c == b'-'
    then negated (digits_from false 0 cs)
    else if c == b'+'
    then plain (digits_from false 0 cs)
    else plain (digits_from false 0 (c ∷ cs))

-- `int(s)`, with `none` for the ValueError.
unfoldable pub parse_int : Text → Option ℤ
unfolding signed strip
parse_int s = signed (strip s)

-- `s.lower()`
unfoldable pub lower : Text → Text
lower [] = []
lower (c ∷ cs) = (if leb 65 c && leb c 90 then c + 32 else c) ∷ lower cs

-- `s.startswith(p)`
unfoldable pub starts_with : Text → Text → Bool
starts_with s [] = true
starts_with [] (p ∷ ps) = false
starts_with (c ∷ cs) (p ∷ ps) = (c == p) && starts_with cs ps

abbrev pub shifted : Option ℕ → Option ℕ
shifted none = none
shifted (some n) = some (suc n)

-- `s.find(p)`, with `none` for -1.
unfoldable pub find? : Text → Text → Option ℕ
unfolding starts_with
find? [] p = if starts_with [] p then some 0 else none
find? (c ∷ cs) p = let rest = find? cs p in if starts_with (c ∷ cs) p then some 0 else shifted rest

abbrev pub push : ℕ → List Text → List Text
push c [] = (c ∷ []) ∷ []
push c (l ∷ ls) = (c ∷ l) ∷ ls

abbrev pub after_colon : ℕ → Option (Text × Text) → Option (Text × Text)
after_colon c none = none
after_colon c (some (k, v)) = some (c ∷ k, v)

-- `s.split(":", 1)` where there is a colon.
unfoldable pub split_colon : Text → Option (Text × Text)
split_colon [] = none
split_colon (c ∷ cs) =
    let rest = split_colon cs in if c == b':' then some ([], cs) else after_colon c rest

-- `s.split("\r\n")`
unfoldable pub split_lines : Text → List Text
split_lines [] = [] ∷ []
split_lines (c ∷ []) = (c ∷ []) ∷ []
split_lines (c ∷ d ∷ cs) =
    let rest = split_lines (d ∷ cs) in
    let next = split_lines cs in if c == 13 && d == 10 then [] ∷ next else push c rest

-- The characters that end a line for `splitlines`.
unfoldable pub is_line_break : ℕ → Bool
is_line_break c =
    (leb 10 c && leb c 13) || (leb 28 c && leb c 30) || (c == 133) || (leb 8232 c && leb c 8233)

-- `s.splitlines()`
unfoldable pub splitlines : Text → List Text
unfolding is_line_break
splitlines [] = []
splitlines (c ∷ []) = if is_line_break c then [] ∷ [] else (c ∷ []) ∷ []
splitlines (c ∷ d ∷ cs) =
    let rest = splitlines (d ∷ cs) in
    let next = splitlines cs in
    if c == 13 && d == 10 then [] ∷ next else if is_line_break c then [] ∷ rest else push c rest

abbrev starts_word : Text → Bool
starts_word [] = false
starts_word (c ∷ cs) = if is_space c then false else true

-- `s.split()`
unfoldable pub words : Text → List Text
unfolding is_space
words [] = []
words (c ∷ cs) =
    let rest = words cs in
    if is_space c then rest else if starts_word cs then push c rest else (c ∷ []) ∷ rest

abbrev all_digits : Text → Bool
all_digits [] = true
all_digits (c ∷ cs) = is_digit c && all_digits cs

-- `s.isdigit()`
unfoldable pub isdigit : Text → Bool
unfolding is_digit
isdigit [] = false
isdigit (c ∷ cs) = all_digits (c ∷ cs)

-- `int(s)` of a text of digits.
unfoldable pub digits_value : ℕ → Text → ℕ
digits_value acc [] = acc
digits_value acc (c ∷ cs) = digits_value (acc * 10 + (c - 48)) cs

-- `s.split(x, 1)[0]`, of a separator of one character.
unfoldable pub before : ℕ → Text → Text
before x [] = []
before x (c ∷ cs) = let rest = before x cs in if c == x then [] else c ∷ rest

-- `s.split(x, 1)[1]`, with `none` where the separator is missing.
unfoldable pub after? : ℕ → Text → Option Text
after? x [] = none
after? x (c ∷ cs) = let rest = after? x cs in if c == x then some cs else rest

-- What follows a prefix, with `none` where it is another one.
unfoldable pub after_prefix : Text → Text → Option Text
after_prefix [] s = some s
after_prefix (p ∷ ps) [] = none
after_prefix (p ∷ ps) (c ∷ cs) = let rest = after_prefix ps cs in if c == p then rest else none

-- The longest prefix of characters that pass a test, and what follows it.
unfoldable pub span_where : (ℕ → Bool) → Text → Text × Text
span_where p [] = ([], [])
span_where p (c ∷ cs) =
    let (run, rest) = span_where p cs in if p c then (c ∷ run, rest) else ([], c ∷ cs)

-- `ls[0]`, of a list that is not empty.
abbrev pub first_of : List Text → Text
first_of [] = []
first_of (l ∷ ls) = l
