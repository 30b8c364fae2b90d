-- ===== src/Messages/Fields.antt =====
-- The functions of bridge/sip_messages.py that read one header or one body.
use talk_sip_bridge.Base.{
  ℕ, Bool, true, not, ◌&&◌, ◌||◌, Option, none, some, List, [], ◌∷◌, leb, ◌==◌, if◌then◌else◌,
  length,
}
use mathlib.Core.List.{reverse}
use talk_sip_bridge.Base.Text.{Text, codes}
use talk_sip_bridge.Base.Dict.{Dict, put}
use talk_sip_bridge.Base.Str.{
  strip, lstrip, lower, starts_with, before, after?, after_prefix, span_where, is_space, is_digit,
}
use talk_sip_bridge.Requests.{concat, upper}

-- The characters of VALID_NUMBER.
abbrev is_number_char : ℕ → Bool
is_number_char c =
    is_digit c
    || (leb 65 c && leb c 90)
    || (leb 97 c && leb c 122)
    || (c == b'+')
    || (c == b'*')
    || (c == b'#')
    || (c == b'.')
    || (c == b'-')

unfoldable pub all_number_chars : Text → Bool
all_number_chars [] = true
all_number_chars (c ∷ cs) = is_number_char c && all_number_chars cs

-- `VALID_NUMBER.fullmatch(number)`
unfoldable pub valid_number : Text → Bool
valid_number number = leb 1 (length number) && leb (length number) 32 && all_number_chars number

abbrev pub digest_input : Text → Text → Text → Text
digest_input a b c = concat (a ∷ codes ":" ∷ b ∷ codes ":" ∷ c ∷ [])

-- `md5hex` is the hash of the standard library.
unfoldable pub digest_response : (Text → Text) → Text → Text → Text → Text → Text → Text → Text
digest_response md5hex username realm password method uri nonce = md5hex (
    digest_input (md5hex (digest_input username realm password)) nonce
      (md5hex (concat (method ∷ codes ":" ∷ uri ∷ []))))

-- A run of one character or more that `>` ends.
abbrev bracketed : Text × Text → Option Text
bracketed ([], rest) = none
bracketed (c ∷ cs, []) = none
bracketed (c ∷ cs, d ∷ rest) = some (c ∷ cs)

-- `re.search(r'<([^>]+)>', s)`
unfoldable pub angle_uri : Text → Option Text
angle_uri [] = none
angle_uri (c ∷ cs) =
    let rest = angle_uri cs in
    if c == b'<'
    then elim (bracketed (span_where (λ x. not (x == b'>')) cs)) [ none ↦ rest | some u ↦ some u ]
    else rest

unfoldable pub extract_contact_uri : Text → Text
extract_contact_uri contact_header = elim (angle_uri (strip contact_header)) [
  | none ↦ strip (before b';' (strip contact_header))
  | some uri ↦ uri
]

-- `[0-9A-D*#]`, in either case.
unfoldable pub is_key : ℕ → Bool
is_key c =
    is_digit c || (leb 65 c && leb c 68) || (leb 97 c && leb c 100) || (c == b'*') || (c == b'#')

-- `\s*$` of a regular expression over lines.
unfoldable pub ends_line : Text → Bool
ends_line [] = true
ends_line (c ∷ cs) = (c == 10) || (is_space c && ends_line cs)

abbrev key_at : Text → Option Text
key_at [] = none
key_at (c ∷ cs) = if is_key c && ends_line cs then some (upper (c ∷ [])) else none

abbrev equals_key : Option Text → Option Text
equals_key none = none
equals_key (some []) = none
equals_key (some (c ∷ cs)) = if c == b'=' then key_at (lstrip cs) else none

-- `\s*signal\s*=\s*([0-9A-D*#])\s*$` at one place, of a text in lower case.
unfoldable pub signal_at : Text → Option Text
signal_at s = elim (after_prefix (codes "signal") (lstrip s)) [
  | none ↦ none
  | some rest ↦ equals_key (some (lstrip rest))
]

-- The search, at the start of every line.
unfoldable pub signal_from : Bool → Text → Option Text
signal_from at_start [] = none
signal_from at_start (c ∷ cs) =
    let rest = signal_from (c == 10) cs in
    if at_start then elim (signal_at (c ∷ cs)) [ none ↦ rest | some d ↦ some d ] else rest

abbrev single_key : Text → Text
single_key [] = []
single_key (c ∷ []) = if is_key c then upper (c ∷ []) else []
single_key (c ∷ d ∷ cs) = []

unfoldable pub dtmf_from_info : Text → Text
dtmf_from_info body = elim (signal_from true (lower body)) [
  | none ↦ single_key (strip body)
  | some digit ↦ digit
]

-- `s.split(",")`, of any separator.
unfoldable pub split_on : ℕ → Text → List Text
split_on x [] = [] ∷ []
split_on x (c ∷ cs) =
    let rest = split_on x cs in
    if c == x then [] ∷ rest else elim rest [ [] ↦ (c ∷ []) ∷ [] | l ∷ ls ↦ (c ∷ l) ∷ ls ]

-- `s.strip('"')`
abbrev unquoted_front : Text → Text
unquoted_front s = (span_where (λ x. x == 34) s).1

abbrev pub unquoted : Text → Text
unquoted s = reverse (unquoted_front (reverse (unquoted_front s)))

abbrev add_chunk : Text → Dict Text → Dict Text
add_chunk chunk parts = elim (after? b'=' chunk) [
  | none ↦ parts
  | some v ↦ put (strip (before b'=' chunk)) (unquoted (strip v)) parts
]

unfoldable pub add_chunks : List Text → Dict Text → Dict Text
add_chunks [] parts = parts
add_chunks (c ∷ cs) parts = add_chunks cs (add_chunk (strip c) parts)

-- `none` for the IndexError where nothing follows "Digest".
unfoldable pub parse_auth_challenge : Text → Option (Dict Text)
parse_auth_challenge auth_val =
    if starts_with (lower auth_val) (codes "digest")
    then elim (after? 32 auth_val) [
      | none ↦ none
      | some rest ↦ some (add_chunks (split_on b',' rest) [])
    ]
    else some (add_chunks (split_on b',' auth_val) [])
