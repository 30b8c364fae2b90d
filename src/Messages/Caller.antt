-- ===== src/Messages/Caller.antt =====
-- Who calls, and which number was dialled: `caller_number`, `caller_display_name` and
-- `dialled_number` of bridge/sip_messages.py.
use talk_sip_bridge.Base.{
  ℕ, Bool, true, false, not, ◌&&◌, ◌||◌, Option, none, some, List, [], ◌∷◌, leb, ◌==◌,
  if◌then◌else◌,
}
use talk_sip_bridge.Base.Text.{Text, codes}
use talk_sip_bridge.Base.Str.{strip, lstrip, before, after_prefix, span_where, is_space}
use talk_sip_bridge.Messages.Headers.{Headers, header}

-- What follows `sips?:` at the start of a text.
abbrev after_scheme : Text → Option Text
after_scheme s = elim (after_prefix (codes "sips:") s) [
  | none ↦ after_prefix (codes "sip:") s
  | some rest ↦ some rest
]

-- A run of one character or more, which `@` has to end if `closed`.
abbrev user_run : Bool → Text × Text → Option Text
user_run closed ([], rest) = none
user_run true (c ∷ cs, []) = none
user_run true (c ∷ cs, d ∷ rest) = if d == b'@' then some (c ∷ cs) else none
user_run false (c ∷ cs, rest) = some (c ∷ cs)

-- `[^@;>\s]` or, of a display name, `[^@;>]`.
abbrev is_user_char : Bool → ℕ → Bool
is_user_char closed c = not (c == b'@' || c == b';' || c == b'>' || (closed && is_space c))

abbrev user_at : Bool → Option Text → Option Text
user_at closed none = none
user_at closed (some rest) = user_run closed (span_where (is_user_char closed) rest)

-- `re.search(r"sips?:([^@;>\s]+)@", s)`, and without the end `re.search(r"sips?:([^@;>]+)", s)`.
unfoldable pub uri_user : Bool → Text → Option Text
uri_user closed [] = none
uri_user closed (c ∷ cs) =
    let rest = uri_user closed cs in
    elim (user_at closed (after_scheme (c ∷ cs))) [ none ↦ rest | some u ↦ some u ]

abbrev closing_quote : Text × Text → Option Text
closing_quote ([], rest) = none
closing_quote (c ∷ cs, []) = none
closing_quote (c ∷ cs, d ∷ rest) = some (c ∷ cs)

-- `re.match(r'\s*"([^"]+)"', s)`
unfoldable pub quoted_name : Text → Option Text
quoted_name s = elim (after_prefix (34 ∷ []) (lstrip s)) [
  | none ↦ none
  | some rest ↦ closing_quote (span_where (λ c. not (c == 34)) rest)
]

unfoldable pub caller_display_name : Text → Text
caller_display_name from_header = elim (quoted_name from_header) [
  | some name ↦ name
  | none ↦ elim (uri_user false from_header) [
    | some user ↦ user
    | none ↦ strip (before b';' from_header)
  ]
]

unfoldable pub caller_number : Text → Text
caller_number from_header = elim (uri_user true from_header) [
  | none ↦ caller_display_name from_header
  | some user ↦ user
]

abbrev is_upper : ℕ → Bool
is_upper c = leb 65 c && leb c 90

-- What follows the method: white space, then the run that is not.
abbrev target_of : Text × Text → Text
target_of ([], rest) = []
target_of (c ∷ cs, []) = []
target_of (c ∷ cs, d ∷ rest) =
    if is_space d then (span_where (λ x. not (is_space x)) (lstrip rest)).0 else []

-- `re.match(r"\s*[A-Z]+\s+(\S+)", first_line)`, and "" where it does not match.
unfoldable pub request_target : Text → Text
request_target first_line = target_of (span_where is_upper (lstrip first_line))

unfoldable pub first_user : List Text → Text
first_user [] = []
first_user (t ∷ ts) =
    let rest = first_user ts in elim (uri_user true t) [ none ↦ rest | some u ↦ u ]

unfoldable pub dialled_number : Text → Headers → Text
dialled_number first_line h = first_user (
    header h (codes "p-called-party-id") []
    ∷ request_target first_line
    ∷ header h (codes "to") []
    ∷ [])
