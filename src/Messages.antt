-- ===== src/Messages.antt =====
-- bridge/sip_messages.py: framing and parsing of SIP messages. Bytes and characters are numbers.
-- Header blocks are read as ASCII, so `decode` changes nothing in them.
pub mod Framing
pub mod Headers
pub mod Fields
pub mod Caller
use talk_sip_bridge.Base.{
  ℕ, zero, suc, ◌+◌, Bool, true, false, ◌&&◌, ◌||◌, Option, none, some, List, [], ◌∷◌, ◌==◌, ltb,
  length, take, drop, if◌then◌else◌,
}
use talk_sip_bridge.Base.Text.{Text, codes, text_eq}
use talk_sip_bridge.Base.Int.{ℤ, pos_part}
use talk_sip_bridge.Base.Str.{strip, lower, find?, split_colon, split_lines, parse_int}

abbrev pub tail {ℓ} : {A : Type ℓ} → List A → List A
tail [] = []
tail (x ∷ xs) = xs

-- `max(0, int(value.strip()))`, and 0 on a ValueError.
abbrev pub announced : Option ℤ → ℕ
announced none = 0
announced (some z) = pos_part z

abbrev pub is_length_name : Text → Bool
is_length_name name = text_eq name (codes "content-length") || text_eq name (codes "l")

-- The loop of `content_length_of`: the first line of that name decides.
unfoldable pub length_in_lines : List Text → ℕ
length_in_lines [] = 0
length_in_lines (l ∷ ls) =
    let rest = length_in_lines ls in
    elim (split_colon l) [
      | none ↦ rest
      | some (name, value) ↦
          if is_length_name (lower (strip name)) then announced (parse_int (strip value)) else rest
    ]

unfoldable pub content_length_of : Text → ℕ
unfolding length_in_lines
content_length_of header_block = length_in_lines (tail (split_lines header_block))

-- `while buffer[:2] == b"\r\n": buffer = buffer[2:]`
unfoldable pub skip_breaks : Text → Text
skip_breaks [] = []
skip_breaks (c ∷ []) = c ∷ []
skip_breaks (c ∷ d ∷ cs) =
    let rest = skip_breaks cs in if c == 13 && d == 10 then rest else c ∷ d ∷ cs

abbrev pub separator : Text
separator = 13 ∷ 10 ∷ 13 ∷ 10 ∷ []

abbrev pub take_message : Text → ℕ → Option (Text × Text)
take_message buffer total =
    if ltb (length buffer) total then none else some (take total buffer, drop total buffer)

abbrev pub frame_at : Text → Option ℕ → Option (Text × Text)
frame_at buffer none = none
frame_at buffer (some at) = take_message buffer (at + 4 + content_length_of (take at buffer))

-- One round of the loop of `split_messages`, on a buffer whose leading breaks are gone: the first
-- message and what follows it, or `none` where the loop returns.
unfoldable pub first_message : Text → Option (Text × Text)
first_message buffer = frame_at buffer (find? buffer separator)

-- The loop of `split_messages`, on fuel: a round removes at least four bytes.
unfoldable pub split_rounds : ℕ → Text → List Text × Text
split_rounds zero buffer = ([], skip_breaks buffer)
split_rounds (suc fuel) buffer = elim (first_message (skip_breaks buffer)) [
  | none ↦ ([], skip_breaks buffer)
  | some (message, rest) ↦ (message ∷ (split_rounds fuel rest).0, (split_rounds fuel rest).1)
]

unfoldable pub split_messages : Text → List Text × Text
unfolding split_rounds
split_messages buffer = split_rounds (suc (length buffer)) buffer
