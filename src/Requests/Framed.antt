-- ===== src/Requests/Framed.antt =====
-- What the bridge builds is framed by its own reader as one message, whatever follows it.
use talk_sip_bridge.Base.{
  ℕ, zero, suc, ◌+◌, ◌≡◌, refl, sym, ap, ◌∙◌, ◌≢◌, Bool, false, none, some, List, [], ◌∷◌, ◌++◌,
  arith, length, take, All, length-append, All-append, take-append, take_all, drop_all,
}
use mathlib.Core.List.{append-nil}
use talk_sip_bridge.Base.Text.{Text, codes, text_eq}
use talk_sip_bridge.Base.Decimal.{show, parse_int-show, strip-show, show-IsDigit, IsDigit}
use talk_sip_bridge.Base.Str.{strip, lower, split_colon, find?}
use talk_sip_bridge.Messages.{
  separator, tail, is_length_name, length_in_lines, content_length_of, skip_breaks, first_message,
  frame_at, split_rounds, split_messages,
}
use talk_sip_bridge.Messages.Framing.{resume, split_rounds-some, split_messages-append}
use talk_sip_bridge.Requests.{length_line, join_lines}
use talk_sip_bridge.Requests.Lines.{
  IsClean, IsLine, IsLine-IsClean, split_lines-join_lines, join_lines-append, find?-join_lines,
  join_lines-IsLine,
}

-- Whether a header line announces a length.
abbrev pub announces : Text → Bool
announces l = elim (split_colon l) [
  | none ↦ false
  | some (name, value) ↦ is_length_name (lower (strip name))
]

abbrev pub IsOther : Text → Type 0
IsOther l = announces l ≡ false

length_in_lines-own : (body : Text) → length_in_lines (length_line body ∷ []) ≡ length body
unfolding length_in_lines split_colon lower strip text_eq
length_in_lines-own body = rw (strip-show (length body), parse_int-show (length body))

length_in_lines-other :
    (l : Text) (ls : List Text) → IsOther l → length_in_lines (l ∷ ls) ≡ length_in_lines ls
unfolding length_in_lines
length_in_lines-other l ls h = ground arith

length_in_lines-append :
    (ls : List Text) (body : Text)
    → All IsOther ls
    → length_in_lines (ls ++ length_line body ∷ []) ≡ length body
length_in_lines-append [] body h = length_in_lines-own body
length_in_lines-append (l ∷ ls) body h =
    length_in_lines-other l (ls ++ length_line body ∷ []) h.0 ∙ length_in_lines-append ls body h.1

skip_breaks-IsLine : (l t : Text) → IsLine l → skip_breaks (l ++ t) ≡ l ++ t
unfolding skip_breaks
skip_breaks-IsLine [] t h = absurd h
skip_breaks-IsLine (c ∷ []) [] h = refl
skip_breaks-IsLine (c ∷ []) (d ∷ t) h = ground arith
skip_breaks-IsLine (c ∷ d ∷ cs) t h = ground arith

split_messages-nil : (f : ℕ) → split_rounds f [] ≡ ([], [])
unfolding split_rounds first_message find? skip_breaks
split_messages-nil zero = refl
split_messages-nil (suc f) = refl

pub digits-IsClean : (s : Text) → All IsDigit s → IsClean s
digits-IsClean [] h = tt
digits-IsClean (c ∷ cs) h = (omega arith, digits-IsClean cs h.1)

IsLine-length_line : (body : Text) → IsLine (length_line body)
IsLine-length_line body =
    All-append (λ c. c ≢ 13) (codes "Content-Length: ") (show (length body)) (omega arith)
      (digits-IsClean (show (length body)) (show-IsDigit (length body)))

-- The header lines of a message, its first line apart.
abbrev pub below_first : List Text → Text → List Text
below_first mids body = mids ++ length_line body ∷ []

pub below_first-IsLine :
    (mids : List Text) (body : Text) → All IsLine mids → All IsLine (below_first mids body)
below_first-IsLine mids body h =
    All-append IsLine mids (length_line body ∷ []) h (IsLine-length_line body, tt)

All-IsClean : (ls : List Text) → All IsLine ls → All IsClean ls
All-IsClean [] h = tt
All-IsClean (l ∷ ls) h = (IsLine-IsClean l h.0, All-IsClean ls h.1)

content_length_of-head :
    (first : Text) (mids : List Text) (body : Text)
    → IsLine first
    → All IsLine mids
    → All IsOther mids
    → content_length_of (join_lines (first ∷ below_first mids body)) ≡ length body
unfolding content_length_of
content_length_of-head first mids body h k o =
    ap (λ ls. length_in_lines (tail ls))
      (split_lines-join_lines first (below_first mids body) (IsLine-IsClean first h)
        (All-IsClean _ (below_first-IsLine mids body k)))
    ∙ length_in_lines-append mids body o

-- The message of a first line, the header lines below it, and a body.
abbrev pub message : Text → List Text → Text → Text
message first mids body = join_lines ((first ∷ below_first mids body) ++ [] ∷ body ∷ [])

frame_at-head :
    (head body : Text)
    → content_length_of head ≡ length body
    → frame_at (head ++ (separator ++ body)) (some (length head))
      ≡ some (head ++ (separator ++ body), [])
frame_at-head head body e =
    let whole = head ++ (separator ++ body) in
    let at_head =
      take-append (length head) head (separator ++ body) (omega arith)
      ∙ take_all (length head) head refl in
    let total = length head + 4 + content_length_of (take (length head) whole) in
    let fits : total ≡ length whole =
      ap (λ t. length head + 4 + content_length_of t) at_head
      ∙ omega (arith, e, length-append head (separator ++ body)) in
    ground (arith, fits, take_all total whole, drop_all total whole)

first_message-message :
    (first : Text) (mids : List Text) (body : Text)
    → IsLine first
    → All IsLine mids
    → All IsOther mids
    → first_message (message first mids body) ≡ some (message first mids body, [])
unfolding first_message
first_message-message first mids body h k o =
    let head = join_lines (first ∷ below_first mids body) in
    rw (join_lines-append first (below_first mids body) body) (
      ap (frame_at (head ++ (separator ++ body)))
        (find?-join_lines first (below_first mids body) body h (below_first-IsLine mids body k))
      ∙ frame_at-head head body (content_length_of-head first mids body h k o))

skip_breaks-message :
    (first : Text) (mids : List Text) (body : Text)
    → IsLine first
    → skip_breaks (message first mids body) ≡ message first mids body
skip_breaks-message first mids body h =
    let whole = message first mids body in
    let (u, e) = join_lines-IsLine first (below_first mids body ++ [] ∷ body ∷ []) [] h in
    let same = sym (append-nil whole) ∙ e in
    ap skip_breaks same ∙ skip_breaks-IsLine first u h ∙ sym same

split_messages-message :
    (first : Text) (mids : List Text) (body : Text)
    → IsLine first
    → All IsLine mids
    → All IsOther mids
    → split_messages (message first mids body) ≡ (message first mids body ∷ [], [])
unfolding split_messages
split_messages-message first mids body h k o =
    let whole = message first mids body in
    let found =
      ap first_message (skip_breaks-message first mids body h)
      ∙ first_message-message first mids body h k o in
    split_rounds-some (length whole) whole found ∙ rw (split_messages-nil (length whole))

-- A message built from clean lines, none of which announces another length, comes out of a stream
-- whole and unchanged, and what follows it is framed as if it stood alone.
pub message_framed :
    (first : Text) (mids : List Text) (body rest : Text)
    → IsLine first
    → All IsLine mids
    → All IsOther mids
    → split_messages (message first mids body ++ rest)
      ≡ (message first mids body ∷ (split_messages rest).0, (split_messages rest).1)
message_framed first mids body rest h k o =
    split_messages-append (message first mids body) rest
    ∙ ap (λ r. resume r rest) (split_messages-message first mids body h k o)
