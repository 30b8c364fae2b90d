-- ===== src/DialIn.antt =====
-- bridge/dialin_ivr.py: the dialogue with a caller who dialled a conference line. The tones and the
-- recordings are parameters. `press` and `stop` are called by other threads: between two steps of
-- the dialogue any of them may happen, and which do is an input.
pub mod Meeting
pub mod Keys
pub mod Numbers
mod Trace
pub mod Verdicts
pub mod Questions
pub mod Asking
pub mod Placed
use talk_sip_bridge.Base.{
  ℕ, zero, suc, ◌+◌, ◌-◌, ◌*◌, ◌/◌, ◌%◌, ◌^◌, ◌≤◌, ◌<◌, min, ◌≡◌, refl, sym, ap, ap₂, ◌∙◌, ◌≢◌, ◌↔◌,
  ◌⊎◌, inl, inr, Bool, true, false, not, ◌&&◌, ◌||◌, Option, none, some, List, [], ◌∷◌, ◌++◌, map,
  arith, ltb, leb, ◌==◌, if◌then◌else◌, ltb→lt, lt→ltb, leb→le, ==_iff, Bool-cases, Option-cases,
  length, get_or, set, take, drop, replicate, All, length-append, take-append-drop, length-take,
  length-drop, length-replicate, All-append, length_zero, take-append, drop-append,
}
use talk_sip_bridge.Base.Text.{Text, codes}
use talk_sip_bridge.Base.Dict.{get}
use talk_sip_bridge.Base.Chunks.{chunks}
use talk_sip_bridge.Base.Int.{ℤ, pos}
use talk_sip_bridge.DialIn.Meeting.{Data, Outcome, ok, needs_pin, unknown, refused}

abbrev pub Samples : Type 0
Samples = List ℤ

-- Constants of the module; `terminator` is "#" and `clear` is "*".
abbrev pub max_digits : ℕ
max_digits = 32

abbrev pub terminator : ℕ
terminator = 35

abbrev pub clear : ℕ
clear = 42

pub data Happening : Type 0 where
  pressed : ℕ → Happening
  hung_up : Happening

-- One call of `resolve` and what it gave.
pub record Asked : Type 0 where
  pub token : Text
  pub pin : Option Text
  pub outcome : Outcome
  pub room : Option Data

-- `ahead` has what still happens, by step; `asked` and `heard` are newest first.
pub record Ivr : Type 0 where
  pub digits : List (Option ℕ)
  pub stopped : Bool
  pub ahead : List (List Happening)
  pub heard : List Samples
  pub asked : List Asked

-- What `__init__` keeps. The n-th call of `resolve` may answer otherwise than the one before.
pub record Setup : Type 0 where
  pub resolve : ℕ → Text → Option Text → Outcome × Option Data
  pub samples_per_packet : ℕ
  pub gap_polls : ℕ  -- how often `_waits_for_a_key` looks in the prompt gap
  pub prompts : List Samples
  pub pin_prompts : List Samples
  pub accepted : Samples
  pub rejected : Samples

unfoldable pub press : Ivr → ℕ → Ivr
press d digit = record d { digits = d.digits ++ some digit ∷ [] }

unfoldable pub stop : Ivr → Ivr
stop d = record d { stopped = true; digits = d.digits ++ none ∷ [] }

abbrev pub happen : Ivr → Happening → Ivr
happen d (pressed c) = press d c
happen d hung_up = stop d

unfoldable pub happen_all : Ivr → List Happening → Ivr
happen_all d [] = d
happen_all d (h ∷ hs) = happen_all (happen d h) hs

-- The others get their turn.
unfoldable pub pass : Ivr → Ivr
pass d = elim d.ahead [ [] ↦ d | hs ∷ rest ↦ happen_all (record d { ahead = rest }) hs ]

abbrev pub has_key : Ivr → Bool
has_key d = elim d.digits [ [] ↦ false | k ∷ ks ↦ true ]

-- `self.stopped.is_set() or not self.digits.empty()`
abbrev pub is_interrupted : Ivr → Bool
is_interrupted d = d.stopped || has_key d

unfoldable pub play_chunks : List Samples → Ivr → Ivr
play_chunks [] d = d
play_chunks (c ∷ cs) d =
    let e = pass d in
    let f = play_chunks cs (record e { heard = c ∷ e.heard }) in if is_interrupted e then e else f

unfoldable pub play : Setup → Samples → Ivr → Ivr
play s samples d = play_chunks (chunks (length samples) s.samples_per_packet samples) d

unfoldable pub waits_for_a_key : ℕ → Ivr → Bool × Ivr
waits_for_a_key zero d = let e = pass d in (has_key e, e)
waits_for_a_key (suc polls) d =
    let e = pass d in
    let rest = waits_for_a_key polls e in if is_interrupted e then (has_key e, e) else rest

unfoldable pub announce : Setup → List Samples → Ivr → Ivr
announce s [] d = d
announce s (prompt ∷ []) d = let e = pass d in if is_interrupted e then e else play s prompt e
announce s (prompt ∷ next ∷ prompts) d =
    let e = pass d in
    let (answered, f) = waits_for_a_key s.gap_polls (play s prompt e) in
    let g = announce s (next ∷ prompts) f in
    if is_interrupted e then e else if answered then f else g

-- What `digits.get` gives: nothing before the timeout, what `stop` puts there, or a key.
pub data Got : Type 0 where
  empty : Got
  sentinel : Got
  key : ℕ → Got

unfoldable pub next_digit : Ivr → Got × Ivr
next_digit d =
    let e = pass d in
    elim e.digits [
      | [] ↦ (empty, e)
      | none ∷ ks ↦ (sentinel, record e { digits = ks })
      | some c ∷ ks ↦ (key c, record e { digits = ks })
    ]

-- What a round of `collect` ends with: the text returned, or the text so far.
pub data Round : Type 0 where
  returned : Text → Round
  so_far : Text → Round

abbrev pub typed_key : Text → ℕ → Round
typed_key typed c =
    if leb max_digits (length (typed ++ c ∷ []))
    then returned (typed ++ c ∷ [])
    else so_far (typed ++ c ∷ [])

abbrev pub terminated : Text → Round
terminated [] = so_far []
terminated (c ∷ cs) = returned (c ∷ cs)

unfoldable pub key_round : Text → Got → Round
key_round typed empty = returned typed
key_round typed sentinel = returned []
key_round typed (key c) =
    if c == terminator
    then terminated typed
    else if c == clear
    then so_far []
    else typed_key typed c

-- What becomes of a round: whether the caller had hung up before it, what it ended with, and `again`
-- for the rounds after it.
abbrev pub after_round : (Text → Ivr → Text × Ivr) → Ivr → Bool → Round → Ivr → Text × Ivr
after_round again e true round f = ([], e)
after_round again e false (returned text) f = (text, f)
after_round again e false (so_far text) f = again text f

unfoldable pub collect_rounds : ℕ → Text → Ivr → Text × Ivr
collect_rounds zero typed d = ([], d)
collect_rounds (suc n) typed d =
    let e = pass d in
    let (got, f) = next_digit e in
    after_round (collect_rounds n) e e.stopped (key_round typed got) f

unfoldable pub happenings : List (List Happening) → ℕ
happenings [] = 0
happenings (hs ∷ rest) = length hs + happenings rest

-- How many items `digits.get` can still give.
unfoldable pub items : Ivr → ℕ
items d = length d.digits + happenings d.ahead

unfoldable pub collect : Ivr → Text × Ivr
collect d = collect_rounds (suc (items d)) [] d

-- How a dialogue ends: in a room, without one, or in the exception of `room["token"]`.
pub data Ended : Type 0 where
  entered : Data → Ended
  left : Ended
  failed : Ended

pub data Step : Type 0 where
  over : Ended → Ivr → Step
  next : Ivr → Step

unfoldable pub ask : Setup → Text → Option Text → Ivr → Ivr
ask s token pin d =
    let (outcome, room) = s.resolve (length d.asked) token pin in
    record d {
      asked = (record { token = token; pin = pin; outcome = outcome; room = room }) ∷ d.asked;
    }

abbrev pub latest : Ivr → Outcome × Option Data
latest d = elim d.asked [ [] ↦ (unknown, none) | a ∷ rest ↦ (a.outcome, a.room) ]

-- `room["token"]`, which raises where the key is missing.
abbrev pub admitted : Setup → Option Text → Data → Ivr → Step
admitted s none room d = over failed d
admitted s (some token) room d = over (entered room) (play s s.accepted d)

-- After the last answer to one attempt.
unfoldable pub verdict : Setup → Outcome × Option Data → Ivr → Step
verdict s (ok, some room) d = admitted s (get (codes "token") room) room d
verdict s (ok, none) d = over failed d
verdict s (refused, room) d = over left (play s s.rejected d)
verdict s (_, room) d = next (play s s.rejected d)

abbrev pub with_pin : Setup → Text → Text → Ivr → Step
with_pin s token [] d = verdict s (unknown, none) d
with_pin s token (c ∷ cs) d = let e = ask s token (some (c ∷ cs)) d in verdict s (latest e) e

unfoldable pub ask_pin : Setup → Text → Ivr → Step
ask_pin s token d =
    let (pin, e) = collect (announce s s.pin_prompts d) in
    let f = pass e in if f.stopped then over left f else with_pin s token pin f

unfoldable pub answered : Setup → Text → Outcome × Option Data → Ivr → Step
answered s token (needs_pin, room) d = ask_pin s token d
answered s token answer d = verdict s answer d

abbrev pub with_token : Setup → Text → Ivr → Step
with_token s [] d = next (play s s.rejected d)
with_token s (c ∷ cs) d = let e = ask s (c ∷ cs) none d in answered s (c ∷ cs) (latest e) e

unfoldable pub attempt : Setup → Ivr → Step
attempt s d =
    let (token, e) = collect (announce s s.prompts d) in
    let f = pass e in if f.stopped then over left f else with_token s token f

-- `run`, with `self.attempts` as its first argument.
unfoldable pub run : ℕ → Setup → Ivr → Ended × Ivr
run zero s d = (left, d)
run (suc attempts) s d = elim (attempt s d) [
  | over ended e ↦ (ended, e)
  | next e ↦ run attempts s e
]
