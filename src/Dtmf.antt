-- ===== src/Dtmf.antt =====
-- bridge/dtmf.py: key presses as RTP events. A byte is a number below 256, a digit is its code point,
-- and times are numbers of one clock.
pub mod Presses
use talk_sip_bridge.Base.{
  ℕ, zero, suc, ◌+◌, ◌-◌, ◌*◌, ◌/◌, ◌%◌, ◌^◌, ◌≤◌, ◌<◌, min, ◌≡◌, refl, sym, ap, ap₂, ◌∙◌, ◌≢◌, ◌↔◌,
  ◌⊎◌, inl, inr, Bool, true, false, not, ◌&&◌, ◌||◌, Option, none, some, List, [], ◌∷◌, ◌++◌, map,
  arith, ltb, leb, ◌==◌, if◌then◌else◌, ltb→lt, lt→ltb, leb→le, ==_iff, Bool-cases, Option-cases,
  length, get_or, set, take, drop, replicate, All, length-append, take-append-drop, length-take,
  length-drop, length-replicate, All-append, length_zero, take-append, drop-append,
}
use talk_sip_bridge.Base.Text.{Text, codes}

abbrev pub event_digits : Text
event_digits = codes "0123456789*#ABCD"

-- An event packet's digit, end marker and duration.
pub record ParsedEvent : Type 0 where
  pub digit : ℕ
  pub end : Bool
  pub duration : ℕ

-- `parse_event`: `struct.unpack("!BBH", payload[:4])` of at least four bytes.
unfoldable pub parse_event : Text → Option ParsedEvent
parse_event (event ∷ flags ∷ high ∷ low ∷ rest) =
    if leb (length event_digits) event
    then none
    else some (record {
      digit = get_or event_digits event 0;
      end = flags / 128 % 2 == 1;
      duration = high * 256 + low;
    })
parse_event _ = none

-- `DigitGuard`: the last digit let through, with its time.
pub record DigitGuard : Type 0 where
  pub window : ℕ
  pub last : Option (ℕ × ℕ)

abbrev pub new_guard : ℕ → DigitGuard
new_guard window = record { window = window; last = none }

-- `digit == self._digit and self._at is not None and now - self._at < self.window`
abbrev pub is_repeat : ℕ → Option (ℕ × ℕ) → ℕ → ℕ → Bool
is_repeat window none digit now = false
is_repeat window (some (d, at)) digit now = (digit == d) && ltb now (at + window)

unfoldable pub accepts : DigitGuard → ℕ → ℕ → DigitGuard × Bool
accepts g digit now =
    if is_repeat g.window g.last digit now
    then (g, false)
    else (record g { last = some (digit, now) }, true)

-- `DtmfEvents`: the timestamp last reported.
pub record DtmfEvents : Type 0 where
  pub reported : Option ℕ

abbrev pub new_events : DtmfEvents
new_events = record { reported = none }

abbrev is_reported : Option ℕ → ℕ → Bool
is_reported none timestamp = false
is_reported (some t) timestamp = t == timestamp

abbrev start_press : DtmfEvents → ℕ → Option ParsedEvent → DtmfEvents × Option ℕ
start_press s timestamp none = (s, none)
start_press s timestamp (some e) =
    if is_reported s.reported timestamp
    then (s, none)
    else (record { reported = some timestamp }, some e.digit)

unfoldable pub feed : DtmfEvents → ℕ → Text → DtmfEvents × Option ℕ
unfolding parse_event
feed s timestamp payload = start_press s timestamp (parse_event payload)
