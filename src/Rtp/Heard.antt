-- ===== src/Rtp/Heard.antt =====
-- What the far end hears of a key press, packets lost, repeated or in another order.
use talk_sip_bridge.Base.{
  ℕ, ◌%◌, ◌<◌, ◌≡◌, refl, sym, ap, ◌∙◌, ◌≢◌, ◌⊎◌, inl, inr, true, false, Option, none, some, List,
  [], ◌∷◌, arith, ltb, ◌==◌, length, get_or, drop, All,
}
use mathlib.Core.Path.{subst}
use talk_sip_bridge.Base.Text.{Text, text_eq, text_eq_iff}
use talk_sip_bridge.Dtmf.{event_digits, is_repeat, accepts, feed, DtmfEvents}
use talk_sip_bridge.Dtmf.Presses.{feed-first, feed-again}
use talk_sip_bridge.Rtp.{Media, RtpSession}
use talk_sip_bridge.Rtp.Sending.{Key, key_of, send_dtmf}
use talk_sip_bridge.Rtp.Pressed.{IsPartOf, key_text, send_dtmf_parts}
use talk_sip_bridge.Rtp.Receiving.{
  unpack32, handle_packet, handle_event, report_digit, report_heard, receive, after_packet,
  recv_loop, Arrival, handled, Handled,
}

abbrev pub IsOneOf : Text → List Text → Type 0
IsOneOf p [] = ⊥
IsOneOf p (x ∷ xs) = (p ≡ x) ⊎ IsOneOf p xs

All-IsOneOf :
    (k : Key) (digit : ℕ) (p : Text) (xs : List Text)
    → All (IsPartOf k digit) xs
    → IsOneOf p xs
    → IsPartOf k digit p
All-IsOneOf k digit p [] h o = elim o [ ]
All-IsOneOf k digit p (x ∷ xs) h o = elim o [
  | inl e ↦ subst (IsPartOf k digit) (sym e) h.0
  | inr later ↦ All-IsOneOf k digit p xs h.1 later
]

-- A packet of the far end that carries a part of a press.
abbrev IsHeard : RtpSession → Key → ℕ → Arrival → Type 0
IsHeard r k digit a = (a.addr.0 ≡ r.remote_addr.0) × IsPartOf k digit a.packet

-- What tells an event from audio.
abbrev Expects : RtpSession → Key → Type 0
Expects r k = r.dtmf_payload_type ≡ some k.dtmf_pt

event_is_handled :
    (m : Media) (r : RtpSession) (k : Key) (digit : ℕ) (a : Arrival)
    → Expects r k
    → IsHeard r k digit a
    → handle_packet m r a.packet a.addr a.now ≡ handle_event r a.packet a.now
unfolding handle_packet
event_is_handled m r k digit a x (from, (pt, len, ts, e, parsed, same)) =
    let known : text_eq a.addr.0 r.remote_addr.0 ≡ true =
      (text_eq_iff a.addr.0 r.remote_addr.0).1 from in
    let long : ltb (length a.packet) 12 ≡ false = rw len refl in
    let own : (k.dtmf_pt == k.dtmf_pt) ≡ true = ground arith in rw (known, long, x, pt, own) refl

-- A session that has reported the press that began at a time.
abbrev pub has_reported : RtpSession → ℕ → RtpSession
has_reported r t = record r { dtmf = record { reported = some t } }

-- What is made of what `feed` gives.
abbrev heard_as : RtpSession → ℕ → DtmfEvents × Option ℕ → RtpSession × List ℕ
heard_as r now (events, digit) = report_heard (record r { dtmf = events }) digit now

abbrev handled_as : RtpSession × List ℕ → RtpSession × Handled
handled_as (t, digits) = (t, handled digits)

event_is_received :
    (m : Media) (r : RtpSession) (k : Key) (digit : ℕ) (a : Arrival) (f : DtmfEvents × Option ℕ)
    → Expects r k
    → IsHeard r k digit a
    → feed r.dtmf (unpack32 (drop 4 a.packet)) (drop 12 a.packet) ≡ f
    → receive m r a.packet a.addr a.now ≡ heard_as r a.now f
unfolding receive handle_event
event_is_received m r k digit a f x h e =
    ap (λ y. after_packet y a.now) (event_is_handled m r k digit a x h)
    ∙ ap (λ y. after_packet (handled_as (heard_as r a.now y)) a.now) e

later_part :
    (m : Media) (r : RtpSession) (k : Key) (digit : ℕ) (a : Arrival)
    → Expects r k
    → IsHeard r k digit a
    → receive m (has_reported r k.started_at) a.packet a.addr a.now
      ≡ (has_reported r k.started_at, [])
later_part m r k digit a x (from, (pt, len, ts, e, parsed, same)) =
    event_is_received m (has_reported r k.started_at) k digit a
      (record { reported = some k.started_at }, none) x (from, (pt, len, ts, e, parsed, same))
      (ap (λ t. feed (record { reported = some k.started_at }) t (drop 12 a.packet)) ts
        ∙ feed-again k.started_at (drop 12 a.packet) e parsed)

later_parts :
    (m : Media) (r : RtpSession) (k : Key) (digit : ℕ) (later : List Arrival)
    → Expects r k
    → All (IsHeard r k digit) later
    → recv_loop m (has_reported r k.started_at) later ≡ (has_reported r k.started_at, [])
unfolding recv_loop
later_parts m r k digit [] x h = refl
later_parts m r k digit (a ∷ later) x (first, rest) =
    rw (later_part m r k digit a x first, later_parts m r k digit later x rest) refl

-- A guard lets a digit through.
abbrev pub IsLetThrough : RtpSession → ℕ → ℕ → Type 0
IsLetThrough r digit now = is_repeat r.guard.window r.guard.last digit now ≡ false

abbrev let_in : RtpSession → ℕ → ℕ → RtpSession
let_in r digit now = record r { guard = record r.guard { last = some (digit, now) } }

first_part :
    (m : Media) (r : RtpSession) (k : Key) (digit : ℕ) (a : Arrival)
    → Expects r k
    → IsHeard r k digit a
    → r.dtmf.reported ≢ some k.started_at
    → IsLetThrough r digit a.now
    → receive m r a.packet a.addr a.now
      ≡ (has_reported (let_in r digit a.now) k.started_at, digit ∷ [])
unfolding report_digit accepts
first_part m r k digit a x (from, (pt, len, ts, e, parsed, same)) new through =
    event_is_received m r k digit a (record { reported = some k.started_at }, some digit) x
      (from, (pt, len, ts, e, parsed, same))
      (ap (λ t. feed r.dtmf t (drop 12 a.packet)) ts
        ∙ feed-first r.dtmf k.started_at (drop 12 a.packet) e parsed new
        ∙ ap (λ d. (record { reported = some k.started_at }, some d)) same)
    ∙ rw through refl

press-IsHeard :
    (m : Media) (r : RtpSession) (k : Key) (digit : ℕ) (a : Arrival) (later : List Arrival)
    → Expects r k
    → All (IsHeard r k digit) (a ∷ later)
    → r.dtmf.reported ≢ some k.started_at
    → IsLetThrough r digit a.now
    → (recv_loop m r (a ∷ later)).1 ≡ digit ∷ []
unfolding recv_loop
press-IsHeard m r k digit a later x (first, rest) new through =
    rw
      (
        first_part m r k digit a x first new through,
        later_parts m (let_in r digit a.now) k digit later x rest,
      )
      refl

-- An arrival of one of the packets of a press, from the host that a session listens to.
abbrev pub IsFrom : RtpSession → List Text → Arrival → Type 0
IsFrom r sent a = (a.addr.0 ≡ r.remote_addr.0) × IsOneOf a.packet sent

All-IsHeard :
    (r : RtpSession) (k : Key) (digit : ℕ) (sent : List Text) (later : List Arrival)
    → All (IsPartOf k digit) sent
    → All (IsFrom r sent) later
    → All (IsHeard r k digit) later
All-IsHeard r k digit sent [] h f = tt
All-IsHeard r k digit sent (a ∷ later) h (f, fs) =
    ((f.0, All-IsOneOf k digit a.packet sent h f.1), All-IsHeard r k digit sent later h fs)

-- A key pressed in one session is reported exactly once by the session at the other end, which
-- agreed on the same payload type: whichever of its packets arrive, in whatever order and however
-- often, as long as one does. The session there has not just reported a press that began at the same
-- timestamp, and its guard does not take the digit for the repeat of another press.
pub key_arrives_once :
    (m : Media) (s r : RtpSession) (pt event duration_ms interval_ms : ℕ) (a : Arrival)
    (later : List Arrival)
    → s.dtmf_payload_type ≡ some pt
    → r.dtmf_payload_type ≡ some pt
    → pt < 128
    → event < 16
    → r.dtmf.reported ≢ some (s.timestamp % 4294967296)
    → IsLetThrough r (get_or event_digits event 0) a.now
    → All (IsFrom r (send_dtmf s (key_text event) duration_ms interval_ms).1) (a ∷ later)
    → (recv_loop m r (a ∷ later)).1 ≡ key_text event
key_arrives_once m s r pt event duration_ms interval_ms a later p q l e new through arrived =
    let k = key_of s pt event interval_ms in
    let digit = get_or event_digits event 0 in
    let sent = (send_dtmf s (key_text event) duration_ms interval_ms).1 in
    press-IsHeard m r k digit a later q
      (All-IsHeard r k digit sent (a ∷ later)
        (send_dtmf_parts s pt event duration_ms interval_ms p l e) arrived)
      new through
