-- ===== src/Rtp/Pressed.antt =====
-- A key press from one session to another.
use talk_sip_bridge.Base.{
  ℕ, zero, suc, ◌+◌, ◌*◌, ◌/◌, ◌%◌, ◌<◌, ◌≡◌, refl, ap, inl, inr, Bool, true, false, Option, none,
  some, List, [], ◌∷◌, ◌++◌, arith, ltb, leb, ◌==◌, if◌then◌else◌, ==_iff, Bool-cases, length,
  get_or, drop, All,
}
use talk_sip_bridge.Base.Text.{Text}
use talk_sip_bridge.Base.Str.{find?}
use talk_sip_bridge.Codec.Roundtrip.{all_below, below}
use talk_sip_bridge.Dtmf.{event_digits, parse_event, ParsedEvent}
use talk_sip_bridge.Rtp.{RtpSession, pack_header, be16, be32}
use talk_sip_bridge.Rtp.Sending.{
  Key, Keyed, keyed, upper, send_event, event_payload, then_send, send_ends, send_held, advanced,
  key_of, send_dtmf, marked, struct_error, runtime_error, value_error, at_least_one,
}
use talk_sip_bridge.Rtp.Receiving.{unpack32}

abbrev is_at : Option ℕ → ℕ → Bool
is_at none event = false
is_at (some n) event = n == event

-- A packet of a press: its payload type, its length, its timestamp and its digit.
abbrev pub IsPartOf : Key → ℕ → Text → Type 0
IsPartOf k digit p =
    (get_or p 1 0 % 128 ≡ k.dtmf_pt)
    × (length p ≡ 16)
    × (unpack32 (drop 4 p) ≡ k.started_at)
    × (e : ParsedEvent) × (parse_event (drop 12 p) ≡ some e)
    × (e.digit ≡ digit)

bytes_of :
    (n : ℕ)
    → n < 4294967296
    → ((n % 4294967296 / 16777216 % 256 * 256 + n % 4294967296 / 65536 % 256) * 256
            + n % 4294967296 / 256 % 256)
          * 256
        + n % 4294967296 % 256
      ≡ n
bytes_of n l = omega arith

marked_pt : (index pt : ℕ) → pt < 128 → marked index pt % 128 ≡ pt
marked_pt index pt l = ground arith

packet_IsPartOf :
    (k : Key) (index seq ssrc samples : ℕ) (end : Bool)
    → k.dtmf_pt < 128
    → k.started_at < 4294967296
    → k.event < 16
    → IsPartOf k (get_or event_digits k.event 0) (
        pack_header (marked index k.dtmf_pt) seq k.started_at ssrc
        ++ event_payload k.event samples end)
unfolding pack_header event_payload be16 be32 unpack32 parse_event
packet_IsPartOf k index seq ssrc samples end p l e =
    let is_event : leb 16 k.event ≡ false = ground arith in
    (
      marked_pt index k.dtmf_pt p,
      refl,
      bytes_of k.started_at l,
      record {
        digit = get_or event_digits k.event 0;
        end = (if end then 138 else 10) / 128 % 2 == 1;
        duration = samples / 256 % 256 * 256 + samples % 256;
      },
      rw is_event refl,
      refl,
    )

-- A key that a session can send as events.
abbrev pub IsKey : Key → Type 0
IsKey k = (k.dtmf_pt < 128) × (k.started_at < 4294967296) × (k.event < 16)

abbrev ArePartsOf : Key → RtpSession × List Text × Keyed → Type 0
ArePartsOf k (s, sent, how) = All (IsPartOf k (get_or event_digits k.event 0)) sent

send_event_parts :
    (s t : RtpSession) (k : Key) (index samples : ℕ) (end : Bool)
    (rest : RtpSession → RtpSession × List Text × Keyed)
    → IsKey k
    → ((t : RtpSession) → ArePartsOf k (rest t))
    → ArePartsOf k (then_send (send_event s k index samples end) t rest)
unfolding send_event
send_event_parts s t k index samples end rest (p, l, e) h = elim (Bool-cases (ltb 65535 samples)) [
  | inl long ↦ rw long tt
  | inr fits ↦
      rw fits
        (packet_IsPartOf k index s.seq s.ssrc samples end p l e, h (record s { seq = s.seq + 1 }))
]

send_ends_parts :
    (n : ℕ) (s : RtpSession) (k : Key) (packets : ℕ)
    → IsKey k
    → ArePartsOf k (send_ends n s k packets)
unfolding send_ends
send_ends_parts zero s k packets h = tt
send_ends_parts (suc n) s k packets h =
    send_event_parts s s k packets (k.per_packet * packets) true (λ t. send_ends n t k packets) h
      (λ t. send_ends_parts n t k packets h)

send_held_parts :
    (left index : ℕ) (s : RtpSession) (k : Key) → IsKey k → ArePartsOf k (send_held left index s k)
unfolding send_held
send_held_parts zero index s k h = send_ends_parts 3 s k index h
send_held_parts (suc left) index s k h =
    send_event_parts s s k index (k.per_packet * (index + 1)) false
      (λ t. send_held left (index + 1) t k) h (λ t. send_held_parts left (index + 1) t k h)

advanced_parts :
    (k : Key) (packets : ℕ) (s : RtpSession) (sent : List Text) (how : Keyed)
    → ArePartsOf k (s, sent, how)
    → ArePartsOf k (advanced k packets (s, sent, how))
advanced_parts k packets s sent keyed h = h
advanced_parts k packets s sent runtime_error h = h
advanced_parts k packets s sent value_error h = h
advanced_parts k packets s sent struct_error h = h

-- The text of the key of an event.
abbrev pub key_text : ℕ → Text
key_text event = get_or event_digits event 0 ∷ []

abbrev is_found : ℕ → Bool
is_found event = is_at (find? event_digits (upper (key_text event))) event

all_found : all_below 16 is_found ≡ true
unfolding all_below find? upper
all_found = refl

found_at : (o : Option ℕ) (event : ℕ) → is_at o event ≡ true → o ≡ some event
found_at none event h = cc
found_at (some n) event h = ap some ((==_iff n event).0 h)

key_found : (event : ℕ) → event < 16 → find? event_digits (upper (key_text event)) ≡ some event
key_found event l =
    found_at (find? event_digits (upper (key_text event))) event
      (below 16 is_found event all_found l)

pub send_dtmf_parts :
    (s : RtpSession) (pt event duration_ms interval_ms : ℕ)
    → s.dtmf_payload_type ≡ some pt
    → pt < 128
    → event < 16
    → ArePartsOf
        (key_of s pt event interval_ms)
        (send_dtmf s (key_text event) duration_ms interval_ms)
unfolding send_dtmf
send_dtmf_parts s pt event duration_ms interval_ms p l e =
    let k = key_of s pt event interval_ms in
    let packets = at_least_one (duration_ms / interval_ms) in
    let (t, sent, how) = send_held packets 0 s k in
    rw (send_dtmf, p, key_found event e)
      (advanced_parts k packets t sent how (send_held_parts packets 0 s k (l, omega arith, e)))
