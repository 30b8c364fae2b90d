-- ===== src/Rtp/Receiving.antt =====
-- What becomes of a packet that arrives: `_recv_loop` and what it calls, of bridge/rtp.py.
use talk_sip_bridge.Base.{
  ℕ, ◌+◌, ◌-◌, ◌*◌, ◌%◌, Bool, true, false, not, ◌&&◌, Option, none, some, List, [], ◌∷◌, ◌++◌, map,
  ltb, ◌==◌, if◌then◌else◌, length, get_or, drop,
}
use talk_sip_bridge.Base.Text.{Text, text_eq}
use talk_sip_bridge.Codec.{ulaw_to_linear, alaw_to_linear}
use talk_sip_bridge.Dtmf.{accepts}
use talk_sip_bridge.Dtmf.{feed}
use talk_sip_bridge.Inband
use talk_sip_bridge.Rtp.{Samples, Media, RtpSession, pcmu, pcma, g722}

-- `struct.unpack("!I", ...)` of four bytes.
unfoldable pub unpack32 : Text → ℕ
unpack32 (a ∷ b ∷ c ∷ d ∷ rest) = ((a * 256 + b) * 256 + c) * 256 + d
unpack32 _ = 0

abbrev had {ℓ} : {A : Type ℓ} → Option (List A) → List A
had none = []
had (some xs) = xs

-- What `_decode` gives: samples, None, or an exception of the codec.
pub data Decoded : Type 0 where
  samples : Samples → Decoded
  unknown : Decoded
  raises : Decoded

abbrev decoded_or_raises : Option Samples → Decoded
decoded_or_raises none = raises
decoded_or_raises (some pcm) = samples pcm

unfoldable pub decode : Media → RtpSession → Text → ℕ → RtpSession × Decoded
decode m s payload payload_type =
    if payload_type == g722
    then (
      record s { decoder = some (payload ∷ had s.decoder) },
      decoded_or_raises (m.g722_decode (had s.decoder) payload),
    )
    else if payload_type == pcmu
    then (s, samples (map ulaw_to_linear payload))
    else if payload_type == pcma
    then (s, samples (map alaw_to_linear payload))
    else (s, unknown)

-- `report_digit`: the digits handed to `on_dtmf`. What that raises is reported and forgotten.
unfoldable pub report_digit : RtpSession → ℕ → ℕ → RtpSession × List ℕ
report_digit s digit now =
    let (g, accepted) = accepts s.guard digit now in
    (record s { guard = g }, if accepted then digit ∷ [] else [])

abbrev pub report_heard : RtpSession → Option ℕ → ℕ → RtpSession × List ℕ
report_heard s none now = (s, [])
report_heard s (some digit) now = report_digit s digit now

-- `DtmfCapture.add` of bridge/dtmf_capture.py.
unfoldable pub captured : Option (List Samples) → Samples → Option (List Samples)
captured none pcm = none
captured (some blocks) pcm =
    if ltb (length blocks) 3000 then some (blocks ++ pcm ∷ []) else some blocks

-- How a packet ends: with the digits reported, or in an exception.
pub data Handled : Type 0 where
  handled : List ℕ → Handled
  failed : Handled

unfoldable pub listen : Media → RtpSession → Samples → RtpSession × Option ℕ
listen m s pcm = elim s.inband [
  | none ↦ (s, none)
  | some i ↦
      let (j, digit) = talk_sip_bridge.Inband.feed i (m.digit_in_block s.sample_rate pcm) in
      (record s { inband = some j }, digit)
]

unfoldable pub take_audio : Media → RtpSession → Decoded → ℕ → RtpSession × Handled
take_audio m s unknown now = (s, handled [])
take_audio m s raises now = (s, failed)
take_audio m s (samples pcm) now =
    let (t, heard) = listen m s pcm in
    let (u, digits) = report_heard t heard now in
    (
      record u { capture = captured u.capture pcm; recv_queue = u.recv_queue ++ pcm ∷ [] },
      handled digits,
    )

abbrev pub is_pt : Option ℕ → ℕ → Bool
is_pt none payload_type = false
is_pt (some n) payload_type = payload_type == n

-- A payload type that nobody agreed on is reported when it is new.
abbrev pub noticed : RtpSession → ℕ → RtpSession
noticed s payload_type =
    if not (payload_type == s.payload_type) && not (is_pt s.reported_pt payload_type)
    then record s { reported_pt = some payload_type }
    else s

unfoldable pub handle_audio : Media → RtpSession → Text → ℕ → ℕ → RtpSession × Handled
handle_audio m s payload payload_type now =
    let (t, decoded) = decode m (noticed s payload_type) payload payload_type in
    take_audio m t decoded now

unfoldable pub handle_event : RtpSession → Text → ℕ → RtpSession × Handled
handle_event s packet now =
    let (events, digit) = feed s.dtmf (unpack32 (drop 4 packet)) (drop 12 packet) in
    let (t, digits) = report_heard (record s { dtmf = events }) digit now in (t, handled digits)

unfoldable pub handle_packet : Media → RtpSession → Text → Text × ℕ → ℕ → RtpSession × Handled
handle_packet m s packet addr now =
    let payload_type = get_or packet 1 0 % 128 in
    if not (text_eq addr.0 s.remote_addr.0)
    then (s, handled [])
    else if ltb (length packet) 12
    then (s, handled [])
    else if is_pt s.dtmf_payload_type payload_type
    then handle_event s packet now
    else handle_audio m s (drop 12 packet) payload_type now

-- `_packet_failed`; whether the fault was printed comes with the state.
unfoldable pub packet_failed : RtpSession → ℕ → RtpSession × Bool
packet_failed s now =
    let t = record s { failed_packets = s.failed_packets + 1 } in
    if ltb (now - s.last_packet_error) 5000
    then (t, false)
    else (record t { last_packet_error = now }, true)

abbrev pub after_packet : RtpSession × Handled → ℕ → RtpSession × List ℕ
after_packet (s, handled digits) now = (s, digits)
after_packet (s, failed) now = ((packet_failed s now).0, [])

-- One round of `_recv_loop` in which a packet arrived.
unfoldable pub receive : Media → RtpSession → Text → Text × ℕ → ℕ → RtpSession × List ℕ
receive m s packet addr now = after_packet (handle_packet m s packet addr now) now

-- A packet with where it came from and when.
pub record Arrival : Type 0 where
  pub packet : Text
  pub addr : Text × ℕ
  pub now : ℕ

unfoldable pub recv_loop : Media → RtpSession → List Arrival → RtpSession × List ℕ
recv_loop m s [] = (s, [])
recv_loop m s (a ∷ rest) =
    let (t, digits) = receive m s a.packet a.addr a.now in
    let (u, more) = recv_loop m t rest in (u, digits ++ more)
