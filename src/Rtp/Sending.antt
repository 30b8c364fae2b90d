-- ===== src/Rtp/Sending.antt =====
-- `send_pcm` and `send_dtmf` of bridge/rtp.py.
use talk_sip_bridge.Base.{
  ℕ, zero, suc, ◌+◌, ◌-◌, ◌*◌, ◌/◌, ◌%◌, Bool, true, false, ◌&&◌, Option, none, some, List, [], ◌∷◌,
  ◌++◌, map, ltb, leb, ◌==◌, if◌then◌else◌, length,
}
use talk_sip_bridge.Base.Text.{Text}
use talk_sip_bridge.Base.Str.{find?}
use talk_sip_bridge.Base.Chunks.{chunks}
use talk_sip_bridge.Codec.{linear_to_ulaw, linear_to_alaw}
use talk_sip_bridge.Dtmf.{event_digits}
use talk_sip_bridge.Rtp.{Samples, Media, RtpSession, pcma, g722, clock_increment, pack_header, be16}

abbrev had {ℓ} : {A : Type ℓ} → Option (List A) → List A
had none = []
had (some xs) = xs

-- `_encode`
unfoldable pub encode : Media → RtpSession → Samples → RtpSession × Text
encode m s chunk =
    if s.payload_type == g722
    then (record s { encoder = some (chunk ∷ had s.encoder) }, m.g722_encode (had s.encoder) chunk)
    else if s.payload_type == pcma
    then (s, map linear_to_alaw chunk)
    else (s, map linear_to_ulaw chunk)

unfoldable pub send_chunk : Media → RtpSession → Samples → RtpSession × Text
send_chunk m s chunk =
    let (t, payload) = encode m s chunk in
    (
      record t { seq = s.seq + 1; timestamp = s.timestamp + clock_increment },
      pack_header s.payload_type s.seq s.timestamp s.ssrc ++ payload,
    )

unfoldable pub send_chunks : Media → RtpSession → List Samples → RtpSession × List Text
send_chunks m s [] = (s, [])
send_chunks m s (c ∷ cs) =
    let (t, packet) = send_chunk m s c in
    let (u, packets) = send_chunks m t cs in (u, packet ∷ packets)

unfoldable pub send_pcm : Media → RtpSession → Samples → RtpSession × List Text
send_pcm m s pcm = send_chunks m s (chunks (length pcm) s.samples_per_packet pcm)

-- How `send_dtmf` ends: `struct_error` where the duration does not fit into two bytes.
pub data Keyed : Type 0 where
  keyed : Keyed
  runtime_error : Keyed
  value_error : Keyed
  struct_error : Keyed

-- `digit.upper()`, of ASCII: no other letter has an upper case among the digits of an event.
unfoldable pub upper : Text → Text
upper [] = []
upper (c ∷ cs) = (if leb 97 c && leb c 122 then c - 32 else c) ∷ upper cs

-- `(0x80 if index == 0 else 0) | self.dtmf_payload_type`, of a byte.
abbrev pub marked : ℕ → ℕ → ℕ
marked index payload_type = if index == 0 then 128 + payload_type % 128 else payload_type

-- `struct.pack("!BBH", event, (0x80 if end else 0) | 10, samples)`
unfoldable pub event_payload : ℕ → ℕ → Bool → Text
event_payload event samples end = event ∷ (if end then 138 else 10) ∷ be16 samples

-- One press as it goes out: all under one timestamp.
pub record Key : Type 0 where
  pub dtmf_pt : ℕ
  pub event : ℕ
  pub started_at : ℕ
  pub per_packet : ℕ

-- The `send` inside `send_dtmf`.
unfoldable pub send_event : RtpSession → Key → ℕ → ℕ → Bool → Option (RtpSession × Text)
send_event s k index samples end =
    if ltb 65535 samples
    then none
    else some (
      record s { seq = s.seq + 1 },
      pack_header (marked index k.dtmf_pt) s.seq k.started_at s.ssrc
          ++ event_payload k.event samples end,
    )

-- The packets sent, and the state, when every one goes out, or when the next raises.
abbrev pub then_send :
    Option (RtpSession × Text)
    → RtpSession
    → (RtpSession → RtpSession × List Text × Keyed)
    → RtpSession × List Text × Keyed
then_send none s rest = (s, [], struct_error)
then_send (some (t, packet)) s rest = let (u, packets, how) = rest t in (u, packet ∷ packets, how)

-- `for _ in range(3)`, counting down.
unfoldable pub send_ends : ℕ → RtpSession → Key → ℕ → RtpSession × List Text × Keyed
send_ends zero s k packets = (s, [], keyed)
send_ends (suc n) s k packets =
    then_send (send_event s k packets (k.per_packet * packets) true) s
      (λ t. send_ends n t k packets)

-- `for index in range(packets)`: `left` of them are still to come.
unfoldable pub send_held : ℕ → ℕ → RtpSession → Key → RtpSession × List Text × Keyed
send_held zero index s k = send_ends 3 s k index
send_held (suc left) index s k =
    then_send (send_event s k index (k.per_packet * (index + 1)) false) s
      (λ t. send_held left (index + 1) t k)

abbrev pub at_least_one : ℕ → ℕ
at_least_one n = if n == 0 then 1 else n

-- After the press, the timestamp has advanced by it.
abbrev pub advanced : Key → ℕ → RtpSession × List Text × Keyed → RtpSession × List Text × Keyed
advanced k packets (s, sent, keyed) =
    (record s { timestamp = (k.started_at + k.per_packet * packets) % 4294967296 }, sent, keyed)
advanced k packets (s, sent, how) = (s, sent, how)

-- The key of an event, once it is known.
abbrev pub key_of : RtpSession → ℕ → ℕ → ℕ → Key
key_of s pt event interval_ms = record {
  dtmf_pt = pt;
  event = event;
  started_at = s.timestamp % 4294967296;
  per_packet = s.sample_rate * interval_ms / 1000;
}

-- `send_dtmf`, for an interval that is not 0.
unfoldable pub send_dtmf : RtpSession → Text → ℕ → ℕ → RtpSession × List Text × Keyed
send_dtmf s digit duration_ms interval_ms = elim s.dtmf_payload_type [
  | none ↦ (s, [], runtime_error)
  | some pt ↦ elim (find? event_digits (upper digit)) [
    | none ↦ (s, [], value_error)
    | some event ↦
        let packets = at_least_one (duration_ms / interval_ms) in
        let k = key_of s pt event interval_ms in advanced k packets (send_held packets 0 s k)
  ]
]
