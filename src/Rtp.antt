-- ===== src/Rtp.antt =====
-- bridge/rtp.py: the RTP session of one call. Packets are lists of bytes. The G.722 codec keeps its
-- state in the library that does it: here it is a function of what it was given before, too.
pub mod Sending
pub mod Receiving
pub mod Pressed
pub mod Heard
pub mod Carried
pub mod Numbered
use talk_sip_bridge.Base.{
  ℕ, zero, suc, ◌+◌, ◌-◌, ◌*◌, ◌/◌, ◌%◌, ◌^◌, ◌≤◌, ◌<◌, min, ◌≡◌, refl, sym, ap, ap₂, ◌∙◌, ◌≢◌, ◌↔◌,
  ◌⊎◌, inl, inr, Bool, true, false, not, ◌&&◌, ◌||◌, Option, none, some, List, [], ◌∷◌, ◌++◌, map,
  arith, ltb, leb, ◌==◌, if◌then◌else◌, ltb→lt, lt→ltb, leb→le, ==_iff, Bool-cases, Option-cases,
  length, get_or, set, take, drop, replicate, All, length-append, take-append-drop, length-take,
  length-drop, length-replicate, All-append, length_zero, take-append, drop-append,
}
use talk_sip_bridge.Base.Text.{Text}
use talk_sip_bridge.Base.Int.{ℤ}
use talk_sip_bridge.Dtmf.{DtmfEvents, DigitGuard, new_events, new_guard}
use talk_sip_bridge.Inband.{InbandDtmf}
use talk_sip_bridge.Inband.{new}

abbrev pub Samples : Type 0
Samples = List ℤ

-- bridge/payload_types.py
abbrev pub pcmu : ℕ
pcmu = 0

abbrev pub pcma : ℕ
pcma = 8

abbrev pub g722 : ℕ
g722 = 9

abbrev pub clock_increment : ℕ
clock_increment = 160

-- Settings, the G.722 codec, whose first argument is what it had so far, newest first, and whether a
-- block of audio at a sample rate has the tones of a key.
pub record Media : Type 0 where
  pub g722_encode : List Samples → Samples → Text
  pub g722_decode : List Text → Text → Option Samples  -- none: it raises
  pub digit_in_block : ℕ → Samples → Option ℕ
  pub inband_dtmf : Bool
  pub min_blocks : ℕ
  pub max_gap_blocks : ℕ
  pub dtmf_debug : Bool
  pub guard_window : ℕ

pub record RtpSession : Type 0 where
  pub remote_addr : Text × ℕ
  pub payload_type : ℕ
  pub dtmf_payload_type : Option ℕ
  pub sample_rate : ℕ
  pub samples_per_packet : ℕ
  pub encoder : Option (List Samples)
  pub decoder : Option (List Text)
  pub seq : ℕ
  pub timestamp : ℕ
  pub ssrc : ℕ
  pub recv_queue : List Samples
  pub reported_pt : Option ℕ
  pub failed_packets : ℕ
  pub last_packet_error : ℕ  -- milliseconds
  pub dtmf : DtmfEvents
  pub inband : Option InbandDtmf
  pub guard : DigitGuard
  pub capture : Option (List Samples)

-- `_CODEC_INFO`: sample rate and samples of a packet.
unfoldable pub codec_info : ℕ → Option (ℕ × ℕ)
codec_info payload_type =
    if payload_type == pcmu || payload_type == pcma
    then some (8000, 160)
    else if payload_type == g722
    then some (16000, 320)
    else none

-- A codec without a past.
abbrev fresh_codec {ℓ} : {A : Type ℓ} → ℕ → Option (List A)
fresh_codec payload_type = if payload_type == g722 then some [] else none

-- `set_payload_type`; none is the KeyError of a payload type that the bridge does not know.
unfoldable pub set_payload_type : Media → RtpSession → ℕ → Option RtpSession
set_payload_type m s payload_type = elim (codec_info payload_type) [
  | none ↦ none
  | some (rate, per_packet) ↦ some (record s {
    payload_type = payload_type;
    sample_rate = rate;
    samples_per_packet = per_packet;
    encoder = fresh_codec payload_type;
    decoder = fresh_codec payload_type;
    inband = if m.inband_dtmf then some (new m.min_blocks m.max_gap_blocks) else none;
  })
]

-- `__init__`, with the random SSRC; the socket is bound already.
unfoldable pub new_session : Media → Text × ℕ → ℕ → Option ℕ → ℕ → Option RtpSession
new_session m remote_addr payload_type dtmf_payload_type ssrc =
    set_payload_type m
      (record {
        remote_addr = remote_addr;
        payload_type = payload_type;
        dtmf_payload_type = dtmf_payload_type;
        sample_rate = 0;
        samples_per_packet = 0;
        encoder = none;
        decoder = none;
        seq = 0;
        timestamp = 0;
        ssrc = ssrc;
        recv_queue = [];
        reported_pt = none;
        failed_packets = 0;
        last_packet_error = 0;
        dtmf = new_events;
        inband = none;
        guard = new_guard m.guard_window;
        capture = if m.dtmf_debug then some [] else none;
      })
      payload_type

-- `struct.pack` of "!H" and "!I", for numbers that fit.
unfoldable pub be16 : ℕ → Text
be16 n = n / 256 % 256 ∷ n % 256 ∷ []

unfoldable pub be32 : ℕ → Text
be32 n = n / 16777216 % 256 ∷ n / 65536 % 256 ∷ n / 256 % 256 ∷ n % 256 ∷ []

-- `struct.pack("!BBHII", ...)`, the second byte being the payload type with or without the marker.
unfoldable pub pack_header : ℕ → ℕ → ℕ → ℕ → Text
pack_header second seq timestamp ssrc =
    128 ∷ second ∷ be16 (seq % 65536) ++ be32 (timestamp % 4294967296) ++ be32 ssrc
