-- ===== src/Examples/Sessions.antt =====
-- Dialogues and sessions, and the theorems on bridge/dialin_ivr.py, bridge/talk_sip_bridge.py and
-- bridge/rtp.py applied to them.
use talk_sip_bridge.Base.{
  suc, ◌+◌, ◌*◌, ◌≤◌, ◌≡◌, refl, inl, inr, false, none, some, List, [], ◌∷◌, map, arith, length,
  All,
}
use talk_sip_bridge.Base.Text.{Text, codes}
use talk_sip_bridge.Base.Str.{find?, starts_with}
use talk_sip_bridge.Base.Int.{ℤ, pos}
use talk_sip_bridge.Base.Chunks.{AreChunks}
use talk_sip_bridge.DialIn.{Ivr, Setup, run, collect, collect_rounds, items, pressed}
use talk_sip_bridge.DialIn.Meeting.{Post, unknown}
use talk_sip_bridge.DialIn.Keys.{collect_returns}
use talk_sip_bridge.DialIn.Numbers.{IsThere, queued, number_is_collected}
use talk_sip_bridge.DialIn.Asking.{run_heeds_nextcloud}
use talk_sip_bridge.DialIn.Verdicts.{Follows, IsKeyed}
use talk_sip_bridge.DialIn.Placed.{IsPlaced, joining, caller_finds_room}
use talk_sip_bridge.DialIn.Questions.{AreKeyed, AreHeld, only_held_callers_ask}
use talk_sip_bridge.Rtp.{Media, RtpSession, clock_increment, be16, be32, pack_header}
use talk_sip_bridge.Rtp.Sending.{
  send_dtmf, send_pcm, send_held, send_ends, send_event, event_payload, upper,
}
use talk_sip_bridge.Rtp.Pressed.{key_text}
use talk_sip_bridge.Rtp.Receiving.{recv_loop, Arrival}
use talk_sip_bridge.Rtp.Heard.{IsFrom, key_arrives_once}
use talk_sip_bridge.Rtp.Carried.{arrivals, coded, audio_is_carried}
use talk_sip_bridge.Rtp.Numbered.{AreNumbered, audio_is_numbered}

-- A caller who has keyed in 1234 and # and keys in 5 while that is read.
abbrev caller : Ivr
caller = record {
  digits = queued (codes "1234") [];
  stopped = false;
  ahead = (pressed 53 ∷ []) ∷ [];
  heard = [];
  asked = [];
}

-- Nextcloud lets everybody into one room.
abbrev welcoming : Post
welcoming sent = (200, some ((codes "token", codes "r1") ∷ []))

abbrev setup : Setup
setup = record {
  resolve = λ n token pin. (unknown, none);
  samples_per_packet = 2;
  gap_polls = 1;
  prompts = (pos 1 ∷ pos 2 ∷ pos 3 ∷ []) ∷ [];
  pin_prompts = [];
  accepted = [];
  rejected = [];
}

caller-IsThere : IsThere caller
caller-IsThere = (refl, ((tt, tt), tt))

number_is_collected_example : (collect caller).0 ≡ codes "1234"
number_is_collected_example =
    number_is_collected caller (codes "1234") [] caller-IsThere refl
      (refl, (refl, (refl, (refl, tt)))) (omega arith) (omega arith)

collect_returns_example : collect_rounds (suc (items caller) + 3) [] caller ≡ collect caller
collect_returns_example = collect_returns caller 3

run_heeds_nextcloud_example :
    let (ended, e) = run 3 setup caller in
    Follows ended e.asked
    × All (IsKeyed setup) e.asked
    × (length e.asked ≤ 3 * 2)
    × AreKeyed setup caller e.asked
run_heeds_nextcloud_example = run_heeds_nextcloud setup 3 caller refl

caller_finds_room_example : IsPlaced (run 3 (joining setup (λ n. welcoming) (codes "s")) caller).0
caller_finds_room_example = caller_finds_room setup (λ n. welcoming) (codes "s") 3 caller refl

only_held_callers_ask_example : AreHeld setup caller (run 3 setup caller).1.asked
only_held_callers_ask_example = only_held_callers_ask setup 3 caller refl

abbrev media : Media
media = record {
  g722_encode = λ past pcm. [];
  g722_decode = λ past payload. none;
  digit_in_block = λ rate pcm. none;
  inband_dtmf = false;
  min_blocks = 2;
  max_gap_blocks = 3;
  dtmf_debug = false;
  guard_window = 500;
}

abbrev session : RtpSession
session = record {
  remote_addr = (codes "gw", 7078);
  payload_type = 8;
  dtmf_payload_type = some 101;
  sample_rate = 8000;
  samples_per_packet = 160;
  encoder = none;
  decoder = none;
  seq = 65535;
  timestamp = 0;
  ssrc = 7;
  recv_queue = [];
  reported_pt = none;
  failed_packets = 0;
  last_packet_error = 0;
  dtmf = record { reported = none };
  inband = none;
  guard = record { window = 500; last = none };
  capture = none;
}

-- The first packet of the key 5, pressed for 20 ms.
abbrev first_packet : Text
first_packet = 128 ∷ 229 ∷ 255 ∷ 255 ∷ 0 ∷ 0 ∷ 0 ∷ 0 ∷ 0 ∷ 0 ∷ 0 ∷ 7 ∷ 5 ∷ 10 ∷ 0 ∷ 160 ∷ []

abbrev arrival : Arrival
arrival = record { packet = first_packet; addr = (codes "gw", 7078); now = 1000 }

arrival-IsFrom : IsFrom session (send_dtmf session (key_text 5) 20 20).1 arrival
unfolding send_dtmf find? starts_with upper send_held send_ends send_event event_payload pack_header
    be16 be32
arrival-IsFrom = (refl, inl refl)

key_arrives_once_example : (recv_loop media session (arrival ∷ arrival ∷ [])).1 ≡ key_text 5
key_arrives_once_example =
    key_arrives_once media session session 101 5 20 20 arrival (arrival ∷ []) refl refl
      (omega arith) (omega arith) (λ h. cc) refl (arrival-IsFrom, (arrival-IsFrom, tt))

audio_is_carried_example :
    (cs : List (List ℤ)) × ((recv_loop media session (
        arrivals
          (codes "gw", 7078)
          (λ n. n)
          0
          (send_pcm media session (pos 8 ∷ [])).1)).0.recv_queue
      ≡ map (coded 8) cs)
    × AreChunks 160 (pos 8 ∷ []) cs
audio_is_carried_example =
    audio_is_carried media media session session (pos 8 ∷ []) (codes "gw", 7078) (λ n. n) (inr refl)
      (omega arith) (refl, refl)

audio_is_numbered_example :
    let (t, sent) = send_pcm media session (pos 8 ∷ []) in
    AreNumbered 65535 0 sent
    × (t.seq ≡ 65535 + length sent)
    × (t.timestamp ≡ 0 + length sent * clock_increment)
audio_is_numbered_example = audio_is_numbered media session (pos 8 ∷ [])
