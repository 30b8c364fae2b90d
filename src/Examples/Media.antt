-- ===== src/Examples/Media.antt =====
-- Key presses, codecs and samples, and the theorems on bridge/dtmf.py, bridge/dtmf_inband.py,
-- bridge/sip_sdp.py, bridge/g711.py and bridge/mixer.py applied to them.
use talk_sip_bridge.Base.{
  ℕ, ◌+◌, ◌≤◌, ◌≡◌, refl, false, Option, none, some, List, [], ◌∷◌, arith, leb, if◌then◌else◌,
}
use talk_sip_bridge.Base.Text.{Text}
use talk_sip_bridge.Base.Int.{pos}
use talk_sip_bridge.Codec.{linear_to_alaw, alaw_to_linear, linear_to_ulaw, ulaw_to_linear}
use talk_sip_bridge.Codec.Roundtrip.{encode_decode}
use talk_sip_bridge.Dtmf.{ParsedEvent, new_events, parse_event}
use talk_sip_bridge.Dtmf.Presses.{
  Press, ArePresses, digits_of, packets, digits, presses_reported_once,
}
use talk_sip_bridge.Inband.{InbandDtmf, new}
use talk_sip_bridge.Inband.Presses.{
  run, backing, blocks_of, Holds, reports_are_backed, press_reported_once,
}
use talk_sip_bridge.Mixer.Source.{SourceBuffer}
use talk_sip_bridge.Mixer.Source.Inv.{IsValid}

-- The event packet of the digit 5.
abbrev five : Text
five = 5 ∷ 10 ∷ 0 ∷ 160 ∷ []

abbrev presses : List Press
presses =
    record { timestamp = 1000; digit = 53; first = (1000, five); others = (1000, five) ∷ [] }
    ∷ record { timestamp = 9000; digit = 53; first = (9000, five); others = [] }
    ∷ []

is_five : (e : ParsedEvent) × (parse_event five ≡ some e) × (e.digit ≡ 53)
unfolding parse_event
is_five = (record { digit = 53; end = false; duration = 160 }, refl, refl)

another_time : ◌≡◌ {A = Option ℕ} (some 1000) (some 9000) → ⊥
another_time h = ground arith

presses-ArePresses : ArePresses none presses
unfolding parse_event
presses-ArePresses =
    ((λ h. cc), (refl, is_five, (refl, is_five, tt)), (another_time, (refl, is_five, tt), tt))

presses_reported_once_example : digits_of new_events (packets presses) ≡ digits presses
presses_reported_once_example = presses_reported_once none presses presses-ArePresses

abbrev blocks : List (Option ℕ)
blocks = some 53 ∷ none ∷ some 53 ∷ []

reports_are_backed_example :
    backing 2 53 (run (new 2 3) (some 53 ∷ blocks)).1 ≤ blocks_of 53 (some 53 ∷ blocks)
reports_are_backed_example = reports_are_backed 2 3 53 (some 53 ∷ blocks)

abbrev listening : InbandDtmf
listening = record {
  min_blocks = 2;
  max_gap_blocks = 3;
  candidate = none;
  blocks = 0;
  gap = 0;
  reported = none;
}

blocks-Holds : Holds 3 53 0 blocks
blocks-Holds = (refl, (omega arith, (refl, tt)))

press_reported_once_example :
    (run listening (some 53 ∷ blocks)).1 ≡ (if leb 2 (1 + blocks_of 53 blocks) then 53 ∷ [] else [])
press_reported_once_example = press_reported_once listening 53 blocks refl blocks-Holds

-- Four places, three samples in them.
abbrev three_samples : SourceBuffer
three_samples = record {
  buffer = pos 1 ∷ pos 2 ∷ pos 3 ∷ pos 0 ∷ [];
  capacity = 4;
  read_at = 0;
  available = 3;
  underruns = 0;
  dropped = 0;
}

three_samples-IsValid : IsValid three_samples
three_samples-IsValid = record { storage = refl; in_ring = omega arith; fits = omega arith }

encode_decode_example :
    (linear_to_alaw (alaw_to_linear 200) ≡ 200) × (linear_to_ulaw (ulaw_to_linear 200) ≡ 200)
encode_decode_example = encode_decode 200 (omega arith)
