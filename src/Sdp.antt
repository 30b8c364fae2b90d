-- ===== src/Sdp.antt =====
-- bridge/sip_sdp.py and bridge/payload_types.py: the offers and answers of SDP that the bridge
-- writes, and what it reads of those of others.
pub mod Choice
use talk_sip_bridge.Base.{
  ℕ, zero, suc, ◌+◌, ◌-◌, ◌*◌, ◌/◌, ◌%◌, ◌^◌, ◌≤◌, ◌<◌, min, ◌≡◌, refl, sym, ap, ap₂, ◌∙◌, ◌≢◌, ◌↔◌,
  ◌⊎◌, inl, inr, Bool, true, false, not, ◌&&◌, ◌||◌, Option, none, some, List, [], ◌∷◌, ◌++◌, map,
  arith, ltb, leb, ◌==◌, if◌then◌else◌, ltb→lt, lt→ltb, leb→le, ==_iff, Bool-cases, Option-cases,
  length, get_or, set, take, drop, replicate, All, length-append, take-append-drop, length-take,
  length-drop, length-replicate, All-append, length_zero, take-append, drop-append,
}
use talk_sip_bridge.Base.Text.{Text, codes}
use talk_sip_bridge.Base.Str.{
  find?, strip, lower, starts_with, splitlines, words, isdigit, digits_value, before, after_prefix,
  span_where, is_digit, is_space,
}
use talk_sip_bridge.Base.Decimal.{show}
use talk_sip_bridge.Line.{Line}
use talk_sip_bridge.Requests.{concat}

abbrev pub pt_pcmu : ℕ
pt_pcmu = 0

abbrev pub pt_pcma : ℕ
pt_pcma = 8

abbrev pub pt_g722 : ℕ
pt_g722 = 9

abbrev pub pt_telephone_event : ℕ
pt_telephone_event = 101

-- `x in xs`, of numbers.
unfoldable pub num_elem : ℕ → List ℕ → Bool
num_elem x [] = false
num_elem x (y ∷ ys) = (y == x) || num_elem x ys

abbrev pub supported : List ℕ
supported = pt_g722 ∷ pt_pcma ∷ pt_pcmu ∷ []

-- `CODEC_NAMES[payload_type]`, with `none` for the KeyError.
unfoldable pub codec_name : ℕ → Option Text
codec_name pt =
    if pt == pt_g722
    then some (codes "G722")
    else if pt == pt_pcma
    then some (codes "PCMA")
    else if pt == pt_pcmu
    then some (codes "PCMU")
    else none

unfoldable pub sdp_host_port : Line → ℕ → Text × ℕ
sdp_host_port line local_port =
    if line.media_relay_enabled
    then (line.relay_lan_host, line.relay_lan_port)
    else (line.local_ip, local_port)

-- A line of SDP with its break.
abbrev ended : List Text → Text
ended parts = concat (parts ++ (13 ∷ 10 ∷ []) ∷ [])

abbrev session_lines : Text → Text
session_lines host = concat (
    ended (codes "v=0" ∷ [])
    ∷ ended (codes "o=- 0 0 IN IP4 " ∷ host ∷ [])
    ∷ ended (codes "s=-" ∷ [])
    ∷ ended (codes "c=IN IP4 " ∷ host ∷ [])
    ∷ ended (codes "t=0 0" ∷ [])
    ∷ [])

abbrev rtpmap : ℕ → Text → Text
rtpmap pt name = ended (codes "a=rtpmap:" ∷ show pt ∷ codes " " ∷ name ∷ codes "/8000" ∷ [])

-- The two lines of a payload type for key presses.
abbrev event_lines : ℕ → Text
event_lines pt =
    ended (codes "a=rtpmap:" ∷ show pt ∷ codes " telephone-event/8000" ∷ [])
    ++ ended (codes "a=fmtp:" ∷ show pt ∷ codes " 0-15" ∷ [])

abbrev audio_line : ℕ → Text → Text
audio_line port formats = ended (codes "m=audio " ∷ show port ∷ codes " RTP/AVP " ∷ formats ∷ [])

-- The text only: every caller drops the address that is returned with it.
unfoldable pub offer_sdp : Line → ℕ → Text
offer_sdp line local_port =
    let (host, port) = sdp_host_port line local_port in
    concat (
      session_lines host
      ∷ audio_line port (codes "9 8 0 101")
      ∷ rtpmap pt_g722 (codes "G722")
      ∷ rtpmap pt_pcma (codes "PCMA")
      ∷ rtpmap pt_pcmu (codes "PCMU")
      ∷ event_lines pt_telephone_event
      ∷ [])

abbrev event_format : Option ℕ → Text
event_format none = []
event_format (some pt) = 32 ∷ show pt

abbrev event_extra : Option ℕ → Text
event_extra none = []
event_extra (some pt) = event_lines pt

answer_named : Text → ℕ → ℕ → Option ℕ → Option Text → Option Text
answer_named host port payload_type dtmf_payload_type none = none
answer_named host port payload_type dtmf_payload_type (some name) = some (
    concat (
      session_lines host
      ∷ audio_line port (show payload_type ++ event_format dtmf_payload_type)
      ∷ rtpmap payload_type name
      ∷ event_extra dtmf_payload_type
      ∷ []))

-- `none` for the KeyError of a codec without a name.
unfoldable pub answer_sdp : Line → ℕ → ℕ → Option ℕ → Option Text
unfolding answer_named
answer_sdp line local_port payload_type dtmf_payload_type =
    let (host, port) = sdp_host_port line local_port in
    answer_named host port payload_type dtmf_payload_type (codec_name payload_type)

-- What follows the first empty line.
unfoldable pub extract_sip_body : Text → Text
extract_sip_body text = elim (find? text (13 ∷ 10 ∷ 13 ∷ 10 ∷ [])) [
  | none ↦ []
  | some at ↦ drop (at + 4) text
]

unfoldable pub payload_numbers : List Text → List ℕ
payload_numbers [] = []
payload_numbers (p ∷ ps) =
    let rest = payload_numbers ps in if isdigit p then digits_value 0 p ∷ rest else rest

unfoldable pub first_audio : List Text → List ℕ
first_audio [] = []
first_audio (l ∷ ls) =
    let rest = first_audio ls in
    if starts_with (strip l) (codes "m=audio")
    then payload_numbers (drop 3 (words (strip l)))
    else rest

unfoldable pub parse_offered_payload_types : Text → List ℕ
parse_offered_payload_types sdp_body = first_audio (splitlines sdp_body)

-- Whether `host is None`.
abbrev unset : Option Text → Bool
unset none = true
unset (some h) = false

-- The port of an audio line, the one known so far where it names none.
abbrev audio_port : List Text → Option ℕ → Option ℕ
audio_port [] port = port
audio_port (m ∷ []) port = port
audio_port (m ∷ p ∷ fields) port = if isdigit p then some (digits_value 0 p) else port

abbrev host_of : Text → Text
host_of l = strip (before b'/' (drop 9 l))

-- The loop over the lines.
unfoldable pub media_from : List Text → Option Text → Option ℕ → Option Text × Option ℕ
media_from [] host port = (host, port)
media_from (l ∷ ls) host port =
    let line = strip l in
    let is_host = starts_with line (codes "c=IN IP4 ") && unset host in
    let is_audio = starts_with line (codes "m=audio") in
    media_from ls (if is_host then some (host_of line) else host)
      (if is_host then port else if is_audio then audio_port (words line) port else port)

-- `(host, port) if host and port else None`
abbrev pub media_of : Option Text × Option ℕ → Option (Text × ℕ)
media_of (none, p) = none
media_of (some [], p) = none
media_of (some (c ∷ cs), none) = none
media_of (some (c ∷ cs), some zero) = none
media_of (some (c ∷ cs), some (suc p)) = some (c ∷ cs, suc p)

unfoldable pub parse_sdp_media_address : Text → Option (Text × ℕ)
parse_sdp_media_address sdp_body = media_of (media_from (splitlines sdp_body) none none)

unfoldable pub first_supported : List ℕ → Option ℕ
first_supported [] = none
first_supported (pt ∷ pts) =
    let rest = first_supported pts in if num_elem pt supported then some pt else rest

unfoldable pub choose_payload_type : List ℕ → Option ℕ
choose_payload_type offered =
    if num_elem pt_g722 offered then some pt_g722 else first_supported offered

-- `\s+telephone-event/` behind the digits.
abbrev names_events : Text → Bool
names_events [] = false
names_events (c ∷ cs) =
    is_space c && starts_with (span_where is_space cs).1 (codes "telephone-event/")

abbrev event_number : Text × Text → Option ℕ
event_number ([], rest) = none
event_number (c ∷ cs, rest) = if names_events rest then some (digits_value 0 (c ∷ cs)) else none

-- `TELEPHONE_EVENT_RTPMAP.match(line)`, on the line in lower case.
unfoldable pub telephone_event_rtpmap : Text → Option ℕ
telephone_event_rtpmap line = elim (after_prefix (codes "a=rtpmap:") (lower line)) [
  | none ↦ none
  | some rest ↦ event_number (span_where is_digit rest)
]

unfoldable pub first_event_type : List Text → Option ℕ
first_event_type [] = none
first_event_type (l ∷ ls) =
    let rest = first_event_type ls in
    elim (telephone_event_rtpmap (strip l)) [ none ↦ rest | some n ↦ some n ]

unfoldable pub parse_telephone_event_type : Text → Option ℕ
parse_telephone_event_type sdp_body = first_event_type (splitlines sdp_body)
