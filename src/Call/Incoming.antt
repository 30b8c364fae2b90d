-- ===== src/Call/Incoming.antt =====
-- The requests of a caller: `handle_invite`, `_reanswer`, `handle_info`, `handle_options`, and
-- `answer` and `decline` of bridge/sip_call.py.
use talk_sip_bridge.Base.{
  ℕ, suc, Bool, true, false, not, ◌&&◌, Option, none, some, List, [], ◌∷◌, ◌++◌, if◌then◌else◌,
}
use talk_sip_bridge.Base.Text.{Text, codes, text_eq}
use talk_sip_bridge.Line.{Line}
use talk_sip_bridge.Messages.Headers.{Headers, header}
use talk_sip_bridge.Messages.Fields.{dtmf_from_info}
use talk_sip_bridge.Messages.Caller.{dialled_number}
use talk_sip_bridge.Base.Str.{split_lines, first_of}
use talk_sip_bridge.Requests.{contact_header}
use talk_sip_bridge.Sdp.{
  extract_sip_body, parse_offered_payload_types, parse_telephone_event_type,
  parse_sdp_media_address, choose_payload_type, answer_sdp, num_elem,
}
use talk_sip_bridge.Call.{
  Addr, Rtp, Call, Status, ringing, connected, Manager, Effect, sent, response, opened, primed,
  pressed, timer_started, incoming, is_connected, raised, respond, call_named, new_rtp_session,
}

-- The extra headers of a response with SDP.
abbrev pub sdp_headers : Line → List Text
sdp_headers line = contact_header line false ∷ codes "Content-Type: application/sdp" ∷ []

-- `media and not line.media_relay_enabled`: the address to move to, if there is one.
unfoldable pub moved_media : Line → Option Addr → Addr → Addr
moved_media line none old = old
moved_media line (some a) old = if line.media_relay_enabled then old else a

-- The answer of a re-offer, once its session is known to fit.
unfoldable pub reanswered : Line → Call → Rtp → Headers → Addr → Option Text → List Effect
reanswered line c r h remote_addr none = raised ∷ []
reanswered line c r h remote_addr (some sdp) =
    sent (response (codes "200 OK") h (sdp_headers line) sdp c.to_tag) (some remote_addr) ∷ []

-- `offered_pts and payload_type not in offered_pts`
abbrev pub withdrawn : List ℕ → ℕ → Bool
withdrawn [] payload_type = false
withdrawn (pt ∷ pts) payload_type = not (num_elem payload_type (pt ∷ pts))

unfoldable pub reanswer :
    Line → Manager → Call → Headers → Addr → Option Addr → List ℕ → Manager × List Effect
unfolding reanswered
reanswer line m c h remote_addr media offered_pts = elim c.rtp [
  | none ↦ (m, respond (codes "488 Not Acceptable Here") h remote_addr c.to_tag ∷ [])
  | some r ↦
      let moved = record r { remote_addr = moved_media line media r.remote_addr } in
      if withdrawn offered_pts r.payload_type
      then (m, respond (codes "488 Not Acceptable Here") h remote_addr c.to_tag ∷ [])
      else (
        record m { call = some (record c { rtp = some moved }) },
        reanswered line c r h remote_addr
            (answer_sdp line line.local_rtp_port r.payload_type r.dtmf_payload_type),
      )
]

abbrev pub is_up : Status → Bool
is_up connected = true
is_up _ = false

-- The call that an INVITE starts.
unfoldable pub ringing_call : Text → Headers → Addr → Text → Text → Call
ringing_call call_id h remote_addr to_tag body = record {
  call_id = call_id;
  inbound = true;
  status = ringing;
  number = [];
  headers = h;
  remote_addr = remote_addr;
  to_tag = some to_tag;
  from_tag = [];
  bye_timer = none;
  rtp = none;
  offered_pts = parse_offered_payload_types body;
  dtmf_pt = parse_telephone_event_type body;
  offer_media = parse_sdp_media_address body;
  attempt = none;
  remote_contact = none;
}

-- `tag` is the random tag of this response.
unfoldable pub handle_invite :
    Line → Text → Manager → Text → Headers → Text → Addr → Manager × List Effect
handle_invite line tag m text h call_id remote_addr =
    let body = extract_sip_body text in
    elim m.call [
      | none ↦ (
        record m { call = some (ringing_call call_id h remote_addr tag body) },
        respond (codes "180 Ringing") h remote_addr (some tag)
            ∷ incoming call_id (header h (codes "from") (codes "unknown"))
                (dialled_number (first_of (split_lines text)) h)
            ∷ [],
      )
      | some c ↦
          if text_eq c.call_id call_id && is_up c.status
          then reanswer line m c h remote_addr (parse_sdp_media_address body)
              (parse_offered_payload_types body)
          else (m, respond (codes "486 Busy Here") h remote_addr (some tag) ∷ [])
    ]

-- `if digit and rtp is not None`
unfoldable pub report : Text → Option Call → List Effect
report digit none = []
report [] (some c) = []
report (d ∷ ds) (some c) = elim c.rtp [ none ↦ [] | some r ↦ pressed r.id (d ∷ ds) ∷ [] ]

abbrev pub tag_of : Option Call → Option Text
tag_of none = none
tag_of (some c) = c.to_tag

unfoldable pub handle_info : Manager → Text → Headers → Text → Addr → Manager × List Effect
unfolding report
handle_info m text h call_id remote_addr =
    let c = call_named m call_id in
    (
      m,
      respond (codes "200 OK") h remote_addr (tag_of c)
          ∷ report (dtmf_from_info (extract_sip_body text)) c,
    )

unfoldable pub handle_options : Manager → Text → Headers → Text → Addr → Manager × List Effect
handle_options m text h call_id remote_addr = (m, respond (codes "200 OK") h remote_addr none ∷ [])

abbrev pub is_ringing : Status → Bool
is_ringing ringing = true
is_ringing _ = false

-- The packet that primes a relay.
abbrev pub priming : Line → Rtp → List Effect
priming line r = if line.media_relay_enabled then primed r.id ∷ [] else []

-- The call once its session is made: before the timer is stored, and after.
unfoldable pub answered_call : Call → Rtp → Call
answered_call c r = record c { status = connected; rtp = some r }

-- How far the network lets `answer` come: all is sent, or `transport.send` raises, or the packet
-- that primes the relay does.
pub data Network : Type 0 where
  all_sent : Network
  response_raises : Network
  priming_raises : Network

-- An exception leaves `answer` where the call has its session, and no timer.
unfoldable pub broken_off : Manager → Call → Rtp → List Effect → Manager × Bool × List Effect
unfolding answered_call
broken_off m c r es =
    (record m { call = some (answered_call c r) }, false, opened r ∷ es ++ raised ∷ [])

abbrev pub accepting : Line → Call → Text → Effect
accepting line c sdp =
    sent (response (codes "200 OK") c.headers (sdp_headers line) sdp c.to_tag) (some c.remote_addr)

-- All goes well, and the timer of the maximal duration is started.
unfoldable pub taken : Line → Manager → Call → Rtp → Text → Manager × Bool × List Effect
unfolding answered_call
taken line m c r sdp = (
  record m { call = some (record (answered_call c r) { bye_timer = some r.id }) },
  true,
  opened r ∷ accepting line c sdp ∷ priming line r
      ++ timer_started r.id ∷ is_connected c.call_id true ∷ [],
)

-- What follows once the session is made.
unfoldable pub accepted :
    Line → Network → Manager → Call → Rtp → Option Text → Manager × Bool × List Effect
unfolding broken_off taken
accepted line net m c r none = broken_off m c r []
accepted line all_sent m c r (some sdp) = taken line m c r sdp
accepted line response_raises m c r (some sdp) = broken_off m c r []
accepted line priming_raises m c r (some sdp) =
    if line.media_relay_enabled
    then broken_off m c r (accepting line c sdp ∷ [])
    else taken line m c r sdp

abbrev pub chosen_session : Line → Manager → Call → ℕ → Rtp
chosen_session line m c payload_type =
    let r = new_rtp_session line m.sessions payload_type c.dtmf_pt in
    record r { remote_addr = moved_media line c.offer_media r.remote_addr }

-- The refusal of a caller with no codec in common: the call is dropped once that is sent.
unfoldable pub refused_call : Network → Manager → Call → Manager × Bool × List Effect
refused_call response_raises m c = (m, false, raised ∷ [])
refused_call _ m c = (
  record m { call = none },
  false,
  respond (codes "488 Not Acceptable Here") c.headers c.remote_addr c.to_tag ∷ [],
)

unfoldable pub answer_with :
    Line → Network → Manager → Call → Option ℕ → Manager × Bool × List Effect
unfolding accepted refused_call
answer_with line net m c none = refused_call net m c
answer_with line net m c (some payload_type) =
    accepted line net (record m { sessions = suc m.sessions }) c
      (chosen_session line m c payload_type)
      (answer_sdp line line.local_rtp_port payload_type c.dtmf_pt)

-- The Boolean is what `answer` returns, and says nothing where it raises. Nothing else runs between
-- its two uses of the lock.
unfoldable pub answer : Line → Network → Manager → Manager × Bool × List Effect
unfolding answer_with
answer line net m = elim m.call [
  | none ↦ (m, false, [])
  | some c ↦
      if is_ringing c.status
      then answer_with line net m c (choose_payload_type c.offered_pts)
      else (m, false, [])
]

unfoldable pub decline : Manager → Manager × Bool × List Effect
decline m = elim m.call [
  | none ↦ (m, false, [])
  | some c ↦
      if is_ringing c.status
      then (
        record m { call = none },
        true,
        respond (codes "603 Decline") c.headers c.remote_addr c.to_tag ∷ [],
      )
      else (m, false, [])
]
