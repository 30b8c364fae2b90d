-- ===== src/Call.antt =====
-- bridge/sip_call.py: the call of one line. This file has the state and what an operation does
-- besides changing it; the children have the operations.
pub mod Incoming
pub mod Ending
pub mod Outgoing
pub mod Operations
pub mod Invariant
pub mod Release
pub mod Goodbyes
pub mod Replies
pub mod Workers
pub mod Transactions
use talk_sip_bridge.Base.{
  ℕ, zero, suc, ◌+◌, ◌-◌, ◌*◌, ◌/◌, ◌%◌, ◌^◌, ◌≤◌, ◌<◌, min, ◌≡◌, refl, sym, ap, ap₂, ◌∙◌, ◌≢◌, ◌↔◌,
  ◌⊎◌, inl, inr, Bool, true, false, not, ◌&&◌, ◌||◌, Option, none, some, List, [], ◌∷◌, ◌++◌, map,
  arith, ltb, leb, ◌==◌, if◌then◌else◌, ltb→lt, lt→ltb, leb→le, ==_iff, Bool-cases, Option-cases,
  length, get_or, set, take, drop, replicate, All, length-append, take-append-drop, length-take,
  length-drop, length-replicate, All-append, length_zero, take-append, drop-append,
}
use talk_sip_bridge.Base.Text.{Text, text_eq}
use talk_sip_bridge.Line.{Line}
use talk_sip_bridge.Messages.Headers.{Headers, no_headers}
use talk_sip_bridge.Requests.{
  encode, build_response, build_bye, build_cancel, build_ack, build_invite,
}

abbrev pub Addr : Type 0
Addr = Text × ℕ

-- What the call reads and writes of an `RtpSession`; `id` is the object.
pub record Rtp : Type 0 where
  pub id : ℕ
  pub payload_type : ℕ
  pub dtmf_payload_type : Option ℕ
  pub remote_addr : Addr

-- `_OutboundAttempt`
pub record Attempt : Type 0 where
  pub number : Text
  pub call_id : Text
  pub from_tag : Text
  pub sdp : Text
  pub cseq : ℕ
  pub branch : Text

pub data Status : Type 0 where
  ringing : Status
  dialing : Status
  connected : Status

-- The dict `self.call`: `inbound` where it has no "direction", `none` for a key that is missing
-- or None. The timer is known by the session it was started for.
pub record Call : Type 0 where
  pub call_id : Text
  pub inbound : Bool
  pub status : Status
  pub number : Text
  pub headers : Headers
  pub remote_addr : Addr
  pub to_tag : Option Text
  pub from_tag : Text
  pub bye_timer : Option ℕ
  pub rtp : Option Rtp
  pub offered_pts : List ℕ
  pub dtmf_pt : Option ℕ
  pub offer_media : Option Addr
  pub attempt : Option Attempt
  pub remote_contact : Option Text

-- `CallManager`: its call, and how many media sessions were made, which numbers the next one.
pub record Manager : Type 0 where
  pub call : Option Call
  pub sessions : ℕ

abbrev pub new : Manager
new = record { call = none; sessions = 0 }

-- A message that goes out, by the arguments of its builder in bridge/sip_requests.py.
pub data Message : Type 0 where
  response : Text → Headers → List Text → Text → Option Text → Message
  invite : Attempt → Option Text → Message
  ack : Attempt → Text → Text → Option Text → Message
  cancel : Attempt → Message
  bye : Text → Text → Text → Text → Text → Message

-- The bytes that `self.transport.send` is given.
unfoldable pub text_of : Line → Message → Text
unfolding encode
text_of line (response status_line h extra body to_tag) =
    encode (build_response status_line h extra body to_tag)
text_of line (invite a auth) =
    build_invite line a.number a.call_id a.from_tag a.branch a.cseq a.sdp auth
text_of line (ack a branch to_header uri) =
    build_ack line a.number a.call_id a.from_tag branch a.cseq to_header uri
text_of line (cancel a) = build_cancel line a.number a.call_id a.from_tag a.branch a.cseq
text_of line (bye uri call_id from_header to_header branch) =
    build_bye line uri call_id from_header to_header branch

-- What an operation does to the outside, in order. A send without an address goes to the
-- transport's own peer.
pub data Effect : Type 0 where
  sent : Message → Option Addr → Effect
  opened : Rtp → Effect  -- RtpSession(...)
  released : ℕ → Effect  -- rtp.close()
  primed : ℕ → Effect  -- the packet of silence that primes the relay
  pressed : ℕ → Text → Effect  -- rtp.report_digit(digit)
  timer_started : ℕ → Effect
  timer_cancelled : ℕ → Effect
  incoming : Text → Text → Text → Effect  -- on_incoming_call(call_id, caller, dialled)
  is_connected : Text → Bool → Effect  -- on_call_connected, and whether it is inbound
  call_ended : Text → Text → Effect  -- on_call_ended(call_id, reason)
  failed : Text → Text → Effect  -- on_call_failed(call_id, reason)
  worker_started : Attempt → Effect  -- the thread of `_outbound_worker`
  waiter_opened : Text → Effect
  waiter_closed : Text → Effect
  bye_watched : Text → Effect  -- the thread of `_watch_bye`
  raised : Effect  -- an exception leaves the operation

-- `self.call and self.call["call_id"] == call_id`: the call, if it is that one.
unfoldable pub call_named : Manager → Text → Option Call
call_named m call_id = elim m.call [
  | none ↦ none
  | some c ↦ if text_eq c.call_id call_id then some c else none
]

abbrev pub cancelled_timer : Option ℕ → List Effect
cancelled_timer none = []
cancelled_timer (some t) = timer_cancelled t ∷ []

abbrev pub released_rtp : Option Rtp → List Effect
released_rtp none = []
released_rtp (some r) = released r.id ∷ []

-- The release of a call's timer and media session.
abbrev pub released_by : Call → List Effect
released_by c = cancelled_timer c.bye_timer ++ released_rtp c.rtp

-- `_send_response`
abbrev pub respond : Text → Headers → Addr → Option Text → Effect
respond status_line h remote_addr to_tag =
    sent (response status_line h [] [] to_tag) (some remote_addr)

-- `_new_rtp_session`, of a number, and where its audio goes first.
unfoldable pub new_rtp_session : Line → ℕ → ℕ → Option ℕ → Rtp
new_rtp_session line id payload_type dtmf_payload_type = record {
  id = id;
  payload_type = payload_type;
  dtmf_payload_type = dtmf_payload_type;
  remote_addr =
      if line.media_relay_enabled
      then (line.relay_overlay_host, line.relay_overlay_port)
      else (line.gateway_host, line.local_rtp_port);
}

-- `status`: direction, status and number of the active call; `none` for the number of a caller.
unfoldable pub status : Manager → Option (Bool × Status × Option Text)
status m = elim m.call [
  | none ↦ none
  | some c ↦ some (c.inbound, c.status, if c.inbound then none else some c.number)
]
