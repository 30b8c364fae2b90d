-- ===== src/Talk.antt =====
-- bridge/call.py and bridge/talk_client.py: the calls of one line as the Talk side sees them, and
-- what arrives on its room connection. A method is one step: what it awaits in between is an act.
pub mod Presence
pub mod Messages
pub mod Callbacks
pub mod Answers
pub mod Ends
pub mod Refusals
pub mod Teardown
pub mod Dialling
pub mod Dialled
use talk_sip_bridge.Base.{
  ℕ, zero, suc, ◌+◌, ◌-◌, ◌*◌, ◌/◌, ◌%◌, ◌^◌, ◌≤◌, ◌<◌, min, ◌≡◌, refl, sym, ap, ap₂, ◌∙◌, ◌≢◌, ◌↔◌,
  ◌⊎◌, inl, inr, Bool, true, false, not, ◌&&◌, ◌||◌, Option, none, some, List, [], ◌∷◌, ◌++◌, map,
  arith, ltb, leb, ◌==◌, if◌then◌else◌, ltb→lt, lt→ltb, leb→le, ==_iff, Bool-cases, Option-cases,
  length, get_or, set, take, drop, replicate, All, length-append, take-append-drop, length-take,
  length-drop, length-replicate, All-append, length_zero, take-append, drop-append,
}
use talk_sip_bridge.Base.Text.{Text}
use talk_sip_bridge.Base.Dict.{Dict, get, put, remove, elem}
use talk_sip_bridge.Room.{RoomCallState}

pub data Kind : Type 0 where
  inbound dialout : Kind

-- One call; `media` says whether its media is publishing. Its subscriptions have a module of their
-- own, and an open ring and a dialogue count only by whether there is one.
pub record Call : Type 0 where
  pub sip_call_id : Text
  pub kind : Kind
  pub roomid : Text
  pub actor : Option (Text × Text)  -- its type and id
  pub number : Text
  pub number_dialled : Text
  pub awaits_meeting_id : Bool
  pub ivr : Bool
  pub waiting_for_accept : Bool
  pub talk_ring_opener : Bool
  pub talk_ring_sessionid : Option Text
  pub accepted_sessionid : Option Text
  pub virtual_sessionid : Option Text
  pub virtual_room_sessionid : Option Text
  pub media : Option Bool

-- A call as it is created, with the defaults of its fields.
unfoldable pub new_call : Text → Kind → Text → Call
new_call sip_call_id kind number = record {
  sip_call_id = sip_call_id;
  kind = kind;
  roomid = [];
  actor = none;
  number = number;
  number_dialled = [];
  awaits_meeting_id = false;
  ivr = false;
  waiting_for_accept = false;
  talk_ring_opener = false;
  talk_ring_sessionid = none;
  accepted_sessionid = none;
  virtual_sessionid = none;
  virtual_room_sessionid = none;
  media = none;
}

unfoldable pub is_publishing : Call → Bool
is_publishing c = elim c.media [ none ↦ false | some b ↦ b ]

-- An id put into a set, if it is not falsy.
abbrev pub with_id : Option Text → List Text → List Text
with_id none ids = ids
with_id (some []) ids = ids
with_id (some (c ∷ cs)) ids = (c ∷ cs) ∷ ids

unfoldable pub own_session_ids : Call → List Text
own_session_ids c =
    with_id c.virtual_sessionid
      (with_id c.virtual_room_sessionid (with_id c.talk_ring_sessionid []))

-- `room_connected` says whether there is a room connection; the roster has `is_human` of each
-- session.
pub record TalkClient : Type 0 where
  pub own_sessionid : Text
  pub room_connected : Bool
  pub call_sessions : Dict Call
  pub room_roster : Dict Bool
  pub room_call : RoomCallState
  pub default_room_token : Text

-- What a step does outside.
pub data Act : Type 0 where
  stop_listening : Text → List Text → Act
  announce_state : Text → List Text → Act
  start_for_late_joiner : Text → List Text → Act
  answer : Act
  stop_ring : Text → Act
  hangup : Act
  confirm_later : Act  -- `_confirm_empty` is scheduled
  join_room : Text → Act
  leave_room : Act
  room_joined : Act
  audio_message : Act
  answer_refused : Text → Text → Act
  close_media : Act
  withdraw : Text → Act
  set_incall : ℕ → Act
  report : Text → Text → Text → Act
  end_room_call : Text → Act
  ask_which_room : Text → Act
  publish : Text → Text → Option Text → Act
  ring : Text → Act
  press : Text → ℕ → Act
  stop_ivr : Text → Act

-- `own_session_ids` of every call, with the session of the client.
unfoldable pub own_of : Dict Call → List Text
own_of [] = []
own_of ((k, c) ∷ calls) = own_session_ids c ++ own_of calls

unfoldable pub ours : TalkClient → List Text
ours t = t.own_sessionid ∷ own_of t.call_sessions

unfoldable pub set_call : TalkClient → Text → Call → TalkClient
set_call t call_id c = record t { call_sessions = put call_id c t.call_sessions }

abbrev or_default : Text → Text → Text
or_default [] room = room
or_default (c ∷ cs) room = c ∷ cs

unfoldable pub entry_roomid : TalkClient → Text → Text
entry_roomid t call_id = elim (get call_id t.call_sessions) [
  | none ↦ t.default_room_token
  | some c ↦ or_default c.roomid t.default_room_token
]

unfoldable pub call_still_running : TalkClient → Text → Bool
call_still_running t call_id = elim (get call_id t.call_sessions) [ none ↦ false | some c ↦ true ]
