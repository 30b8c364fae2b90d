-- ===== src/Talk/Callbacks.antt =====
-- `_handle_room_message` of bridge/talk_client.py, and the callbacks of the call manager there.
use talk_sip_bridge.Base.{
  ℕ, Bool, true, false, not, ◌&&◌, ◌||◌, Option, none, some, List, [], ◌∷◌, ◌++◌, if◌then◌else◌,
  length, drop,
}
use talk_sip_bridge.Base.Text.{Text, codes, text_eq}
use talk_sip_bridge.Base.Dict.{Dict, get, remove, elem}
use talk_sip_bridge.Base.Str.{starts_with}
use talk_sip_bridge.Messages.Caller.{caller_number}
use talk_sip_bridge.Room.{Update, new}
use talk_sip_bridge.Talk.Presence.{JoinEntry, joined, updated, leave}
use talk_sip_bridge.Talk.Messages.{room_request_id}
use talk_sip_bridge.Talk.{
  Kind, inbound, dialout, Call, new_call, is_publishing, TalkClient, Act, set_call, entry_roomid,
  answer, hangup, room_joined, audio_message, answer_refused, close_media, withdraw, set_incall,
  report, stop_ring, end_room_call, ask_which_room, publish, ring, press, stop_ivr,
}

-- A message of the signaling server, by the members that are read; a text that is missing is [].
pub data RoomMessage : Type 0 where
  message : RoomMessage
  room : Text → RoomMessage  -- its id
  error : Text → Text → RoomMessage  -- its id and its code
  control : Text → RoomMessage  -- the type of its data
  room_join : List JoinEntry → RoomMessage  -- "event" of target "room"
  room_leave : List Text → RoomMessage
  participants_update : Update → RoomMessage
  unhandled : RoomMessage

-- `named.partition("@@")`: what stands before and after the separator.
unfoldable pub partition_at : Text → Text × Text
partition_at [] = ([], [])
partition_at (c ∷ cs) =
    let (left, right) = partition_at cs in
    if starts_with (c ∷ cs) (codes "@@") then ([], drop 1 cs) else (c ∷ left, right)

abbrev pub answer_prefix : Text
answer_prefix = codes "bridge-subanswer-"

unfoldable pub refused_answer : Text → Act
refused_answer id =
    let (sessionid, refused_call) = partition_at (drop (length answer_prefix) id) in
    answer_refused refused_call sessionid

unfoldable pub handle_error : Text → Text → List Act
handle_error id code =
    if text_eq id room_request_id && text_eq code (codes "already_joined")
    then room_joined ∷ []
    else if starts_with id answer_prefix
    then refused_answer id ∷ []
    else []

-- `self._room_roster.pop(sessionid, None)` of each.
unfoldable pub forget : List Text → Dict Bool → Dict Bool
forget [] roster = roster
forget (s ∷ ss) roster = forget ss (remove s roster)

unfoldable pub handle_room_message : TalkClient → RoomMessage → TalkClient × List Act
handle_room_message t message = (t, audio_message ∷ [])
handle_room_message t (room id) = (t, if text_eq id room_request_id then room_joined ∷ [] else [])
handle_room_message t (error id code) = (t, handle_error id code)
handle_room_message t (control kind) =
    (t, if text_eq kind (codes "hangup") then hangup ∷ [] else [])
handle_room_message t (room_join items) = (joined t items, [])
handle_room_message t (room_leave ss) = (record t { room_roster = forget ss t.room_roster }, [])
handle_room_message t (participants_update u) = updated t u
handle_room_message t unhandled = (t, [])

-- `settled` of `_serve_room`: a new connection is in no room and knows nothing about one.
unfoldable pub settled : TalkClient → Text → TalkClient
settled t sessionid = record t {
  room_connected = true;
  own_sessionid = sessionid;
  room_call = new;
  room_roster = [];
}

abbrev when : Bool → List Act → List Act
when b acts = if b then acts else []

abbrev withdrawn : Option Text → List Act
withdrawn none = []
withdrawn (some []) = []
withdrawn (some (c ∷ cs)) = withdraw (c ∷ cs) ∷ []

abbrev has_media : Call → Bool
has_media c = elim c.media [ none ↦ false | some b ↦ true ]

abbrev is_dialout : Kind → Bool
is_dialout dialout = true
is_dialout inbound = false

-- What is taken down of a call, in order.
unfoldable pub take_down : Text → Call → Text → List Act
take_down call_id c roomid =
    when (c.waiting_for_accept && c.talk_ring_opener) (stop_ring roomid ∷ [])
    ++ when (has_media c) (close_media ∷ [])
    ++ withdrawn c.virtual_sessionid
    ++ when (is_publishing c) (set_incall 0 ∷ [])
    ++ when (is_dialout c.kind) (report call_id roomid (codes "cleared") ∷ [])
    ++ when (c.talk_ring_opener && not c.waiting_for_accept) (end_room_call roomid ∷ [])

-- `leaves` says whether the connection takes the message that leaves the room.
abbrev pub torn_down : Bool → TalkClient → Text → Option Call → Text → TalkClient × List Act
torn_down leaves t call_id none roomid = (t, [])
torn_down leaves t call_id (some c) roomid =
    let u = record t { call_sessions = remove call_id t.call_sessions } in
    let (v, acts) = leave leaves u in (v, take_down call_id c roomid ++ acts)

unfoldable pub teardown_call : Bool → TalkClient → Text → Text → TalkClient × List Act
teardown_call leaves t call_id roomid =
    torn_down leaves t call_id (get call_id t.call_sessions) roomid

-- `is_conference_call` of bridge/inbound_call.py: the line's numbers and pattern of callers are
-- arguments, and `fullmatch` is that of `re`.
unfoldable pub is_conference_call : (Text → Text → Bool) → List Text → Text → Text → Text → Bool
is_conference_call fullmatch numbers callers dialled caller =
    if not (elem dialled numbers)
    then false
    else elim callers [ [] ↦ true | c ∷ cs ↦ fullmatch (c ∷ cs) (caller_number caller) ]

-- Whether it is a conference call, and whether the line answers every call, are settled before.
unfoldable pub on_incoming_call :
    TalkClient → Bool → Bool → Text → Text → Text → TalkClient × List Act
on_incoming_call t conference auto_answer call_id caller dialled =
    let c = record (new_call call_id inbound caller) {
      number_dialled = dialled;
      awaits_meeting_id = conference;
    } in
    (set_call t call_id c, if conference || auto_answer then answer ∷ [] else ring call_id ∷ [])

abbrev asks_for_room : Option Call → Bool
asks_for_room none = false
asks_for_room (some c) = c.awaits_meeting_id && (elim c.roomid [ [] ↦ true | x ∷ xs ↦ false ])

abbrev hint_of : Option Call → Option Text
hint_of none = none
hint_of (some c) = c.accepted_sessionid

-- `on_call_connected`: what the dialogue makes of the room, if it is held, is its result.
unfoldable pub on_call_connected : TalkClient → Text → Bool → Option Text → List Act
on_call_connected t call_id outbound asked =
    let c = get call_id t.call_sessions in
    let publish_in = λ (roomid : Text).
      publish call_id roomid (hint_of c)
      ∷ when outbound (report call_id roomid (codes "connected") ∷ []) in
    if asks_for_room c
    then ask_which_room call_id
      ∷ (elim asked [ none ↦ [] | some [] ↦ [] | some (x ∷ xs) ↦ publish_in (x ∷ xs) ])
    else publish_in (entry_roomid t call_id)

abbrev ivr_act : Option Call → Act → List Act
ivr_act none act = []
ivr_act (some c) act = if c.ivr then act ∷ [] else []

unfoldable pub on_call_ended : Bool → TalkClient → Text → TalkClient × List Act
on_call_ended leaves t call_id =
    let (u, acts) = teardown_call leaves t call_id (entry_roomid t call_id) in
    (u, ivr_act (get call_id t.call_sessions) (stop_ivr call_id) ++ acts)

unfoldable pub on_call_failed : Bool → TalkClient → Text → TalkClient × List Act
on_call_failed leaves t call_id =
    let roomid = entry_roomid t call_id in
    let (u, acts) = teardown_call leaves t call_id roomid in
    (u, report call_id roomid (codes "rejected") ∷ acts)

unfoldable pub on_dtmf : TalkClient → Text → ℕ → List Act
on_dtmf t call_id digit = ivr_act (get call_id t.call_sessions) (press call_id digit)
