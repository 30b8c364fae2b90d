-- ===== src/Talk/Presence.antt =====
-- bridge/room_presence.py: who is in the room, and what is done when that changes.
use talk_sip_bridge.Base.{
  Bool, true, false, not, ◌&&◌, ◌||◌, Option, none, some, List, [], ◌∷◌, ◌++◌, if◌then◌else◌,
}
use talk_sip_bridge.Base.Text.{Text, codes, text_eq}
use talk_sip_bridge.Base.Dict.{Dict, get, put, elem, is_empty}
use talk_sip_bridge.Room.{
  Update, RoomCallState, apply, accepted_by, anyone_in_call_besides, is_room_wide_call_end, new,
}
use talk_sip_bridge.Talk.{
  Kind, inbound, dialout, Call, is_publishing, TalkClient, Act, stop_listening, announce_state,
  start_for_late_joiner, answer, stop_ring, hangup, confirm_later, join_room, leave_room, ours,
  set_call, entry_roomid,
}

-- One entry of a "join" event.
pub record JoinEntry : Type 0 where
  pub sessionid : Option Text
  pub user_type : Option Text
  pub callid : Option Text
  pub features : List Text

abbrev is_text : Option Text → Text → Bool
is_text none t = false
is_text (some s) t = text_eq s t

unfoldable pub is_phone : JoinEntry → Bool
is_phone item = is_text item.user_type (codes "phone")

-- `INTERNAL_FEATURES` of bridge/talk_messages.py.
abbrev pub internal_features : List Text
internal_features = codes "start-dialout" ∷ codes "internal-incall" ∷ []

unfoldable pub any_of : List Text → List Text → Bool
any_of [] ys = false
any_of (x ∷ xs) ys = elem x ys || any_of xs ys

unfoldable pub is_internal : TalkClient → Text → JoinEntry → Bool
is_internal t sessionid item =
    text_eq sessionid t.own_sessionid || any_of item.features internal_features

abbrev name_session : TalkClient → Text → Text → Option Call → TalkClient
name_session t call_id sessionid none = t
name_session t call_id sessionid (some c) =
    set_call t call_id (record c { virtual_room_sessionid = some sessionid })

-- The server's name for the session of a phone.
unfoldable pub note_phone : TalkClient → Text → Option Text → TalkClient
note_phone t sessionid none = t
note_phone t sessionid (some []) = t
note_phone t sessionid (some (c ∷ cs)) =
    name_session t (c ∷ cs) sessionid (get (c ∷ cs) t.call_sessions)

unfoldable pub note_joined : TalkClient → Text → JoinEntry → TalkClient
note_joined t sessionid item =
    let u = record t {
      room_roster =
          put sessionid (not (is_phone item) && not (is_internal t sessionid item)) t.room_roster;
    } in
    if is_phone item then note_phone u sessionid item.callid else u

abbrev join_one : TalkClient → Option Text → JoinEntry → TalkClient
join_one t none item = t
join_one t (some []) item = t
join_one t (some (c ∷ cs)) item = note_joined t (c ∷ cs) item

unfoldable pub joined : TalkClient → List JoinEntry → TalkClient
joined t [] = t
joined t (item ∷ items) = joined (join_one t item.sessionid item) items

-- What the loop over the calls finds; the last of several stays.
pub record Found : Type 0 where
  pub active : Option Text
  pub waiting : Option (Text × Call)
  pub ringing : Option Text

abbrev is_dialout : Kind → Bool
is_dialout dialout = true
is_dialout inbound = false

abbrev note_ringing : Text → Call → Found → Found
note_ringing call_id c f =
    if is_dialout c.kind && not (is_publishing c) then record f { ringing = some call_id } else f

unfoldable pub look : Found → Text → Call → Found
look f call_id c =
    let g = note_ringing call_id c f in
    if is_publishing c
    then record g { active = some call_id }
    else if c.waiting_for_accept
    then record g { waiting = some (call_id, c) }
    else g

unfoldable pub scan : Found → Dict Call → Found
scan f [] = f
scan f ((call_id, c) ∷ calls) = scan (look f call_id c) calls

abbrev pub nothing_found : Found
nothing_found = record { active = none; waiting = none; ringing = none }

-- The streams of an active call follow those who leave and those who enter.
unfoldable pub follow_streams : Option Text → List Text → List Text → List Act
follow_streams none entered left = []
follow_streams (some call_id) entered left =
    (if is_empty left then [] else stop_listening call_id left ∷ [])
    ++ (if is_empty entered
        then []
        else announce_state call_id entered ∷ start_for_late_joiner call_id entered ∷ [])

-- The call that waited is taken by a session: it no longer waits.
abbrev pub taken_by : TalkClient → Text → Text → Option Call → TalkClient
taken_by t call_id sessionid none = t
taken_by t call_id sessionid (some c) =
    set_call t call_id
      (record c { waiting_for_accept = false; accepted_sessionid = some sessionid })

unfoldable pub accept : TalkClient → Text → Call → Option Text → TalkClient × List Act
accept t call_id entry none = (t, [])
accept t call_id entry (some sessionid) =
    let u = taken_by t call_id sessionid (get call_id t.call_sessions) in
    (u, answer ∷ (if entry.talk_ring_opener then stop_ring (entry_roomid u call_id) ∷ [] else []))

abbrev pub is_some {ℓ} : {A : Type ℓ} → Option A → Bool
is_some none = false
is_some (some x) = true

-- Where nobody waits to be answered: whether the call ends, at once or after a while.
unfoldable pub watch_end : RoomCallState → List Text → Update → List Text → List Act
watch_end room own u left =
    if u.all
    then if is_room_wide_call_end u then hangup ∷ [] else []
    else if not (is_empty left) && not (anyone_in_call_besides room own)
    then confirm_later ∷ []
    else []

-- The rest of `updated`, after the streams of an active call.
unfoldable pub react : TalkClient → Found → Update → List Text → List Text → TalkClient × List Act
react t f u entered left = elim f.waiting [
  | some (call_id, entry) ↦ accept t call_id entry (accepted_by entered (ours t))
  | none ↦
      if is_some f.active || is_some f.ringing
      then (t, watch_end t.room_call (ours t) u left)
      else (t, [])
]

unfoldable pub updated : TalkClient → Update → TalkClient × List Act
updated t u =
    let (room, entered, left) = apply t.room_call u in
    let next = record t { room_call = room } in
    let f = scan nothing_found t.call_sessions in
    let (done, acts) = react next f u entered left in
    (done, follow_streams f.active entered left ++ acts)

abbrev pub no_calls : Dict Call → Bool
no_calls [] = true
no_calls (c ∷ cs) = false

-- `_confirm_empty`, after its sleep.
unfoldable pub confirm_empty : TalkClient → List Act
confirm_empty t =
    if no_calls t.call_sessions
    then []
    else if anyone_in_call_besides t.room_call (ours t)
    then []
    else hangup ∷ []

-- `join`, up to the wait for the confirmation, which changes nothing.
unfoldable pub join : TalkClient → Text → List Act
join t roomid = if t.room_connected then join_room roomid ∷ [] else []

-- Whether the connection takes the message is an input; where it raises, `leave` just returns.
unfoldable pub leave : Bool → TalkClient → TalkClient × List Act
leave sends t =
    if t.room_connected && sends
    then (record t { room_call = new; room_roster = [] }, leave_room ∷ [])
    else (t, [])
