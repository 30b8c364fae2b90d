-- ===== src/Examples/Presence.antt =====
-- A room, a call that rings in it, and the theorems on bridge/room_presence.py and
-- bridge/talk_client.py applied to them.
use talk_sip_bridge.Base.{◌≡◌, ◌⊎◌, refl, true, false, none, some, [], ◌∷◌, if◌then◌else◌}
use talk_sip_bridge.Base.Text.{Text, codes, text_eq}
use talk_sip_bridge.Base.Int.{pos}
use talk_sip_bridge.Base.Dict.{IsUnique, keys_where, get, put, elem, has, any_item}
use talk_sip_bridge.Room.Flags.{num, as_flags, in_call_bit}
use talk_sip_bridge.Room.{
  Update, accepted_by, entered_from, left_from, apply, seeded, anyone_in_call_besides,
  current_flags, fold_changed, session_id_of, in_call,
}
use talk_sip_bridge.Base.Order.{sorted, insert, first_outside, text_leb}
use talk_sip_bridge.Room.Transitions.{member}
use talk_sip_bridge.Talk.{
  is_publishing, Call, inbound, TalkClient, ours, own_of, own_session_ids, answer_refused,
}
use talk_sip_bridge.Talk.Presence.{
  react, accept, follow_streams, updated, confirm_empty, no_calls, scan, look,
}
use talk_sip_bridge.Talk.Answers.{
  IsNewcomer, answers, found_in, only-IsNewcomer-answers, newcomer_is_answered,
}
use talk_sip_bridge.Talk.Ends.{Ends, some_act, is_hangup, grace_ends_empty_call}
use talk_sip_bridge.Talk.Messages.{answer_id, or_token}
use talk_sip_bridge.Talk.Callbacks.{error, handle_room_message, teardown_call}
use talk_sip_bridge.Examples.{line}
use talk_sip_bridge.Talk.Dialling.{Dialler, Sides, DialoutRequest, IsAccepted, IsRefused, requested}
use talk_sip_bridge.Talk.Dialled.{request_is_answered}
use talk_sip_bridge.Talk.Refusals.{refusal_finds_subscription}
use talk_sip_bridge.Talk.Teardown.{teardown_once}

abbrev waiting_call : Call
waiting_call = record {
  sip_call_id = codes "a1";
  kind = inbound;
  roomid = [];
  actor = none;
  number = codes "22";
  number_dialled = [];
  awaits_meeting_id = false;
  ivr = false;
  waiting_for_accept = true;
  talk_ring_opener = true;
  talk_ring_sessionid = some (codes "r");
  accepted_sessionid = none;
  virtual_sessionid = none;
  virtual_room_sessionid = none;
  media = none;
}

-- The session that started the ring is in the call.
abbrev ringing : TalkClient
ringing = record {
  own_sessionid = codes "b";
  room_connected = true;
  call_sessions = (codes "a1", waiting_call) ∷ [];
  room_roster = [];
  room_call = record { flags = some ((codes "r", pos 1) ∷ []) };
  default_room_token = codes "room";
}

-- Somebody comes.
abbrev coming : Update
coming = record {
  all = false;
  incall = none;
  in_call = none;
  users = none;
  changed =
      record { session_id = some (codes "p"); sessionid = none; in_call = some (num (pos 3)) } ∷ [];
}

ringing-IsUnique : IsUnique ((codes "r", pos 1) ∷ [])
unfolding has
ringing-IsUnique = (refl, tt)

one_call : IsUnique ringing.call_sessions
unfolding has
one_call = (refl, tt)

came : answers (updated ringing coming).1 ≡ true
unfolding answers updated react accept follow_streams apply current_flags fold_changed session_id_of
    entered_from left_from put in_call get as_flags in_call_bit keys_where scan look is_publishing
    accepted_by sorted insert first_outside ours own_of own_session_ids elem text_eq text_leb
came = refl

only-IsNewcomer-answers_example : (s : Text) × IsNewcomer ringing coming s
only-IsNewcomer-answers_example = only-IsNewcomer-answers ringing coming ringing-IsUnique came

p-IsNewcomer : IsNewcomer ringing coming (codes "p")
unfolding apply current_flags fold_changed session_id_of put in_call get as_flags in_call_bit ours
    own_of own_session_ids elem text_eq
p-IsNewcomer = (refl, refl, refl)

found : (found_in ringing).waiting ≡ some (codes "a1", waiting_call)
unfolding found_in scan look is_publishing
found = refl

known : seeded ringing.room_call ≡ true
unfolding seeded
known = refl

newcomer_is_answered_example : answers (updated ringing coming).1 ≡ true
newcomer_is_answered_example =
    newcomer_is_answered ringing coming (codes "p") (codes "a1", waiting_call) ringing-IsUnique
      known found p-IsNewcomer

hangs : some_act is_hangup (confirm_empty ringing) ≡ true
unfolding some_act confirm_empty anyone_in_call_besides any_item in_call_bit ours own_of
    own_session_ids elem text_eq
hangs = refl

in_room : member ringing.room_call (codes "r") ≡ true
unfolding in_call get in_call_bit text_eq
in_room = refl

grace_ends_empty_call_example :
    (no_calls ringing.call_sessions ≡ false) × (elem (codes "r") (ours ringing) ≡ true)
grace_ends_empty_call_example =
    grace_ends_empty_call ringing (codes "r") ringing-IsUnique hangs in_room

refusal_finds_subscription_example :
    handle_room_message ringing (error (answer_id (codes "p") (codes "a@@1") []) (codes "x"))
    ≡ (ringing, answer_refused (or_token (codes "a@@1") []) (codes "p") ∷ [])
refusal_finds_subscription_example =
    refusal_finds_subscription ringing (codes "p") (codes "a@@1") [] (codes "x") (refl, tt)

teardown_once_example :
    let u = (teardown_call true ringing (codes "a1") (codes "room")).0 in
    (get (codes "b2") u.call_sessions ≡ (
      if text_eq (codes "a1") (codes "b2") then none else get (codes "b2") ringing.call_sessions))
    × (teardown_call false u (codes "a1") (codes "room") ≡ (u, []))
teardown_once_example =
    teardown_once true false ringing (codes "a1") (codes "room") (codes "b2") one_call

abbrev dialler : Dialler
dialler = record {
  fullmatch = text_eq;
  line = line;
  strip_prefix = codes "0";
  error_text = λ result. codes "no";
  call_id = codes "o1";
  from_tag = codes "t";
  branch = codes "z1";
}

abbrev both_sides : Sides
both_sides = record {
  client = ringing;
  manager = record { call = none; sessions = 0 };
  dialout_connected = true;
}

abbrev request : DialoutRequest
request = record { id = codes "q1"; roomid = codes "room"; number = codes "022"; options = [] }

request_is_answered_example :
    IsAccepted dialler both_sides request (requested dialler both_sides request)
    ⊎ IsRefused dialler both_sides request (requested dialler both_sides request)
request_is_answered_example = request_is_answered dialler both_sides request refl
