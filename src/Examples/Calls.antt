-- ===== src/Examples/Calls.antt =====
-- One line with a call, and the theorems on bridge/sip_call.py applied to it.
use talk_sip_bridge.Base.{◌≡◌, refl, true, false, not, ◌||◌, none, some, [], ◌∷◌, ◌++◌, arith}
use talk_sip_bridge.Base.Text.{Text, codes, text_eq}
use talk_sip_bridge.Base.Str.{isdigit, is_digit, before, digits_value, starts_with, lower}
use talk_sip_bridge.Examples.{line}
use talk_sip_bridge.Messages.Headers.{no_headers, header}
use talk_sip_bridge.Base.Dict.{get}
use talk_sip_bridge.Messages.Fields.{parse_auth_challenge, split_on, add_chunks}
use talk_sip_bridge.Sdp.{num_elem}
use talk_sip_bridge.Call.{Addr, Rtp, Attempt, Call, ringing, dialing, connected, Manager}
use talk_sip_bridge.Call.Incoming.{all_sent}
use talk_sip_bridge.Call.Ending.{hangup}
use talk_sip_bridge.Call.Outgoing.{
  Worker, Response, take_response, reach_deadline, answered_cseq, is_relevant, is_stale,
  is_provisional, retry_invite_with_auth, retried, next_attempt,
}
use talk_sip_bridge.Call.Operations.{Env, Request, invite_op, answer_op, hangup_op, operate}
use talk_sip_bridge.Call.Invariant.{IsValid, is_untimed, operate-IsValid}
use talk_sip_bridge.Call.Release.{IsGone, IsSameCall, ended_call_is_released, one_call_at_a_time}
use talk_sip_bridge.Call.Replies.{IsReplied, request_of, request-IsReplied}
use talk_sip_bridge.Call.Goodbyes.{goodbyes, due, hangup_says_goodbye}
use talk_sip_bridge.Call.Workers.{IsSettled, worker_settles, repeated_challenge_ignored}

abbrev pub env : Env
env = record { fullmatch = text_eq; md5hex = λ t. t; line = line }

abbrev pub gateway : Addr
gateway = (codes "gw", 5060)

abbrev session : Rtp
session = record {
  id = 0;
  payload_type = 8;
  dtmf_payload_type = some 101;
  remote_addr = (codes "gw", 7078);
}

abbrev running_call : Call
running_call = record {
  call_id = codes "a1";
  inbound = true;
  status = connected;
  number = [];
  headers = no_headers;
  remote_addr = gateway;
  to_tag = some (codes "bridge1");
  from_tag = [];
  bye_timer = some 0;
  rtp = some session;
  offered_pts = 8 ∷ [];
  dtmf_pt = some 101;
  offer_media = none;
  attempt = none;
  remote_contact = none;
}

abbrev pub busy_line : Manager
busy_line = record { call = some running_call; sessions = 1 }

pub busy_line-IsValid : IsValid busy_line
unfolding num_elem
busy_line-IsValid = (refl, omega arith, refl)

abbrev request : Text → Request
request call_id = record {
  text = codes "INVITE sip:bridge SIP/2.0" ++ 13 ∷ 10 ∷ 13 ∷ 10 ∷ codes "m=audio 7078 RTP/AVP 8";
  headers = no_headers;
  call_id = call_id;
  remote_addr = gateway;
}

abbrev ringing_line : Manager
ringing_line = record {
  call = some (record running_call { status = ringing; bye_timer = none; rtp = none });
  sessions = 1;
}

operate-IsValid_example :
    let after = (operate env ringing_line (answer_op all_sent)).0 in
    IsValid after × ((not (is_untimed after.call) || false) ≡ true)
operate-IsValid_example = operate-IsValid env ringing_line (answer_op all_sent) tt

hung_up : (operate env busy_line (hangup_op (codes "z"))).0.call ≡ none
unfolding operate hangup
hung_up = refl

ended_call_is_released_example :
    IsGone running_call (operate env busy_line (hangup_op (codes "z"))).1
ended_call_is_released_example =
    ended_call_is_released env busy_line (hangup_op (codes "z")) running_call busy_line-IsValid refl
      hung_up

one_call_at_a_time_example :
    IsSameCall
      (codes "a1")
      (operate env busy_line (invite_op (codes "t") (request (codes "b2")))).0.call
one_call_at_a_time_example =
    one_call_at_a_time env busy_line (invite_op (codes "t") (request (codes "b2"))) running_call
      refl

request-IsReplied_example :
    let op = invite_op (codes "t") (request (codes "b2")) in
    IsReplied busy_line op (operate env busy_line op).1 (request_of op)
request-IsReplied_example =
    request-IsReplied env busy_line (invite_op (codes "t") (request (codes "b2"))) busy_line-IsValid

hangup_says_goodbye_example :
    ((hangup line (codes "z") busy_line).0.call ≡ none)
    × (goodbyes (hangup line (codes "z") busy_line).1 ≡ due running_call connected)
hangup_says_goodbye_example =
    hangup_says_goodbye line (codes "z") busy_line running_call busy_line-IsValid refl

abbrev attempt : Attempt
attempt = record {
  number = codes "22";
  call_id = codes "o1";
  from_tag = codes "t";
  sdp = [];
  cseq = 1;
  branch = codes "z1";
}

abbrev dialing_line : Manager
dialing_line = record {
  call = some (record running_call {
    call_id = codes "o1";
    inbound = false;
    status = dialing;
    bye_timer = none;
    rtp = none;
  });
  sessions = 1;
}

abbrev challenge : Response
challenge = record {
  code = codes "401";
  status_line = codes "SIP/2.0 401 Unauthorized";
  headers = record { named = (codes "cseq", codes "1 INVITE") ∷ []; via = [] };
  resp = [];
}

abbrev worker : Worker
worker = record { attempt = attempt; rtp = record session { id = 1 }; running = true }

worker_settles_example :
    IsSettled worker (take_response env.md5hex line (codes "z2") dialing_line worker challenge)
    × IsSettled worker (reach_deadline dialing_line worker)
worker_settles_example = worker_settles env (codes "z2") dialing_line worker challenge

abbrev retried_worker : Manager × Worker
retried_worker =
    let (m, w, es) = take_response env.md5hex line (codes "z2") dialing_line worker challenge in
    (m, w)

challenge_numbered : isdigit (answered_cseq challenge) ≡ true
unfolding isdigit is_digit answered_cseq before header get text_eq
challenge_numbered = refl

challenge_relevant : is_relevant attempt challenge ≡ true
unfolding is_relevant is_stale is_provisional isdigit is_digit answered_cseq before header get
    text_eq digits_value
challenge_relevant = refl

challenge_answered : retried_worker.1.attempt.cseq ≡ 2
unfolding take_response retry_invite_with_auth retried next_attempt parse_auth_challenge starts_with
    lower split_on add_chunks is_relevant is_stale is_provisional isdigit is_digit answered_cseq
    before header get text_eq digits_value
challenge_answered = refl

repeated_challenge_ignored_example :
    let (m1, w1, es) = take_response env.md5hex line (codes "z2") dialing_line worker challenge in
    take_response env.md5hex line (codes "z3") m1 w1 challenge ≡ (m1, w1, [])
repeated_challenge_ignored_example =
    repeated_challenge_ignored env (codes "z2") (codes "z3") dialing_line worker challenge
      challenge_numbered challenge_answered challenge_relevant
