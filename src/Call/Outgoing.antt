-- ===== src/Call/Outgoing.antt =====
-- Placing a call: `dial`, `_outbound_worker` and what it calls in bridge/sip_call.py. The worker is
-- a thread, so each response it takes is a step, between which any other operation may run.
use talk_sip_bridge.Base.{
  ℕ, suc, Bool, true, false, not, ◌&&◌, ◌||◌, Option, none, some, List, [], ◌∷◌, ◌++◌, leb, ◌==◌,
  if◌then◌else◌,
}
use talk_sip_bridge.Base.Text.{Text, codes, text_eq}
use talk_sip_bridge.Base.Dict.{Dict, get}
use talk_sip_bridge.Base.Str.{isdigit, digits_value, after_prefix, span_where, is_space, before}
use talk_sip_bridge.Line.{Line}
use talk_sip_bridge.Messages.Headers.{Headers, header, no_headers, or_default}
use talk_sip_bridge.Messages.Fields.{
  valid_number, digest_response, parse_auth_challenge, extract_contact_uri,
}
use talk_sip_bridge.Requests.{authorization_header, concat}
use talk_sip_bridge.Sdp.{
  pt_pcmu, offer_sdp, extract_sip_body, parse_offered_payload_types, parse_telephone_event_type,
  parse_sdp_media_address, choose_payload_type,
}
use talk_sip_bridge.Call.{
  Rtp, Attempt, Call, connected, dialing, Manager, Effect, sent, invite, ack, cancel, opened,
  released, timer_started, is_connected, failed, worker_started, waiter_opened, waiter_closed,
  raised, call_named, new_rtp_session,
}
use talk_sip_bridge.Call.Incoming.{moved_media, priming}

pub data DialResult : Type 0 where
  rejected : DialResult  -- disallowed characters
  not_allowed : DialResult  -- not in the allowlist of the line
  busy : DialResult  -- the line has a call
  started : Text → DialResult

-- `number` in the notation of the gateway.
unfoldable pub dial_target_of : Line → Text → Text
dial_target_of line number = elim line.dialout_number_allowlist [
  | [] ↦ number
  | c ∷ cs ↦ line.dialout_internal_dial_prefix ++ number
]

unfoldable pub dialing_call : Text → Text → Text → Call
dialing_call call_id from_tag number = record {
  call_id = call_id;
  inbound = false;
  status = dialing;
  number = number;
  headers = no_headers;
  remote_addr = ([], 0);
  to_tag = none;
  from_tag = from_tag;
  bye_timer = none;
  rtp = none;
  offered_pts = [];
  dtmf_pt = none;
  offer_media = none;
  attempt = none;
  remote_contact = none;
}

-- `fullmatch` is the library's `re.fullmatch`, of a pattern and a text.
abbrev pub allowed : (Text → Text → Bool) → Text → Text → Bool
allowed fullmatch [] number = true
allowed fullmatch (c ∷ cs) number = fullmatch (c ∷ cs) number

-- The attempt that the worker makes, with the tokens of its call id, tag and branch.
unfoldable pub new_attempt : Line → Text → Text → Text → Text → Attempt
new_attempt line number call_id from_tag branch = record {
  number = number;
  call_id = call_id;
  from_tag = from_tag;
  sdp = offer_sdp line line.local_rtp_port;
  cseq = 1;
  branch = branch;
}

unfoldable pub dial :
    (Text → Text → Bool)
    → Line
    → Text
    → Text
    → Text
    → Manager
    → Text
    → Manager × DialResult × List Effect
unfolding dialing_call
dial fullmatch line call_id from_tag branch m number =
    if not (valid_number number)
    then (m, rejected, [])
    else if not (allowed fullmatch line.dialout_number_allowlist number)
    then (m, not_allowed, [])
    else elim m.call [
      | none ↦ (
        record m { call = some (dialing_call call_id from_tag number) },
        started call_id,
        worker_started (new_attempt line (dial_target_of line number) call_id from_tag branch) ∷ [],
      )
      | some c ↦ (m, busy, [])
    ]

-- What `_outbound_worker` keeps, and whether its loop still runs.
pub record Worker : Type 0 where
  pub attempt : Attempt
  pub rtp : Rtp
  pub running : Bool

-- The attempt is one object, held by the worker and by its call: a change of it shows in both.
unfoldable pub share : Manager → Attempt → Manager
share m a = elim (call_named m a.call_id) [
  | none ↦ m
  | some c ↦ record m { call = some (record c { attempt = some a }) }
]

-- The worker up to its loop.
unfoldable pub start_worker : Line → Manager → Attempt → Manager × Worker × List Effect
start_worker line m a =
    let r = new_rtp_session line m.sessions pt_pcmu none in
    (
      share (record m { sessions = suc m.sessions }) a,
      record { attempt = a; rtp = r; running = true },
      opened r ∷ waiter_opened a.call_id ∷ sent (invite a none) none ∷ [],
    )

-- One response, as `_relevant_responses` reads it.
pub record Response : Type 0 where
  pub code : Text
  pub status_line : Text
  pub headers : Headers
  pub resp : Text

unfoldable pub answered_cseq : Response → Text
answered_cseq r = before 32 (header r.headers (codes "cseq") [])

-- Whether it answers a CSeq that the transaction is not on.
unfoldable pub is_stale : Attempt → Response → Bool
is_stale a r = isdigit (answered_cseq r) && not (digits_value 0 (answered_cseq r) == a.cseq)

unfoldable pub is_provisional : Text → Bool
is_provisional code =
    text_eq code (codes "100") || text_eq code (codes "180") || text_eq code (codes "183")

-- Whether `_relevant_responses` yields it.
unfoldable pub is_relevant : Attempt → Response → Bool
is_relevant a r = not (is_stale a r) && not (is_provisional r.code)

-- `finally` of a worker that did not connect.
unfoldable pub give_back : Manager → Worker → Manager × Worker × List Effect
give_back m w = (
  elim (call_named m w.attempt.call_id) [ none ↦ m | some c ↦ record m { call = none } ],
  record w { running = false },
  waiter_closed w.attempt.call_id ∷ released w.rtp.id ∷ [],
)

abbrev pub prepend : List Effect → Manager × Worker × List Effect → Manager × Worker × List Effect
prepend es (m, w, fs) = (m, w, es ++ fs)

abbrev pub challenge_name : Text → Text
challenge_name code =
    if text_eq code (codes "401") then codes "www-authenticate" else codes "proxy-authenticate"

abbrev authorization : (Text → Text) → Line → Attempt → Dict Text → Text
authorization md5hex line a challenge =
    let realm = or_default (get (codes "realm") challenge) [] in
    let nonce = or_default (get (codes "nonce") challenge) [] in
    let uri = concat (codes "sip:" ∷ a.number ∷ codes "@" ∷ line.gateway_host ∷ []) in
    authorization_header line.sip_user realm uri nonce
      (digest_response md5hex line.sip_user realm line.sip_pass (codes "INVITE") uri nonce)

-- The attempt on its next CSeq, with a branch of its own.
unfoldable pub next_attempt : Attempt → Text → Attempt
next_attempt a branch = record a { cseq = suc a.cseq; branch = branch }

unfoldable pub retried :
    (Text → Text)
    → Line
    → Text
    → Manager
    → Worker
    → Option (Dict Text)
    → Manager × Worker × List Effect
retried md5hex line branch m w none = prepend (raised ∷ []) (give_back m w)
retried md5hex line branch m w (some challenge) =
    let a = next_attempt w.attempt branch in
    (
      share m a,
      record w { attempt = a },
      sent (invite a (some (authorization md5hex line w.attempt challenge))) none ∷ [],
    )

-- `_retry_invite_with_auth`
unfoldable pub retry_invite_with_auth :
    (Text → Text) → Line → Text → Manager → Worker → Response → Manager × Worker × List Effect
unfolding retried
retry_invite_with_auth md5hex line branch m w r =
    retried md5hex line branch m w
      (parse_auth_challenge (header r.headers (challenge_name r.code) []))

-- One or more characters of `[^;>\s]`.
abbrev run_of_tag : Text × Text → Option Text
run_of_tag ([], rest) = none
run_of_tag (c ∷ cs, rest) = some (c ∷ cs)

abbrev tag_at : Option Text → Option Text
tag_at none = none
tag_at (some rest) = run_of_tag (span_where (λ c. not (c == b';' || c == b'>' || is_space c)) rest)

-- `re.search(r'tag=([^;>\s]+)', to_header)`
unfoldable pub tag_in : Text → Option Text
tag_in [] = none
tag_in (c ∷ cs) =
    let rest = tag_in cs in
    elim (tag_at (after_prefix (codes "tag=") (c ∷ cs))) [ none ↦ rest | some t ↦ some t ]

abbrev settled_type : List ℕ → ℕ → ℕ
settled_type answered_pts old = elim (choose_payload_type answered_pts) [
  | none ↦ old
  | some pt ↦ pt
]

-- The session with what the answer settles.
unfoldable pub settle : Line → Rtp → Text → Rtp
settle line r body = record r {
  payload_type = settled_type (parse_offered_payload_types body) r.payload_type;
  dtmf_payload_type = parse_telephone_event_type body;
  remote_addr = moved_media line (parse_sdp_media_address body) r.remote_addr;
}

abbrev dialog_target : Text → Option Text
dialog_target [] = none
dialog_target (c ∷ cs) = some (extract_contact_uri (c ∷ cs))

abbrev contact_or : Option Text → Option Text → Option Text
contact_or none old = old
contact_or (some []) old = old
contact_or (some (c ∷ cs)) old = some (c ∷ cs)

-- `_connect_outbound`, and the end of the worker's loop.
unfoldable pub connect_outbound :
    Line → Text → Manager → Worker → Response → Manager × Worker × List Effect
connect_outbound line branch m w r =
    let to_header = header r.headers (codes "to") [] in
    let rtp = settle line w.rtp (extract_sip_body r.resp) in
    let target = dialog_target (header r.headers (codes "contact") []) in
    (
      elim (call_named m w.attempt.call_id) [
        | none ↦ m
        | some c ↦ record m {
          call = some (record c {
            status = connected;
            to_tag = tag_in to_header;
            rtp = some rtp;
            bye_timer = some rtp.id;
            remote_contact = contact_or target c.remote_contact;
          });
        }
      ],
      record w { rtp = rtp; running = false },
      sent (ack w.attempt branch to_header target) none ∷ priming line rtp
          ++ timer_started rtp.id
            ∷ is_connected w.attempt.call_id false
            ∷ waiter_closed w.attempt.call_id
            ∷ [],
    )

-- `code and code[0] in "456"`
unfoldable pub is_refusal : Text → Bool
is_refusal [] = false
is_refusal (c ∷ cs) = leb b'4' c && leb c b'6'

unfoldable pub refuse : Text → Manager → Worker → Response → Manager × Worker × List Effect
refuse branch m w r =
    prepend
      (sent (ack w.attempt branch (header r.headers (codes "to") []) none) none
        ∷ failed w.attempt.call_id r.status_line
        ∷ [])
      (give_back m w)

-- One turn of the worker's loop, with the branch of the request it may send.
unfoldable pub take_response :
    (Text → Text) → Line → Text → Manager → Worker → Response → Manager × Worker × List Effect
take_response md5hex line branch m w r =
    if not (is_relevant w.attempt r)
    then (m, w, [])
    else if text_eq r.code (codes "401") || text_eq r.code (codes "407")
    then retry_invite_with_auth md5hex line branch m w r
    else if text_eq r.code (codes "200")
    then connect_outbound line branch m w r
    else if is_refusal r.code
    then refuse branch m w r
    else (m, w, [])

abbrev timed_out : Option Call → Attempt → List Effect
timed_out none a = []
timed_out (some c) a = sent (cancel a) none ∷ []

-- The deadline passes with no answer.
unfoldable pub reach_deadline : Manager → Worker → Manager × Worker × List Effect
reach_deadline m w =
    prepend
      (timed_out (call_named m w.attempt.call_id) w.attempt
        ++ failed w.attempt.call_id (codes "timeout") ∷ [])
      (give_back m w)
