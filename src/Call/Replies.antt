-- ===== src/Call/Replies.antt =====
-- The replies of the handlers of requests.
use talk_sip_bridge.Base.{
  ℕ, ◌≡◌, refl, ap, ◌≢◌, inl, inr, Bool, true, false, not, ◌&&◌, Option, none, some, List, [], ◌∷◌,
  ◌++◌, arith, if◌then◌else◌, Bool-cases, Option-cases,
}
use talk_sip_bridge.Base.Text.{Text, codes, text_eq}
use talk_sip_bridge.Line.{Line}
use talk_sip_bridge.Messages.Headers.{Headers}
use talk_sip_bridge.Messages.Fields.{dtmf_from_info}
use talk_sip_bridge.Sdp.{
  extract_sip_body, parse_sdp_media_address, parse_offered_payload_types, num_elem, supported,
  answer_sdp,
}
use talk_sip_bridge.Sdp.Choice.{answer_sdp_total}
use talk_sip_bridge.Call.{
  Addr, Rtp, Call, Manager, Effect, sent, response, call_named, cancelled_timer, released_rtp,
}
use talk_sip_bridge.Call.Incoming.{
  reanswer, reanswered, withdrawn, handle_invite, handle_info, handle_options, is_up, report,
}
use talk_sip_bridge.Call.Ending.{drop_named, handle_bye, handle_cancel}
use talk_sip_bridge.Call.Invariant.{IsMedia, IsValidCall, IsValid, managed}
use talk_sip_bridge.Call.Operations.{
  Env, Request, Operation, invite_op, info_op, bye_op, cancel_op, options_op, answer_op, decline_op,
  hangup_op, dial_op, operate,
}

-- The responses of some effects: status line, the headers that they echo, and where they go.
unfoldable pub replies : List Effect → List (Text × Headers × Option Addr)
replies [] = []
replies (sent (response s h x b t) a ∷ es) = (s, h, a) ∷ replies es
replies (_ ∷ es) = replies es

-- Whether the running session can go on under a new offer.
abbrev pub goes_on : Option Rtp → List ℕ → Bool
goes_on none pts = false
goes_on (some r) pts = not (withdrawn pts r.payload_type)

abbrev pub status_of_invite : Option Call → Text → List ℕ → Text
status_of_invite none call_id pts = codes "180 Ringing"
status_of_invite (some c) call_id pts =
    if text_eq c.call_id call_id && is_up c.status
    then if goes_on c.rtp pts then codes "200 OK" else codes "488 Not Acceptable Here"
    else codes "486 Busy Here"

-- The request of an operation, and the status that is due to it.
abbrev pub request_of : Operation → Option Request
request_of (invite_op tag r) = some r
request_of (info_op r) = some r
request_of (bye_op r) = some r
request_of (cancel_op r) = some r
request_of (options_op r) = some r
request_of _ = none

abbrev pub due_status : Manager → Operation → Text
due_status m (invite_op tag r) =
    status_of_invite m.call r.call_id (parse_offered_payload_types (extract_sip_body r.text))
due_status m _ = codes "200 OK"

abbrev reply : Text → Request → List (Text × Headers × Option Addr)
reply s r = (s, r.headers, some r.remote_addr) ∷ []

replies-reanswered :
    (line : Line) (c : Call) (r : Rtp) (q : Request) (o : Option Text)
    → o ≢ none
    → replies (reanswered line c r q.headers q.remote_addr o) ≡ reply (codes "200 OK") q
unfolding replies reanswered
replies-reanswered line c r q none h = absurd (h refl)
replies-reanswered line c r q (some sdp) h = refl

codec_of_media :
    (n : ℕ) (o : Option Rtp) (t : Option ℕ) (r : Rtp)
    → IsMedia n o t
    → o ≡ some r
    → num_elem r.payload_type supported ≡ true
codec_of_media n o t r v e = ground arith

replies-reanswer :
    (line : Line) (n : ℕ) (c : Call) (q : Request) (media : Option Addr) (pts : List ℕ)
    → IsMedia n c.rtp c.bye_timer
    → replies (reanswer line (managed (some c) n) c q.headers q.remote_addr media pts).1
      ≡ reply (if goes_on c.rtp pts then codes "200 OK" else codes "488 Not Acceptable Here") q
unfolding reanswer replies
replies-reanswer line n c q media pts v = elim (Option-cases c.rtp) [
  | inl e ↦ rw (reanswer, goes_on, e, replies) refl
  | inr (r, e) ↦ elim (Bool-cases (withdrawn pts r.payload_type)) [
    | inl gone ↦ rw (reanswer, goes_on, e, gone, replies) refl
    | inr on ↦
        rw (reanswer, goes_on, e, on)
          (replies-reanswered line c r q
            (answer_sdp line line.local_rtp_port r.payload_type r.dtmf_payload_type)
            (answer_sdp_total line line.local_rtp_port r.payload_type r.dtmf_payload_type
              (codec_of_media n c.rtp c.bye_timer r v e)))
  ]
]

up-IsMedia :
    (n : ℕ) (c : Call)
    → is_up c.status ≡ true
    → IsValidCall n (some c)
    → IsMedia n c.rtp c.bye_timer
up-IsMedia n c h v = ground arith

invite_replies :
    (line : Line) (tag : Text) (n : ℕ) (o : Option Call) (q : Request)
    → IsValidCall n o
    → replies (handle_invite line tag (managed o n) q.text q.headers q.call_id q.remote_addr).1
      ≡ reply
          (status_of_invite o q.call_id (parse_offered_payload_types (extract_sip_body q.text)))
          q
unfolding handle_invite replies
invite_replies line tag n none q v = refl
invite_replies line tag n (some c) q v = elim (Bool-cases (text_eq c.call_id q.call_id)) [
  | inr other ↦ rw other refl
  | inl same ↦ elim (Bool-cases (is_up c.status)) [
    | inr down ↦ rw (same, down) refl
    | inl up ↦
        rw (same, up)
          (replies-reanswer line n c q (parse_sdp_media_address (extract_sip_body q.text))
            (parse_offered_payload_types (extract_sip_body q.text)) (up-IsMedia n c up v))
  ]
]

released_replies :
    (t : Option ℕ) (r : Option Rtp) (es : List Effect)
    → replies ((cancelled_timer t ++ released_rtp r) ++ es) ≡ replies es
unfolding replies
released_replies none none es = refl
released_replies (some t) none es = refl
released_replies none (some r) es = refl
released_replies (some t) (some r) es = refl

drop_replies :
    (m : Manager) (i : Text) (es : List Effect) → replies ((drop_named m i).1 ++ es) ≡ replies es
unfolding drop_named replies
drop_replies m i es = elim (Option-cases (call_named m i)) [
  | inl e ↦ rw (replies, ◌++◌, e) refl
  | inr (c, e) ↦ rw (◌++◌, e) (released_replies c.bye_timer c.rtp es)
]

replies-report : (digit : Text) (o : Option Call) → replies (report digit o) ≡ []
unfolding report replies
replies-report digit none = refl
replies-report [] (some c) = refl
replies-report (d ∷ ds) (some c) = elim (Option-cases c.rtp) [
  | inl e ↦ rw e refl
  | inr (r, e) ↦ rw e refl
]

-- One response, of the status that is due, with the headers of the request, to its sender.
abbrev pub IsReplied : Manager → Operation → List Effect → Option Request → Type 0
IsReplied m op es none = Unit
IsReplied m op es (some r) = replies es ≡ (due_status m op, r.headers, some r.remote_addr) ∷ []

-- On a valid line every request handled is answered exactly once, to its sender and with its
-- headers: an INVITE with 180 on a free line; within the connected call of its Call-ID with 200,
-- or with 488 where it offers codecs, but not the one in use; and with 486 otherwise; INFO, BYE,
-- CANCEL and OPTIONS with 200, whatever the state.
pub request-IsReplied :
    (e : Env) (m : Manager) (op : Operation)
    → IsValid m
    → IsReplied m op (operate e m op).1 (request_of op)
unfolding operate handle_info handle_bye handle_cancel handle_options replies
request-IsReplied e m (invite_op tag q) v = invite_replies e.line tag m.sessions m.call q v
request-IsReplied e m (info_op q) v =
    ap (λ l. (codes "200 OK", q.headers, some q.remote_addr) ∷ l)
      (replies-report (dtmf_from_info (extract_sip_body q.text)) (call_named m q.call_id))
request-IsReplied e m (bye_op q) v = drop_replies m q.call_id _
request-IsReplied e m (cancel_op q) v = drop_replies m q.call_id _
request-IsReplied e m (options_op q) v = refl
request-IsReplied e m (answer_op net) v = tt
request-IsReplied e m decline_op v = tt
request-IsReplied e m (hangup_op b) v = tt
request-IsReplied e m (dial_op a b c d) v = tt
