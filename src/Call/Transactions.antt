-- ===== src/Call/Transactions.antt =====
-- What it means that the messages of an outbound worker make transactions, and lemmas of it.
mod Working
pub mod Events
use talk_sip_bridge.Base.{
  ℕ, zero, suc, ◌+◌, ◌-◌, ◌*◌, ◌/◌, ◌%◌, ◌^◌, ◌≤◌, ◌<◌, min, ◌≡◌, refl, sym, ap, ap₂, ◌∙◌, ◌≢◌, ◌↔◌,
  ◌⊎◌, inl, inr, Bool, true, false, not, ◌&&◌, ◌||◌, Option, none, some, List, [], ◌∷◌, ◌++◌, map,
  arith, ltb, leb, ◌==◌, if◌then◌else◌, ltb→lt, lt→ltb, leb→le, ==_iff, Bool-cases, Option-cases,
  length, get_or, set, take, drop, replicate, All, length-append, take-append-drop, length-take,
  length-drop, length-replicate, All-append, length_zero, take-append, drop-append,
}
use talk_sip_bridge.Base.Text.{Text, codes, text_eq, text_eq_iff}
use talk_sip_bridge.Base.Dict.{Dict}
use talk_sip_bridge.Line.{Line}
use talk_sip_bridge.Messages.Headers.{Headers, header}
use talk_sip_bridge.Messages.Fields.{dtmf_from_info, parse_auth_challenge}
use talk_sip_bridge.Sdp.{
  extract_sip_body, parse_sdp_media_address, parse_offered_payload_types, num_elem, supported,
  choose_payload_type, answer_sdp, pt_pcmu,
}
use talk_sip_bridge.Sdp.Choice.{IsFit, choose_payload_type-IsFit, answer_sdp_total}
use talk_sip_bridge.Call.{
  Addr, Rtp, Attempt, Call, Status, ringing, dialing, connected, Manager, Message, Effect, sent,
  primed, released, timer_cancelled, is_connected, response, invite, ack, cancel, bye, call_named,
  released_by, cancelled_timer, released_rtp, new_rtp_session, respond,
}
use talk_sip_bridge.Call.Incoming.{
  moved_media, reanswer, reanswered, withdrawn, ringing_call, handle_invite, handle_info,
  handle_options, answer, decline, answer_with, accepted, answered_call, is_ringing, is_up, report,
  chosen_session,
}
use talk_sip_bridge.Call.Ending.{
  drop_named, handle_bye, handle_cancel, hangup, farewell, with_tag, inbound_bye, outbound_bye,
  withdrawal,
}
use talk_sip_bridge.Call.Outgoing.{
  dial, dialing_call, Worker, Response, share, give_back, take_response, reach_deadline,
  start_worker, retry_invite_with_auth, retried, connect_outbound, refuse, next_attempt,
  is_relevant, is_stale, is_provisional, is_refusal, challenge_name,
}
use talk_sip_bridge.Call.Invariant.{IsMedia, IsSilent, IsSound, managed, around}
use talk_sip_bridge.Call.Operations.{
  Env, Request, Operation, invite_op, info_op, bye_op, cancel_op, options_op, answer_op, decline_op,
  hangup_op, dial_op, operate, Event, operation, deadline, beside, happen, happen_all,
}

-- Whether messages about an attempt fit the INVITE sent last: an INVITE is the next one of the
-- same call, a CANCEL is made of the attempt of the last one, its branch included, and an ACK of
-- that attempt with any branch.
abbrev pub IsTransaction : Attempt → List Effect → Type 0
IsTransaction last [] = Unit
IsTransaction last (sent (invite a auth) to ∷ es) =
    (a.cseq ≡ suc last.cseq) × (a.call_id ≡ last.call_id) × IsTransaction a es
IsTransaction last (sent (cancel a) to ∷ es) = (a ≡ last) × IsTransaction last es
IsTransaction last (sent (ack a b t u) to ∷ es) = (a ≡ last) × IsTransaction last es
IsTransaction last (_ ∷ es) = IsTransaction last es

abbrev pub last_of : Attempt → List Effect → Attempt
last_of last [] = last
last_of last (sent (invite a auth) to ∷ es) = last_of a es
last_of last (_ ∷ es) = last_of last es

-- The attempt that a call holds is the worker's.
abbrev pub IsShared : Option Attempt → Text → Attempt → Type 0
IsShared none i a = Unit
IsShared (some b) i a = (b ≡ a) × (i ≡ a.call_id)

abbrev pub IsCoherent : Option Call → Attempt → Type 0
IsCoherent none a = Unit
IsCoherent (some c) a = IsShared c.attempt c.call_id a

abbrev pub Fits : Attempt → Manager × Worker × List Effect → Type 0
Fits last (m, w, es) =
    IsTransaction last es × (last_of last es ≡ w.attempt) × IsCoherent m.call w.attempt

pub IsTransaction-append :
    (a : Attempt) (es fs : List Effect)
    → IsTransaction a es
    → IsTransaction (last_of a es) fs
    → IsTransaction a (es ++ fs)
IsTransaction-append a [] fs h k = k
IsTransaction-append a (sent (invite b auth) to ∷ es) fs h k =
    (h.0, h.1, IsTransaction-append b es fs h.2 k)
IsTransaction-append a (sent (cancel b) to ∷ es) fs h k = (h.0, IsTransaction-append a es fs h.1 k)
IsTransaction-append a (sent (ack b c t u) to ∷ es) fs h k =
    (h.0, IsTransaction-append a es fs h.1 k)
IsTransaction-append a (x ∷ es) fs h k = IsTransaction-append a es fs h k

last_of-append :
    (a : Attempt) (es fs : List Effect) → last_of a (es ++ fs) ≡ last_of (last_of a es) fs
last_of-append a [] fs = refl
last_of-append a (sent (invite b auth) to ∷ es) fs = last_of-append b es fs
last_of-append a (x ∷ es) fs = last_of-append a es fs

-- Two lots of effects in a row.
pub Fits-append :
    (a : Attempt) (es : List Effect) (m : Manager) (w : Worker) (fs : List Effect)
    → IsTransaction a es
    → Fits (last_of a es) (m, w, fs)
    → Fits a (m, w, es ++ fs)
Fits-append a es m w fs h k =
    (IsTransaction-append a es fs h k.0, last_of-append a es fs ∙ k.1, k.2)

pub give_back-Fits :
    (m : Manager) (w : Worker) → IsCoherent m.call w.attempt → Fits w.attempt (give_back m w)
unfolding give_back call_named
give_back-Fits m w h = ground arith

unshared :
    (x : Option Attempt) (i : Text) (a b : Attempt)
    → a.call_id ≡ b.call_id
    → text_eq i b.call_id ≡ false
    → IsShared x i a
    → IsShared x i b
unshared none i a b e f h = tt
unshared (some y) i a b e f h = absurd (cc ((text_eq_iff i b.call_id).1 (h.1 ∙ e), f))

pub shared_call :
    (a b : Attempt) (o : Option Call) (n : ℕ)
    → a.call_id ≡ b.call_id
    → IsCoherent o a
    → IsCoherent (share (managed o n) b).call b
unfolding share call_named
shared_call a b none n e h = tt
shared_call a b (some c) n e h = elim (Bool-cases (text_eq c.call_id b.call_id)) [
  | inl same ↦ rw (IsCoherent, same) (refl, (text_eq_iff c.call_id b.call_id).0 same)
  | inr other ↦ rw (IsCoherent, other) (unshared c.attempt c.call_id a b e other h)
]

pub primed_fits :
    (relayed : Bool) (i : ℕ) (a : Attempt) (es : List Effect)
    → IsTransaction a es
    → last_of a es ≡ a
    → let fs = (if relayed then primed i ∷ [] else []) ++ es in
      IsTransaction a fs × (last_of a fs ≡ a)
primed_fits true i a es h k = (h, k)
primed_fits false i a es h k = (h, k)

pub if_Fits :
    (a : Attempt) (b : Bool) (x y : Manager × Worker × List Effect)
    → Fits a x
    → Fits a y
    → Fits a (if b then x else y)
if_Fits a true x y h k = h
if_Fits a false x y h k = k
