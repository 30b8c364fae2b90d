-- ===== src/Call/Transactions/Working.antt =====
-- Each step of an outbound worker fits its transaction.
use talk_sip_bridge.Base.{
  ℕ, refl, inl, inr, not, ◌||◌, Option, none, some, List, [], if◌then◌else◌, Bool-cases,
  Option-cases,
}
use talk_sip_bridge.Base.Text.{Text, codes, text_eq}
use talk_sip_bridge.Base.Dict.{Dict}
use talk_sip_bridge.Messages.Headers.{header}
use talk_sip_bridge.Messages.Fields.{parse_auth_challenge}
use talk_sip_bridge.Call.{Call, Manager, Effect, call_named}
use talk_sip_bridge.Call.Outgoing.{
  Worker, Response, take_response, reach_deadline, retry_invite_with_auth, retried,
  connect_outbound, refuse, next_attempt, is_relevant, is_refusal, challenge_name,
}
use talk_sip_bridge.Call.Invariant.{managed}
use talk_sip_bridge.Call.Operations.{Env}
use talk_sip_bridge.Call.Transactions.{
  IsCoherent, Fits, give_back-Fits, shared_call, primed_fits, if_Fits,
}

retried-Fits :
    (e : Env) (branch : Text) (m : Manager) (w : Worker) (o : Option (Dict Text))
    → IsCoherent m.call w.attempt
    → Fits w.attempt (retried e.md5hex e.line branch m w o)
unfolding retried next_attempt
retried-Fits e branch m w none h = give_back-Fits m w h
retried-Fits e branch m w (some d) h = (
  (refl, refl, tt),
  refl,
  shared_call w.attempt (next_attempt w.attempt branch) m.call m.sessions refl h,
)

connect-IsCoherent :
    (e : Env) (branch : Text) (n : ℕ) (o : Option Call) (w : Worker) (r : Response)
    → IsCoherent o w.attempt
    → IsCoherent (connect_outbound e.line branch (managed o n) w r).0.call w.attempt
unfolding connect_outbound call_named
connect-IsCoherent e branch n none w r h = h
connect-IsCoherent e branch n (some c) w r h =
    elim (Bool-cases (text_eq c.call_id w.attempt.call_id)) [
      | inl same ↦ rw (IsCoherent, connect_outbound, same) h
      | inr other ↦ rw (IsCoherent, connect_outbound, other) h
    ]

connect-Fits :
    (e : Env) (branch : Text) (m : Manager) (w : Worker) (r : Response)
    → IsCoherent m.call w.attempt
    → Fits w.attempt (connect_outbound e.line branch m w r)
unfolding connect_outbound
connect-Fits e branch m w r h =
    let (a, b) = primed_fits e.line.media_relay_enabled _ w.attempt _ tt refl in
    ((refl, a), b, connect-IsCoherent e branch m.sessions m.call w r h)

refuse-Fits :
    (branch : Text) (m : Manager) (w : Worker) (r : Response)
    → IsCoherent m.call w.attempt
    → Fits w.attempt (refuse branch m w r)
unfolding refuse
refuse-Fits branch m w r h = let (a, b, c) = give_back-Fits m w h in ((refl, a), b, c)

pub deadline-Fits :
    (m : Manager) (w : Worker) → IsCoherent m.call w.attempt → Fits w.attempt (reach_deadline m w)
unfolding reach_deadline
deadline-Fits m w h =
    let (a, b, c) = give_back-Fits m w h in
    elim (Option-cases (call_named m w.attempt.call_id)) [
      | inl gone ↦ rw gone (a, b, c)
      | inr (x, here) ↦ rw here ((refl, a), b, c)
    ]

retry-Fits :
    (e : Env) (branch : Text) (m : Manager) (w : Worker) (r : Response)
    → IsCoherent m.call w.attempt
    → Fits w.attempt (retry_invite_with_auth e.md5hex e.line branch m w r)
unfolding retry_invite_with_auth
retry-Fits e branch m w r h =
    retried-Fits e branch m w (parse_auth_challenge (header r.headers (challenge_name r.code) [])) h

pub take_response-Fits :
    (e : Env) (branch : Text) (m : Manager) (w : Worker) (r : Response)
    → IsCoherent m.call w.attempt
    → Fits w.attempt (take_response e.md5hex e.line branch m w r)
unfolding take_response
take_response-Fits e branch m w r h =
    let same : Manager × Worker × List Effect = (m, w, []) in
    let kept : Fits w.attempt same = (tt, refl, h) in
    let retry = retry_invite_with_auth e.md5hex e.line branch m w r in
    let connect = connect_outbound e.line branch m w r in
    let refusal = refuse branch m w r in
    let late = if is_refusal r.code then refusal else same in
    let final = if text_eq r.code (codes "200") then connect else late in
    let challenged = text_eq r.code (codes "401") || text_eq r.code (codes "407") in
    if_Fits w.attempt (not (is_relevant w.attempt r)) same (if challenged then retry else final)
      kept
      (if_Fits w.attempt challenged retry final (retry-Fits e branch m w r h) (
        if_Fits w.attempt (text_eq r.code (codes "200")) connect late
          (connect-Fits e branch m w r h)
          (if_Fits w.attempt (is_refusal r.code) refusal same (refuse-Fits branch m w r h) kept)))
