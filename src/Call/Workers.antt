-- ===== src/Call/Workers.antt =====
-- What an outbound worker leaves behind, and the responses that it drops. Its sends are all taken.
use talk_sip_bridge.Base.{
  ℕ, suc, ◌≡◌, refl, ◌⊎◌, inl, inr, Bool, true, false, not, ◌||◌, Option, none, some, List, [], ◌∷◌,
  ◌++◌, arith, if◌then◌else◌, Bool-cases,
}
use talk_sip_bridge.Base.Text.{Text, codes, text_eq, text_eq_iff}
use talk_sip_bridge.Line.{Line}
use talk_sip_bridge.Messages.Headers.{header}
use talk_sip_bridge.Messages.Fields.{parse_auth_challenge}
use talk_sip_bridge.Call.{
  Rtp, Attempt, Call, connected, Manager, Effect, sent, released, ack, call_named,
}
use talk_sip_bridge.Call.Outgoing.{
  Worker, Response, give_back, take_response, reach_deadline, retry_invite_with_auth, retried,
  connect_outbound, refuse, is_relevant, is_stale, is_refusal, challenge_name,
}
use talk_sip_bridge.Call.Invariant.{managed}
use talk_sip_bridge.Call.Operations.{Env}
use talk_sip_bridge.Call.Release.{has_released}
use talk_sip_bridge.Base.Dict.{Dict}
use talk_sip_bridge.Base.Str.{isdigit}
use talk_sip_bridge.Call.{waiter_closed, raised, failed, timer_started, is_connected}
use talk_sip_bridge.Call.Incoming.{priming}
use talk_sip_bridge.Call.Outgoing.{prepend, answered_cseq}

-- Whether the call of the line, if it is the worker's, is none.
abbrev pub IsLeft : Manager → Worker → List Effect → Type 0
IsLeft m w es = (call_named m w.attempt.call_id ≡ none) × (has_released w.rtp.id es ≡ true)

-- Whether the session is with the call of the line.
abbrev pub Holds : Option Call → Rtp → Type 0
Holds none r = Unit
Holds (some c) r = (c.status ≡ connected) × (c.rtp ≡ some r) × (c.bye_timer ≡ some r.id)

-- Whether some effects report that a call placed here is connected.
unfoldable pub reports_connected : Text → List Effect → Bool
reports_connected i [] = false
reports_connected i (is_connected c false ∷ es) = text_eq i c || reports_connected i es
reports_connected i (_ ∷ es) = reports_connected i es

-- What is true of a worker after a step: it goes on with its session, or it has ended, and either
-- closed the session and freed the line, or reported its call connected and handed the session to
-- it, if the line still has that.
abbrev pub IsSettled : Worker → Manager × Worker × List Effect → Type 0
IsSettled old (m, w, es) =
    ((w.running ≡ old.running) × (w.rtp ≡ old.rtp))
    ⊎ (((w.running ≡ false) × IsLeft m w es)
        ⊎ ((w.running ≡ false)
            × (reports_connected w.attempt.call_id es ≡ true)
            × Holds (call_named m w.attempt.call_id) w.rtp))

give_back_free :
    (i : Text) (m : Manager)
    → call_named (elim (call_named m i) [ none ↦ m | some c ↦ record m { call = none } ]) i ≡ none
unfolding call_named
give_back_free i m = ground arith

released_later :
    (i : ℕ) (es fs : List Effect) → has_released i fs ≡ true → has_released i (es ++ fs) ≡ true
unfolding has_released
released_later i [] fs h = h
released_later i (e ∷ es) fs h = ground (arith, released_later i es fs)

own_release : (i : ℕ) (c : Text) → has_released i (waiter_closed c ∷ released i ∷ []) ≡ true
unfolding has_released
own_release i c = ground arith

given_back :
    (m : Manager) (w : Worker) (es : List Effect) → IsSettled w (prepend es (give_back m w))
unfolding give_back
given_back m w es = inr (
    inl (
      refl,
      (
        give_back_free w.attempt.call_id m,
        released_later w.rtp.id es _ (own_release w.rtp.id w.attempt.call_id),
      ),
    ))

connected-Holds :
    (line : Line) (branch : Text) (n : ℕ) (o : Option Call) (w : Worker) (r : Response)
    → Holds
        (call_named (connect_outbound line branch (managed o n) w r).0 w.attempt.call_id)
        (connect_outbound line branch (managed o n) w r).1.rtp
unfolding connect_outbound call_named
connected-Holds line branch n none w r = tt
connected-Holds line branch n (some c) w r =
    elim (Bool-cases (text_eq c.call_id w.attempt.call_id)) [
      | inl same ↦ rw (Holds, connect_outbound, call_named, same, same) (refl, refl, refl)
      | inr other ↦ rw (Holds, connect_outbound, call_named, other, other) tt
    ]

retried-IsSettled :
    (e : Env) (branch : Text) (m : Manager) (w : Worker) (o : Option (Dict Text))
    → IsSettled w (retried e.md5hex e.line branch m w o)
unfolding retried
retried-IsSettled e branch m w none = given_back m w (raised ∷ [])
retried-IsSettled e branch m w (some d) = inl (refl, refl)

if_IsSettled :
    (w : Worker) (b : Bool) (x y : Manager × Worker × List Effect)
    → IsSettled w x
    → IsSettled w y
    → IsSettled w (if b then x else y)
if_IsSettled w true x y h k = h
if_IsSettled w false x y h k = k

retry-IsSettled :
    (e : Env) (branch : Text) (m : Manager) (w : Worker) (r : Response)
    → IsSettled w (retry_invite_with_auth e.md5hex e.line branch m w r)
unfolding retry_invite_with_auth
retry-IsSettled e branch m w r =
    retried-IsSettled e branch m w
      (parse_auth_challenge (header r.headers (challenge_name r.code) []))

refuse-IsSettled :
    (branch : Text) (m : Manager) (w : Worker) (r : Response) → IsSettled w (refuse branch m w r)
unfolding refuse
refuse-IsSettled branch m w r = given_back m w (
    sent (ack w.attempt branch (header r.headers (codes "to") []) none) none
    ∷ failed w.attempt.call_id r.status_line
    ∷ [])

reported_later :
    (i : Text) (r : Rtp) (line : Line) (es : List Effect)
    → reports_connected i es ≡ true
    → reports_connected i (priming line r ++ es) ≡ true
unfolding reports_connected
reported_later i r line es h = ground (arith, h)

own_report :
    (i : Text) (t : ℕ)
    → reports_connected i (timer_started t ∷ is_connected i false ∷ waiter_closed i ∷ []) ≡ true
unfolding reports_connected
own_report i t = ground (arith, text_eq_iff i i)

connect_reports :
    (line : Line) (branch : Text) (m : Manager) (w : Worker) (r : Response)
    → reports_connected w.attempt.call_id (connect_outbound line branch m w r).2 ≡ true
unfolding connect_outbound reports_connected
connect_reports line branch m w r =
    let rtp = (connect_outbound line branch m w r).1.rtp in
    reported_later w.attempt.call_id rtp line _ (own_report w.attempt.call_id rtp.id)

connect-IsSettled :
    (line : Line) (branch : Text) (m : Manager) (w : Worker) (r : Response)
    → IsSettled w (connect_outbound line branch m w r)
unfolding connect_outbound
connect-IsSettled line branch m w r = inr (
    inr
      (refl, connect_reports line branch m w r, connected-Holds line branch m.sessions m.call w r))

response-IsSettled :
    (e : Env) (branch : Text) (m : Manager) (w : Worker) (r : Response)
    → IsSettled w (take_response e.md5hex e.line branch m w r)
unfolding take_response
response-IsSettled e branch m w r =
    let same : Manager × Worker × List Effect = (m, w, []) in
    let kept : IsSettled w same = inl (refl, refl) in
    let retry = retry_invite_with_auth e.md5hex e.line branch m w r in
    let connect = connect_outbound e.line branch m w r in
    let refusal = refuse branch m w r in
    let late = if is_refusal r.code then refusal else same in
    let final = if text_eq r.code (codes "200") then connect else late in
    let challenged = text_eq r.code (codes "401") || text_eq r.code (codes "407") in
    if_IsSettled w (not (is_relevant w.attempt r)) same (if challenged then retry else final) kept (
      if_IsSettled w challenged retry final (retry-IsSettled e branch m w r) (
        if_IsSettled w (text_eq r.code (codes "200")) connect late
          (connect-IsSettled e.line branch m w r)
          (if_IsSettled w (is_refusal r.code) refusal same (refuse-IsSettled branch m w r) kept)))

-- Whatever a running worker receives, and when its deadline passes: it either goes on with its
-- session, or it has ended. Then it has closed the session and the line no longer has the call; or
-- else it has reported the call connected, and, if the line still has that call, the call is
-- connected, with this session and the timer started for it.
pub worker_settles :
    (e : Env) (branch : Text) (m : Manager) (w : Worker) (r : Response)
    → IsSettled w (take_response e.md5hex e.line branch m w r) × IsSettled w (reach_deadline m w)
unfolding reach_deadline
worker_settles e branch m w r = (response-IsSettled e branch m w r, given_back m w _)

outdated :
    (a b : Attempt) (r : Response)
    → isdigit (answered_cseq r) ≡ true
    → is_relevant a r ≡ true
    → b.cseq ≡ suc a.cseq
    → is_relevant b r ≡ false
unfolding is_relevant is_stale
outdated a b r d h k = ground arith

-- Once a challenge has been answered by a new INVITE, the same challenge received again, with the
-- CSeq of the request it answers, changes nothing and sends nothing.
pub repeated_challenge_ignored :
    (e : Env) (branch again : Text) (m : Manager) (w : Worker) (r : Response)
    → isdigit (answered_cseq r) ≡ true
    → let (m1, w1, es) = take_response e.md5hex e.line branch m w r in
      w1.attempt.cseq ≡ suc w.attempt.cseq
      → is_relevant w.attempt r ≡ true
      → take_response e.md5hex e.line again m1 w1 r ≡ (m1, w1, [])
unfolding take_response
repeated_challenge_ignored e branch again m w r d k h =
    let w1 = (take_response e.md5hex e.line branch m w r).1 in
    rw (outdated w.attempt w1.attempt r d h k) refl
