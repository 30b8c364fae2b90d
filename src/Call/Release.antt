-- ===== src/Call/Release.antt =====
-- What the end of a call releases, and that a line has one call at a time.
use talk_sip_bridge.Base.{
  ℕ, ◌≡◌, refl, ◌≢◌, inl, inr, Bool, true, false, ◌&&◌, ◌||◌, Option, none, some, List, [], ◌∷◌,
  ◌++◌, arith, ◌==◌, Bool-cases,
}
use talk_sip_bridge.Base.Text.{Text, text_eq}
use talk_sip_bridge.Line.{Line}
use talk_sip_bridge.Messages.Headers.{Headers}
use talk_sip_bridge.Sdp.{
  extract_sip_body, parse_sdp_media_address, parse_offered_payload_types, choose_payload_type,
}
use talk_sip_bridge.Call.{
  Addr, Rtp, Call, Manager, Effect, released, timer_cancelled, call_named, cancelled_timer,
  released_rtp,
}
use talk_sip_bridge.Call.Incoming.{
  reanswer, handle_invite, handle_info, handle_options, answer, decline, answer_with, accepted,
  refused_call, broken_off, taken, Network, all_sent, answered_call, is_ringing, is_up,
}
use talk_sip_bridge.Call.Ending.{drop_named, handle_bye, handle_cancel, hangup}
use talk_sip_bridge.Call.Outgoing.{dial}
use talk_sip_bridge.Call.Invariant.{IsValidCall, IsValid, managed, around}
use talk_sip_bridge.Call.Operations.{
  Env, Operation, invite_op, info_op, bye_op, cancel_op, options_op, answer_op, decline_op,
  hangup_op, dial_op, operate,
}

unfoldable pub has_released : ℕ → List Effect → Bool
has_released id [] = false
has_released id (released r ∷ es) = (r == id) || has_released id es
has_released id (_ ∷ es) = has_released id es

unfoldable pub has_cancelled : ℕ → List Effect → Bool
has_cancelled id [] = false
has_cancelled id (timer_cancelled r ∷ es) = (r == id) || has_cancelled id es
has_cancelled id (_ ∷ es) = has_cancelled id es

abbrev pub IsReleased : Option Rtp → List Effect → Type 0
IsReleased none es = Unit
IsReleased (some r) es = has_released r.id es ≡ true

abbrev pub IsCancelled : Option ℕ → List Effect → Type 0
IsCancelled none es = Unit
IsCancelled (some t) es = has_cancelled t es ≡ true

abbrev pub IsGone : Call → List Effect → Type 0
IsGone c es = IsReleased c.rtp es × IsCancelled c.bye_timer es

IsReleased-first :
    (t : Option ℕ) (r : Option Rtp) (es : List Effect)
    → let all = (cancelled_timer t ++ released_rtp r) ++ es in IsReleased r all × IsCancelled t all
unfolding has_released has_cancelled
IsReleased-first none none es = (tt, tt)
IsReleased-first (some t) none es = ground arith
IsReleased-first none (some r) es = ground arith
IsReleased-first (some t) (some r) es = ground arith

silent-IsGone :
    (n : ℕ) (c : Call) (es : List Effect)
    → is_ringing c.status ≡ true
    → IsValidCall n (some c)
    → IsGone c es
silent-IsGone n c es h v = ground arith

reanswer_keeps :
    (line : Line) (m : Manager) (c : Call) (h : Headers) (a : Addr) (media : Option Addr)
    (pts : List ℕ)
    → m.call ≡ some c
    → (reanswer line m c h a media pts).0.call ≢ none
unfolding reanswer
reanswer_keeps line m c h a media pts e k = ground arith

invite_keeps :
    (line : Line) (tag : Text) (n : ℕ) (c : Call) (text : Text) (h : Headers) (i : Text) (a : Addr)
    → (handle_invite line tag (managed (some c) n) text h i a).0.call ≢ none
unfolding handle_invite
invite_keeps line tag n c text h i a =
    let body = extract_sip_body text in
    let kept =
      reanswer_keeps line (managed (some c) n) c h a (parse_sdp_media_address body)
        (parse_offered_payload_types body) refl in
    elim (Bool-cases (text_eq c.call_id i && is_up c.status)) [
      | inl same ↦ rw same kept
      | inr other ↦ rw other (λ k. cc)
    ]

named-IsGone :
    (n : ℕ) (c : Call) (i : Text) (es : List Effect)
    → let (after, fs) = drop_named (managed (some c) n) i in after.call ≡ none → IsGone c (fs ++ es)
unfolding drop_named call_named
named-IsGone n c i es = elim (Bool-cases (text_eq c.call_id i)) [
  | inl same ↦ rw (drop_named, call_named, same) (λ k. IsReleased-first c.bye_timer c.rtp es)
  | inr other ↦ rw (drop_named, call_named, other) (λ k. cc)
]

ringing-IsGone :
    (n : ℕ) (c : Call) (line : Line) (net : Network)
    → IsValidCall n (some c)
    → ((answer line net (managed (some c) n)).0.call ≡ none
        → IsGone c (answer line net (managed (some c) n)).2)
      × ((decline (managed (some c) n)).0.call ≡ none → IsGone c (decline (managed (some c) n)).2)
unfolding answer decline
ringing-IsGone n c line net v = elim (Bool-cases (is_ringing c.status)) [
  | inl up ↦ (λ k. silent-IsGone n c _ up v, λ k. silent-IsGone n c _ up v)
  | inr down ↦ rw down (λ k. cc, λ k. cc)
]

gone :
    (e : Env) (n : ℕ) (c : Call) (o : Operation)
    → IsValidCall n (some c)
    → (operate e (managed (some c) n) o).0.call ≡ none
    → IsGone c (operate e (managed (some c) n) o).1
unfolding operate hangup handle_bye handle_cancel handle_info handle_options dial
gone e n c (invite_op tag r) v k =
    absurd (invite_keeps e.line tag n c r.text r.headers r.call_id r.remote_addr k)
gone e n c (info_op r) v k = cc
gone e n c (options_op r) v k = cc
gone e n c (bye_op r) v k = named-IsGone n c r.call_id _ k
gone e n c (cancel_op r) v k = named-IsGone n c r.call_id _ k
gone e n c (answer_op net) v k = (ringing-IsGone n c e.line net v).0 k
gone e n c decline_op v k = (ringing-IsGone n c e.line all_sent v).1 k
gone e n c (hangup_op branch) v k = IsReleased-first c.bye_timer c.rtp _
gone e n c (dial_op i t b number) v k = ground arith

-- Whatever operation leaves a valid line without the call that it had, it has closed the media
-- session of that call and cancelled its timer.
pub ended_call_is_released :
    (e : Env) (m : Manager) (o : Operation) (c : Call)
    → IsValid m
    → m.call ≡ some c
    → (operate e m o).0.call ≡ none
    → IsGone c (operate e m o).1
ended_call_is_released e m o c v h k =
    around (λ m. IsValid m → (operate e m o).0.call ≡ none → IsGone c (operate e m o).1) m c h
      (gone e m.sessions c o) v k

-- The call that a line has is `none` or one of this call id.
abbrev pub IsSameCall : Text → Option Call → Type 0
IsSameCall i none = Unit
IsSameCall i (some c) = c.call_id ≡ i

reanswer_same :
    (line : Line) (m : Manager) (c : Call) (h : Headers) (a : Addr) (media : Option Addr)
    (pts : List ℕ)
    → m.call ≡ some c
    → IsSameCall c.call_id (reanswer line m c h a media pts).0.call
unfolding reanswer
reanswer_same line m c h a media pts e = ground arith

answer_same :
    (line : Line) (net : Network) (m : Manager) (c : Call) (o : Option ℕ)
    → m.call ≡ some c
    → IsSameCall c.call_id (answer_with line net m c o).0.call
unfolding answer_with accepted refused_call broken_off taken answered_call
answer_same line net m c o e = ground arith

same :
    (e : Env) (n : ℕ) (c : Call) (o : Operation)
    → IsSameCall c.call_id (operate e (managed (some c) n) o).0.call
unfolding operate hangup handle_bye handle_cancel handle_info handle_options dial drop_named
    call_named decline answer handle_invite
same e n c (invite_op tag r) =
    let body = extract_sip_body r.text in
    ground (
      arith,
      reanswer_same e.line (managed (some c) n) c r.headers r.remote_addr
          (parse_sdp_media_address body) (parse_offered_payload_types body) refl,
    )
same e n c (info_op r) = refl
same e n c (options_op r) = refl
same e n c (bye_op r) = ground arith
same e n c (cancel_op r) = ground arith
same e n c (answer_op net) =
    ground (
      arith,
      answer_same e.line net (managed (some c) n) c (choose_payload_type c.offered_pts) refl,
    )
same e n c decline_op = ground arith
same e n c (hangup_op branch) = tt
same e n c (dial_op i t b number) = ground arith

-- While a line has a call, no operation puts another in its place: afterwards the line has this
-- call or none.
pub one_call_at_a_time :
    (e : Env) (m : Manager) (o : Operation) (c : Call)
    → m.call ≡ some c
    → IsSameCall c.call_id (operate e m o).0.call
one_call_at_a_time e m o c h =
    around (λ m. IsSameCall c.call_id (operate e m o).0.call) m c h (same e m.sessions c o)
