-- ===== src/Call/Invariant.antt =====
-- What holds of a call manager between two operations.
use talk_sip_bridge.Base.{
  ℕ, suc, ◌<◌, ◌≡◌, refl, sym, inl, inr, Bool, true, false, not, ◌&&◌, ◌||◌, Option, none, some,
  List, arith, Bool-cases, Option-cases,
}
use talk_sip_bridge.Base.Text.{Text, text_eq}
use mathlib.Core.Path.{subst}
use talk_sip_bridge.Line.{Line}
use talk_sip_bridge.Messages.Headers.{Headers}
use talk_sip_bridge.Sdp.{
  extract_sip_body, parse_sdp_media_address, parse_offered_payload_types, num_elem, supported,
  choose_payload_type, answer_sdp,
}
use talk_sip_bridge.Sdp.Choice.{IsFit, choose_payload_type-IsFit, answer_sdp_total}
use talk_sip_bridge.Call.{
  Addr, Rtp, Call, Status, ringing, dialing, connected, Manager, call_named, new_rtp_session,
}
use talk_sip_bridge.Call.Incoming.{
  reanswer, ringing_call, handle_invite, handle_info, handle_options, answer, decline, answer_with,
  accepted, refused_call, broken_off, taken, answered_call, is_ringing, is_up, Network, all_sent,
  response_raises, priming_raises, chosen_session,
}
use talk_sip_bridge.Call.Ending.{drop_named, handle_bye, handle_cancel, hangup}
use talk_sip_bridge.Call.Outgoing.{dial, dialing_call}
use talk_sip_bridge.Call.Operations.{
  Env, Request, Operation, invite_op, info_op, bye_op, cancel_op, options_op, answer_op, decline_op,
  hangup_op, dial_op, operate,
}

-- A session made by the manager, in a codec of the bridge, and the timer that was started for it,
-- if one was.
abbrev pub IsMedia : ℕ → Option Rtp → Option ℕ → Type 0
IsMedia n none t = ⊥
IsMedia n (some r) none = (r.id < n) × (num_elem r.payload_type supported ≡ true)
IsMedia n (some r) (some t) = (t ≡ r.id) × (r.id < n) × (num_elem r.payload_type supported ≡ true)

abbrev pub IsSilent : Option Rtp → Option ℕ → Type 0
IsSilent none none = Unit
IsSilent (some r) t = ⊥
IsSilent none (some t) = ⊥

-- Ringing is for callers, dialing for calls placed here, and a call has media exactly once it is
-- connected, and a timer only then.
abbrev pub IsSound : ℕ → Bool → Status → Option Rtp → Option ℕ → Type 0
IsSound n inbound connected r t = IsMedia n r t
IsSound n true ringing r t = IsSilent r t
IsSound n false ringing r t = ⊥
IsSound n true dialing r t = ⊥
IsSound n false dialing r t = IsSilent r t

abbrev pub IsValidCall : ℕ → Option Call → Type 0
IsValidCall n none = Unit
IsValidCall n (some c) = IsSound n c.inbound c.status c.rtp c.bye_timer

abbrev pub IsValid : Manager → Type 0
IsValid m = IsValidCall m.sessions m.call

abbrev pub managed : Option Call → ℕ → Manager
managed o n = record { call = o; sessions = n }

-- To show something of a manager with a call is to show it of one built around that call.
pub around {ℓ} :
    (P : Manager → Type ℓ) (m : Manager) (c : Call)
    → m.call ≡ some c
    → P (managed (some c) m.sessions)
    → P m
around P m c h p = subst (λ o. P (managed o m.sessions)) (sym h) p

reanswer-IsValid :
    (line : Line) (m : Manager) (c : Call) (h : Headers) (a : Addr) (media : Option Addr)
    (pts : List ℕ)
    → IsValidCall m.sessions (some c)
    → m.call ≡ some c
    → IsValid (reanswer line m c h a media pts).0
unfolding reanswer
reanswer-IsValid line m c h a media pts v e = ground arith

invited :
    (line : Line) (tag : Text) (n : ℕ) (o : Option Call) (r : Request)
    → IsValidCall n o
    → IsValid (handle_invite line tag (managed o n) r.text r.headers r.call_id r.remote_addr).0
unfolding handle_invite ringing_call
invited line tag n none r v = tt
invited line tag n (some c) r v =
    let rest =
      reanswer-IsValid line (managed (some c) n) c r.headers r.remote_addr
        (parse_sdp_media_address (extract_sip_body r.text))
        (parse_offered_payload_types (extract_sip_body r.text)) v refl in
    elim (Bool-cases (text_eq c.call_id r.call_id && is_up c.status)) [
      | inl same ↦ rw same rest
      | inr other ↦ rw other v
    ]

untimed-IsMedia :
    (n : ℕ) (r : Rtp) (t : Option ℕ)
    → t ≡ none
    → r.id < n
    → num_elem r.payload_type supported ≡ true
    → IsMedia n (some r) t
untimed-IsMedia n r t e l s = rw e (l, s)

accepted-IsValid :
    (line : Line) (net : Network) (m : Manager) (c : Call) (r : Rtp) (o : Option Text)
    → r.id < m.sessions
    → num_elem r.payload_type supported ≡ true
    → c.bye_timer ≡ none
    → IsValid (accepted line net m c r o).0
unfolding accepted broken_off taken answered_call
accepted-IsValid line net m c r none l s t = untimed-IsMedia m.sessions r c.bye_timer t l s
accepted-IsValid line all_sent m c r (some sdp) l s t = (refl, l, s)
accepted-IsValid line response_raises m c r (some sdp) l s t =
    untimed-IsMedia m.sessions r c.bye_timer t l s
accepted-IsValid line priming_raises m c r (some sdp) l s t =
    let untimed = untimed-IsMedia m.sessions r c.bye_timer t l s in ground arith

answer_with-IsValid :
    (line : Line) (net : Network) (m : Manager) (c : Call) (o : Option ℕ)
    → IsFit c.offered_pts o
    → IsValid m
    → c.bye_timer ≡ none
    → IsValid (answer_with line net m c o).0
unfolding answer_with refused_call new_rtp_session
answer_with-IsValid line response_raises m c none f v t = v
answer_with-IsValid line all_sent m c none f v t = tt
answer_with-IsValid line priming_raises m c none f v t = tt
answer_with-IsValid line net m c (some pt) f v t =
    let sdp = answer_sdp line line.local_rtp_port pt c.dtmf_pt in
    let r = chosen_session line m c pt in
    accepted-IsValid line net (record m { sessions = suc m.sessions }) c r sdp (omega arith) f.0 t

ringing_untimed :
    (n : ℕ) (c : Call) → is_ringing c.status ≡ true → IsValidCall n (some c) → c.bye_timer ≡ none
ringing_untimed n c up v = ground arith

answered :
    (line : Line) (net : Network) (n : ℕ) (o : Option Call)
    → IsValidCall n o
    → IsValid (answer line net (managed o n)).0
unfolding answer
answered line net n none v = tt
answered line net n (some c) v = elim (Bool-cases (is_ringing c.status)) [
  | inl up ↦ rw up (
      answer_with-IsValid line net (managed (some c) n) c (choose_payload_type c.offered_pts)
        (choose_payload_type-IsFit c.offered_pts) v (ringing_untimed n c up v))
  | inr down ↦ rw down v
]

operated : (e : Env) (m : Manager) (o : Operation) → IsValid m → IsValid (operate e m o).0
unfolding operate hangup handle_bye handle_cancel drop_named call_named handle_info handle_options
    decline dial dialing_call
operated e m (invite_op tag r) v = invited e.line tag m.sessions m.call r v
operated e m (answer_op net) v = answered e.line net m.sessions m.call v
operated e m (info_op r) v = v
operated e m (options_op r) v = v
operated e m (bye_op r) v = ground arith
operated e m (cancel_op r) v = ground arith
operated e m decline_op v = ground arith
operated e m (hangup_op branch) v = ground arith
operated e m (dial_op i t b n) v = ground arith

abbrev is_none {ℓ} : {A : Type ℓ} → Option A → Bool
is_none none = true
is_none (some x) = false

-- Connected, without the timer of the maximal duration.
abbrev pub is_untimed : Option Call → Bool
is_untimed none = false
is_untimed (some c) = is_up c.status && is_none c.bye_timer

-- An answer that the network cuts short.
abbrev pub is_cut_short : Operation → Bool
is_cut_short (answer_op response_raises) = true
is_cut_short (answer_op priming_raises) = true
is_cut_short _ = false

abbrev IsTimed : Option Call → Option Call → Bool → Type 0
IsTimed before after cut = (not (is_untimed after) || (is_untimed before || cut)) ≡ true

reanswer-IsTimed :
    (line : Line) (m : Manager) (c : Call) (h : Headers) (a : Addr) (media : Option Addr)
    (pts : List ℕ)
    → m.call ≡ some c
    → IsTimed m.call (reanswer line m c h a media pts).0.call false
unfolding reanswer
reanswer-IsTimed line m c h a media pts e = ground arith

answer-IsTimed :
    (line : Line) (n : ℕ) (c : Call) (o : Option ℕ)
    → IsFit c.offered_pts o
    → IsTimed (some c) (answer_with line all_sent (managed (some c) n) c o).0.call false
unfolding answer_with refused_call accepted taken answered_call
answer-IsTimed line n c none f = refl
answer-IsTimed line n c (some pt) f =
    elim (Option-cases (answer_sdp line line.local_rtp_port pt c.dtmf_pt)) [
      | inl e ↦ absurd (answer_sdp_total line line.local_rtp_port pt c.dtmf_pt f.0 e)
      | inr (sdp, e) ↦ rw e refl
    ]

operated-IsTimed :
    (e : Env) (n : ℕ) (c : Option Call) (o : Operation)
    → IsTimed c (operate e (managed c n) o).0.call (is_cut_short o)
unfolding operate hangup handle_bye handle_cancel drop_named call_named handle_info handle_options
    decline dial dialing_call handle_invite ringing_call answer
operated-IsTimed e n none (invite_op tag r) = refl
operated-IsTimed e n (some c) (invite_op tag r) =
    let body = extract_sip_body r.text in
    let kept =
      reanswer-IsTimed e.line (managed (some c) n) c r.headers r.remote_addr
        (parse_sdp_media_address body) (parse_offered_payload_types body) refl in
    ground (arith, kept)
operated-IsTimed e n none (answer_op net) = refl
operated-IsTimed e n (some c) (answer_op all_sent) =
    let fit = choose_payload_type-IsFit c.offered_pts in
    ground (arith, answer-IsTimed e.line n c (choose_payload_type c.offered_pts) fit)
operated-IsTimed e n (some c) (answer_op response_raises) = ground arith
operated-IsTimed e n (some c) (answer_op priming_raises) = ground arith
operated-IsTimed e n c (info_op r) = ground arith
operated-IsTimed e n c (options_op r) = ground arith
operated-IsTimed e n c (bye_op r) = ground arith
operated-IsTimed e n c (cancel_op r) = ground arith
operated-IsTimed e n c decline_op = ground arith
operated-IsTimed e n c (hangup_op branch) = ground arith
operated-IsTimed e n c (dial_op i t b k) = ground arith

-- Every operation keeps the invariant: a call has a media session of this manager, in a codec of
-- the bridge, exactly while it is connected, and a timer only then, the one of that session; a call
-- that rings came in, and one that is dialing went out. And it leaves a connected call without a
-- timer only where that had none before, or where it is an answer whose 200 OK, or whose packet that
-- primes the relay, could not be sent.
pub operate-IsValid :
    (e : Env) (m : Manager) (o : Operation)
    → IsValid m
    → let after = (operate e m o).0 in
      IsValid after
      × ((not (is_untimed after.call) || (is_untimed m.call || is_cut_short o)) ≡ true)
operate-IsValid e m o v = (operated e m o v, operated-IsTimed e m.sessions m.call o)
