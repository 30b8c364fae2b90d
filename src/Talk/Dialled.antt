-- ===== src/Talk/Dialled.antt =====
-- What becomes of a request to call a number.
use talk_sip_bridge.Base.{
  ◌≡◌, refl, sym, ap, ◌∙◌, ◌⊎◌, inl, inr, Bool, true, false, Option, none, some, List, [], ◌∷◌,
  if◌then◌else◌, Bool-cases, Option-cases,
}
use mathlib.Core.Path.{subst}
use talk_sip_bridge.Base.Text.{Text, codes, text_eq, text_eq_iff}
use talk_sip_bridge.Base.Dict.{get-put}
use talk_sip_bridge.Line.{Line}
use talk_sip_bridge.Messages.Fields.{valid_number}
use talk_sip_bridge.Call.{Manager, Effect, worker_started}
use talk_sip_bridge.Call.Outgoing.{
  DialResult, rejected, not_allowed, busy, started, dial, dialing_call, allowed, new_attempt,
  dial_target_of,
}
use talk_sip_bridge.Talk.{set_call}
use talk_sip_bridge.Talk.Messages.{Members, dialout_error, dialout_status}
use talk_sip_bridge.Talk.Dialling.{
  DialoutRequest, Dialler, Sides, Handled, stripped, reply, dialled, requested, IsAccepted,
  IsRefused, placed,
}

abbrev pub is_refusal : DialResult → Bool
is_refusal (started call_id) = false
is_refusal _ = true

module _ (fullmatch : Text → Text → Bool) (line : Line) (call_id from_tag branch : Text)
    (m : Manager) (number : Text) where
  -- The call manager refuses and stays as it is.
  abbrev Refuses : Type 0
  Refuses =
      (result : DialResult) × (is_refusal result ≡ true)
      × (dial fullmatch line call_id from_tag branch m number ≡ (m, result, []))

  -- Or it was free, and has the call now.
  abbrev Takes : Type 0
  Takes =
      (es : List Effect) × (m.call ≡ none)
      × (dial fullmatch line call_id from_tag branch m number
          ≡ (record m { call = some (dialing_call call_id from_tag number) }, started call_id, es))

  abbrev seen : Option talk_sip_bridge.Call.Call → Manager × DialResult × List Effect
  seen o = (record m { call = o }, busy, [])

  dial_or_refuse : Refuses ⊎ Takes
  unfolding dial
  dial_or_refuse = elim (Bool-cases (valid_number number)) [
    | inr bad ↦ inl (rejected, refl, rw (dial, bad) refl)
    | inl good ↦ elim (Bool-cases (allowed fullmatch line.dialout_number_allowlist number)) [
      | inr barred ↦ inl (not_allowed, refl, rw (dial, good, barred) refl)
      | inl listed ↦ elim (Option-cases m.call) [
        | inl free ↦ inr (
          worker_started (new_attempt line (dial_target_of line number) call_id from_tag branch)
              ∷ [],
          free,
          rw (dial, good, listed, free) refl,
        )
        | inr (c, taken) ↦ inl (busy, refl, rw (dial, good, listed, taken) (ap seen taken))
      ]
    ]
  ]

-- A request that the call manager refused.
abbrev not_placed : Dialler → Sides → DialoutRequest → DialResult → Handled
not_placed d s r result = record {
  sides = s;
  effects = [];
  replies =
      reply s.dialout_connected
        (dialout_error r.roomid (d.error_text result) r.id (codes "call_failed"));
  acts = [];
}

module _ (d : Dialler) (s : Sides) (r : DialoutRequest)
    (connected : s.dialout_connected ≡ true) where
  reply_goes_out : (message : Members) → reply s.dialout_connected message ≡ message ∷ []
  unfolding reply
  reply_goes_out message = ap (λ b. if b then message ∷ [] else []) connected

  not_placed-IsRefused : (result : DialResult) → IsRefused d s r (not_placed d s r result)
  not_placed-IsRefused result = record {
    reply_refuses = (
      result,
      reply_goes_out (dialout_error r.roomid (d.error_text result) r.id (codes "call_failed")),
    );
    unchanged = refl;
    quiet = (refl, refl);
  }

  refusal-IsRefused :
      (number : Text) (result : DialResult)
      → is_refusal result ≡ true
      → IsRefused d s r (dialled d s r number (s.manager, result, []))
  refusal-IsRefused number rejected e = not_placed-IsRefused rejected
  refusal-IsRefused number not_allowed e = not_placed-IsRefused not_allowed
  refusal-IsRefused number busy e = not_placed-IsRefused busy
  refusal-IsRefused number (started call_id) e = cc

  started-IsAccepted :
      (es : List Effect)
      → s.manager.call ≡ none
      → let number = stripped d.strip_prefix r.number in
        IsAccepted d s r (
          dialled d s r number (
            record s.manager { call = some (dialing_call d.call_id d.from_tag number) },
            started d.call_id,
            es,
          ))
  unfolding set_call dialing_call
  started-IsAccepted es free =
      let itself : text_eq d.call_id d.call_id ≡ true = (text_eq_iff d.call_id d.call_id).1 refl in
      let c = placed d.call_id (stripped d.strip_prefix r.number) r in
      record {
        reply_accepts = reply_goes_out (dialout_status r.roomid d.call_id (codes "accepted") r.id);
        talk_side = get-put d.call_id d.call_id c s.client.call_sessions ∙ rw itself refl;
        sip_side = refl;
        was_free = free;
      }

-- On a dialout connection, every request to call a number gets exactly one reply: an "accepted" with
-- the id of a call that is on both sides of the line from then on, which was free; or an error,
-- and then neither side changes and nothing else is done.
pub request_is_answered :
    (d : Dialler) (s : Sides) (r : DialoutRequest)
    → s.dialout_connected ≡ true
    → IsAccepted d s r (requested d s r) ⊎ IsRefused d s r (requested d s r)
unfolding requested
request_is_answered d s r connected =
    let number = stripped d.strip_prefix r.number in
    let outcome : Manager × DialResult × List Effect → Handled = dialled d s r number in
    elim (dial_or_refuse d.fullmatch d.line d.call_id d.from_tag d.branch s.manager number) [
      | inl (result, refuses, e) ↦ inr (
          subst (IsRefused d s r) (ap outcome (sym e))
            (refusal-IsRefused d s r connected number result refuses))
      | inr (es, free, e) ↦ inl (
          subst (IsAccepted d s r) (ap outcome (sym e))
            (started-IsAccepted d s r connected es free))
    ]
