-- ===== src/Call/Goodbyes.antt =====
-- What goes out when a call ends here, and how requests are replied to.
use talk_sip_bridge.Base.{
  ℕ, ◌≡◌, refl, Bool, true, false, Option, none, some, List, [], ◌∷◌, ◌++◌, arith,
}
use talk_sip_bridge.Base.Text.{Text, codes}
use talk_sip_bridge.Line.{Line}
use talk_sip_bridge.Messages.Headers.{Headers}
use talk_sip_bridge.Call.{
  Addr, Attempt, Call, Status, ringing, dialing, connected, Manager, Effect, sent, response, cancel,
  bye, released_by,
}
use talk_sip_bridge.Call.Ending.{hangup, farewell, inbound_bye, outbound_bye}
use talk_sip_bridge.Call.Invariant.{IsSound, IsValid, around}

-- How this side ends a call.
pub data Goodbye : Type 0 where
  by_bye : Text → Goodbye  -- with its Call-ID
  by_response : Text → Headers → Option Text → Option Addr → Goodbye  -- its status, to whom
  by_cancel : Attempt → Goodbye

unfoldable pub goodbyes : List Effect → List Goodbye
goodbyes [] = []
goodbyes (sent (bye uri call_id from_header to_header branch) a ∷ es) = by_bye call_id ∷ goodbyes es
goodbyes (sent (cancel t) a ∷ es) = by_cancel t ∷ goodbyes es
goodbyes (sent (response s h x b t) a ∷ es) = by_response s h t a ∷ goodbyes es
goodbyes (_ ∷ es) = goodbyes es

abbrev pub withdrawn_by : Option Attempt → List Goodbye
withdrawn_by none = []
withdrawn_by (some a) = by_cancel a ∷ []

abbrev pub due : Call → Status → List Goodbye
due c ringing = by_response (codes "603 Decline") c.headers c.to_tag (some c.remote_addr) ∷ []
due c dialing = withdrawn_by c.attempt
due c connected = by_bye c.call_id ∷ []

farewell-due :
    (line : Line) (branch : Text) (c : Call) (inbound : Bool) (status : Status) (n : ℕ)
    → IsSound n inbound status c.rtp c.bye_timer
    → goodbyes (released_by c ++ farewell line branch c inbound status) ≡ due c status
unfolding goodbyes farewell inbound_bye outbound_bye
farewell-due line branch c true connected n v = ground arith
farewell-due line branch c false connected n v = ground arith
farewell-due line branch c true ringing n v = ground arith
farewell-due line branch c false dialing n v = ground arith
farewell-due line branch c false ringing n v = elim v [ ]
farewell-due line branch c true dialing n v = elim v [ ]

-- Hanging up a valid line ends its call by the one message that fits: a connected call by a BYE
-- with its Call-ID, a caller who still rings by a 603 Decline with the headers of the INVITE, the
-- tag of the call, and to the sender of the INVITE, a call that is still dialing by the CANCEL of
-- its attempt, which is left out where the worker has not made one yet; then the line is free.
pub hangup_says_goodbye :
    (line : Line) (branch : Text) (m : Manager) (c : Call)
    → IsValid m
    → m.call ≡ some c
    → ((hangup line branch m).0.call ≡ none) × (goodbyes (hangup line branch m).1 ≡ due c c.status)
unfolding hangup
hangup_says_goodbye line branch m c v h =
    around
      (λ m.
        IsValid m
        → ((hangup line branch m).0.call ≡ none)
          × (goodbyes (hangup line branch m).1 ≡ due c c.status))
      m c h (λ v. (refl, farewell-due line branch c c.inbound c.status m.sessions v)) v
