-- ===== src/Call/Ending.antt =====
-- How a call ends: `handle_bye`, `handle_cancel` and `hangup` of bridge/sip_call.py.
use talk_sip_bridge.Base.{if◌then◌else◌, Bool, true, false, Option, none, some, List, [], ◌∷◌, ◌++◌}
use talk_sip_bridge.Base.Text.{Text, codes}
use talk_sip_bridge.Base.Str.{find?, after?, before, starts_with, first_of, split_lines}
use talk_sip_bridge.Line.{Line}
use talk_sip_bridge.Messages.Headers.{Headers, header}
use talk_sip_bridge.Messages.Fields.{extract_contact_uri}
use talk_sip_bridge.Requests.{address, uri_or, concat}
use talk_sip_bridge.Call.{
  Addr, Attempt, Call, Status, ringing, connected, Manager, Effect, sent, bye, cancel, call_ended,
  bye_watched, respond, call_named, released_by,
}

-- `_with_tag`
unfoldable pub with_tag : Text → Option Text → Text
with_tag [] tag = []
with_tag (c ∷ cs) none = c ∷ cs
with_tag (c ∷ cs) (some []) = c ∷ cs
with_tag (c ∷ cs) (some (t ∷ ts)) = elim (find? (c ∷ cs) (codes ";tag=")) [
  | none ↦ (c ∷ cs) ++ codes ";tag=" ++ t ∷ ts
  | some at ↦ c ∷ cs
]

-- The part of `handle_bye` and `handle_cancel` under the lock.
unfoldable pub drop_named : Manager → Text → Manager × List Effect
drop_named m call_id = elim (call_named m call_id) [
  | none ↦ (m, [])
  | some c ↦ (record m { call = none }, released_by c)
]

unfoldable pub handle_bye : Manager → Text → Headers → Text → Addr → Manager × List Effect
handle_bye m text h call_id remote_addr =
    let (after, effects) = drop_named m call_id in
    (
      after,
      effects
          ++ respond (codes "200 OK") h remote_addr none
            ∷ call_ended call_id (codes "remote_bye")
            ∷ [],
    )

unfoldable pub handle_cancel : Manager → Text → Headers → Text → Addr → Manager × List Effect
handle_cancel m text h call_id remote_addr =
    let (after, effects) = drop_named m call_id in
    (
      after,
      effects
          ++ respond (codes "200 OK") h remote_addr none
            ∷ call_ended call_id (codes "cancelled")
            ∷ [],
    )

-- An f-string prints a tag that is None as "None".
abbrev shown_tag : Option Text → Text
shown_tag none = codes "None"
shown_tag (some t) = t

-- The BYE of a call that this side placed, on a new branch.
unfoldable pub outbound_bye : Line → Text → Call → Effect
outbound_bye line branch c =
    sent
      (bye
        (uri_or c.remote_contact
          (concat (codes "sip:" ∷ c.number ∷ codes "@" ∷ line.gateway_host ∷ [])))
        c.call_id (concat (address line line.sip_user ∷ codes ";tag=" ∷ c.from_tag ∷ []))
        (concat (address line c.number ∷ codes ";tag=" ∷ shown_tag c.to_tag ∷ [])) branch)
      none

abbrev contact_target : Line → Text → Text
contact_target line [] = codes "sip:" ++ line.gateway_host
contact_target line (c ∷ cs) = extract_contact_uri (c ∷ cs)

-- The BYE of a call that was answered here: our tag goes with From, theirs with To.
unfoldable pub inbound_bye : Line → Text → Call → Effect
inbound_bye line branch c =
    sent
      (bye (contact_target line (header c.headers (codes "contact") [])) c.call_id
        (with_tag (header c.headers (codes "to") []) c.to_tag) (header c.headers (codes "from") [])
        branch)
      (some c.remote_addr)

abbrev pub withdrawal : Option Attempt → List Effect
withdrawal none = []
withdrawal (some a) = sent (cancel a) none ∷ []

abbrev hung_up : Call → Effect
hung_up c = call_ended c.call_id (codes "local_hangup")

-- What goes out for a call of one direction and status.
unfoldable pub farewell : Line → Text → Call → Bool → Status → List Effect
farewell line branch c true ringing =
    respond (codes "603 Decline") c.headers c.remote_addr c.to_tag ∷ hung_up c ∷ []
farewell line branch c true _ = inbound_bye line branch c ∷ bye_watched c.call_id ∷ hung_up c ∷ []
farewell line branch c false connected =
    outbound_bye line branch c ∷ bye_watched c.call_id ∷ hung_up c ∷ []
farewell line branch c false _ = withdrawal c.attempt

unfoldable pub hangup : Line → Text → Manager → Manager × List Effect
hangup line branch m = elim m.call [
  | none ↦ (m, [])
  | some c ↦ (record m { call = none }, released_by c ++ farewell line branch c c.inbound c.status)
]

-- What the thread of `_watch_bye` finds.
pub data ByeAnswer : Type 0 where
  unanswered : ByeAnswer
  acknowledged : ByeAnswer
  bye_refused : ByeAnswer

-- `status.split(" ")[1]` where there are two blanks, else "".
abbrev code_in : Option Text → Text
code_in none = []
code_in (some rest) = elim (after? 32 rest) [ none ↦ [] | some more ↦ before 32 rest ]

unfoldable pub watch_bye : Option Text → ByeAnswer
watch_bye none = unanswered
watch_bye (some resp) =
    if starts_with (code_in (after? 32 (first_of (split_lines resp)))) (codes "2")
    then acknowledged
    else bye_refused
