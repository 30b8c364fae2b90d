-- ===== src/Talk/Refusals.antt =====
-- What comes back of the id of an answer.
use talk_sip_bridge.Base.{◌≡◌, refl, ap, ◌∙◌, false, List, [], ◌∷◌, ◌++◌, ◌==◌, All}
use mathlib.Core.List.{append_assoc}
use talk_sip_bridge.Base.Text.{Text, text_eq}
use talk_sip_bridge.Base.Str.{starts_with}
use talk_sip_bridge.Talk.{TalkClient, Act, answer_refused}
use talk_sip_bridge.Talk.Messages.{answer_id, or_token}
use talk_sip_bridge.Talk.Callbacks.{
  error, partition_at, refused_answer, handle_error, handle_room_message,
}

-- No "@".
abbrev pub IsPlainId : Text → Type 0
IsPlainId id = All (λ c. (c == 64) ≡ false) id

partition_at_first :
    (id rest : Text) → IsPlainId id → partition_at (id ++ 64 ∷ 64 ∷ rest) ≡ (id, rest)
unfolding partition_at starts_with
partition_at_first [] rest h = refl
partition_at_first (c ∷ cs) rest (h, hs) = rw (h, partition_at_first cs rest hs) refl

-- The refusal of an answer carries nothing back but the id of the answer; from it, the bridge finds
-- the session and the call that the answer was for, whatever the call's id, as long as the id of the
-- session has no "@".
pub refusal_finds_subscription :
    (t : TalkClient) (peer sip_call_id token code : Text)
    → IsPlainId peer
    → handle_room_message t (error (answer_id peer sip_call_id token) code)
      ≡ (t, answer_refused (or_token sip_call_id token) peer ∷ [])
unfolding handle_room_message handle_error refused_answer answer_id text_eq starts_with
refusal_finds_subscription t peer sip_call_id token code h =
    let refused : Text × Text → TalkClient × List Act = λ p. (t, answer_refused p.1 p.0 ∷ []) in
    ap refused (
      ap partition_at (append_assoc peer (64 ∷ 64 ∷ []) (or_token sip_call_id token))
      ∙ partition_at_first peer (or_token sip_call_id token) h)
