-- ===== src/Talk/Teardown.antt =====
-- What is left of a call that is taken down.
use talk_sip_bridge.Base.{
  ◌≡◌, refl, ap, ◌∙◌, Bool, true, Option, none, some, [], ◌∷◌, arith, if◌then◌else◌,
}
use talk_sip_bridge.Base.Text.{Text, text_eq, text_eq_iff}
use talk_sip_bridge.Base.Dict.{Dict, get, remove, IsUnique, get-none}
use talk_sip_bridge.Talk.{Call, TalkClient}
use talk_sip_bridge.Talk.Presence.{leave}
use talk_sip_bridge.Talk.Callbacks.{torn_down, teardown_call}

module _ {ℓ} {V : Type ℓ} where
  get-remove :
      (k j : Text) (d : Dict V)
      → IsUnique d
      → get j (remove k d) ≡ (if text_eq k j then none else get j d)
  unfolding get remove
  get-remove k j [] u = ground arith
  get-remove k j ((i, v) ∷ d) u = ground (
    arith,
    text_eq_iff k j,
    text_eq_iff i k,
    text_eq_iff i j,
    get-none i d u.0,
    get-remove k j d u.1,
  )

leave_keeps : (b : Bool) (t : TalkClient) → (leave b t).0.call_sessions ≡ t.call_sessions
unfolding leave
leave_keeps b t = ground arith

torn_down_calls :
    (b : Bool) (t : TalkClient) (call_id j roomid : Text) (o : Option Call)
    → IsUnique t.call_sessions
    → get call_id t.call_sessions ≡ o
    → get j (torn_down b t call_id o roomid).0.call_sessions
      ≡ (if text_eq call_id j then none else get j t.call_sessions)
torn_down_calls b t call_id j roomid none u e = ground (arith, text_eq_iff call_id j)
torn_down_calls b t call_id j roomid (some c) u e =
    ap (get j) (leave_keeps b (record t { call_sessions = remove call_id t.call_sessions }))
    ∙ get-remove call_id j t.call_sessions u

-- Taking a call down forgets that call and no other; and taking it down again, as its end may be
-- reported more than once, does nothing more; both whether or not the room can be left.
pub teardown_once :
    (leaves leaves_again : Bool) (t : TalkClient) (call_id roomid j : Text)
    → IsUnique t.call_sessions
    → let u = (teardown_call leaves t call_id roomid).0 in
      (get j u.call_sessions ≡ (if text_eq call_id j then none else get j t.call_sessions))
      × (teardown_call leaves_again u call_id roomid ≡ (u, []))
unfolding teardown_call
teardown_once leaves leaves_again t call_id roomid j v =
    let u = (teardown_call leaves t call_id roomid).0 in
    let calls = λ (i : Text).
      torn_down_calls leaves t call_id i roomid (get call_id t.call_sessions) v refl in
    let itself : text_eq call_id call_id ≡ true = (text_eq_iff call_id call_id).1 refl in
    let gone : get call_id u.call_sessions ≡ none = calls call_id ∙ rw itself refl in
    (calls j, ap (λ o. torn_down leaves_again u call_id o roomid) gone)
