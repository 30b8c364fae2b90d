-- ===== src/Talk/Ends.antt =====
-- When the phone call ends with the call of its room.
use talk_sip_bridge.Base.{
  ◌%◌, ◌==◌, ◌≡◌, refl, sym, ◌∙◌, Bool, true, false, not, ◌&&◌, ◌||◌, Option, none, some, List, [],
  ◌∷◌, arith,
}
use talk_sip_bridge.Base.Text.{Text}
use talk_sip_bridge.Base.Dict.{elem, is_empty}
use talk_sip_bridge.Room.{Update, RoomCallState, anyone_in_call_besides, others_in_call}
use talk_sip_bridge.Base.Int.{pos, negsuc}
use talk_sip_bridge.Base.Str.{parse_int}
use talk_sip_bridge.Room.Flags.{Raw, null, other, bool, num, str}
use talk_sip_bridge.Room.Transitions.{member, IsUnique?}
use talk_sip_bridge.Room.Answering.{others_are_members}
use talk_sip_bridge.Talk.{TalkClient, Act, hangup, confirm_later, ours}
use talk_sip_bridge.Talk.Presence.{Found, confirm_empty, is_some, no_calls}

abbrev pub is_hangup : Act → Bool
is_hangup hangup = true
is_hangup _ = false

abbrev pub is_confirm : Act → Bool
is_confirm confirm_later = true
is_confirm _ = false

-- Whether an act of a kind is among some acts.
unfoldable pub some_act : (Act → Bool) → List Act → Bool
some_act p [] = false
some_act p (a ∷ rest) = p a || some_act p rest

-- A call is up or rings at the far end, and none waits for somebody in the room.
abbrev pub watches : Found → Bool
watches f = not (is_some f.waiting) && (is_some f.active || is_some f.ringing)

-- Acts that neither end a call nor think of it.
abbrev AreHarmless : List Act → Type 0
AreHarmless acts = (some_act is_hangup acts ≡ false) × (some_act is_confirm acts ≡ false)

-- Whether a value of the flags says that the call is over: `null` says nothing, and what is no
-- number counts as none of the flags.
abbrev pub says_over : Raw → Bool
says_over null = false
says_over other = true
says_over (bool b) = not b
says_over (num (pos n)) = n % 2 == 0
says_over (num (negsuc n)) = n % 2 == 1
says_over (str s) = elim (parse_int s) [
  | none ↦ true
  | some (pos n) ↦ n % 2 == 0
  | some (negsuc n) ↦ n % 2 == 1
]

abbrev pub said : Option Raw → Bool
said none = false
said (some r) = says_over r

-- The call of the room has been ended for everyone: "incall", or "inCall" where that is missing.
abbrev pub says_over_in : Option Raw → Option Raw → Bool
says_over_in none in_call = said in_call
says_over_in (some r) in_call = says_over r

abbrev pub calls_it_over : Update → Bool
calls_it_over u = u.all && says_over_in u.incall u.in_call

-- What an update does about the end of a call, where it is watched.
abbrev pub Ends : Bool → RoomCallState → List Text → Update → List Text → List Act → Type 0
Ends watched? room own u left acts =
    (some_act is_hangup acts ≡ (watched? && calls_it_over u))
    × (some_act is_confirm acts ≡ (
        watched? && (not u.all && (not (is_empty left) && not (anyone_in_call_besides room own)))))

nothing_in_empty : (k : Text) (xs : List Text) → is_empty xs ≡ true → elem k xs ≡ false
unfolding elem
nothing_in_empty k [] e = refl
nothing_in_empty k (x ∷ xs) e = cc

nobody_else :
    (s : RoomCallState) (own : List Text) (k : Text)
    → IsUnique? s.flags
    → anyone_in_call_besides s own ≡ false
    → member s k ≡ true
    → elem k own ≡ true
nobody_else s own k v h m =
    let (listed, any) = others_are_members s own k v in
    let none_left : is_empty (others_in_call s own) ≡ true = ground arith in
    let absent = nothing_in_empty k (others_in_call s own) none_left in ground arith

confirm_hangs_up :
    (t : TalkClient)
    → some_act is_hangup (confirm_empty t)
      ≡ (not (no_calls t.call_sessions) && not (anyone_in_call_besides t.room_call (ours t)))
unfolding confirm_empty some_act
confirm_hangs_up t = ground arith

-- After the grace period the phone call is ended only if a call is left, and everyone in the call of
-- the room then is the bridge itself: whoever has come back by then keeps it.
pub grace_ends_empty_call :
    (t : TalkClient) (k : Text)
    → IsUnique? t.room_call.flags
    → some_act is_hangup (confirm_empty t) ≡ true
    → member t.room_call k ≡ true
    → (no_calls t.call_sessions ≡ false) × (elem k (ours t) ≡ true)
grace_ends_empty_call t k v h m =
    let reason = sym (confirm_hangs_up t) ∙ h in
    let alone : anyone_in_call_besides t.room_call (ours t) ≡ false = ground arith in
    (ground arith, nobody_else t.room_call (ours t) k v alone m)
