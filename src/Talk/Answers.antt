-- ===== src/Talk/Answers.antt =====
-- Whose coming is taken for an answer to a ringing call.
use talk_sip_bridge.Base.{
  ◌≡◌, refl, sym, ap, ◌∙◌, inl, inr, Bool, true, false, ◌||◌, Option, none, some, List, [], ◌∷◌,
  ◌++◌, arith, if◌then◌else◌, Bool-cases,
}
use talk_sip_bridge.Base.Text.{Text}
use talk_sip_bridge.Base.Int.{ℤ}
use talk_sip_bridge.Base.Dict.{Dict, elem}
use talk_sip_bridge.Room.{Update, RoomCallState, apply, accepted_by, seeded}
use talk_sip_bridge.Room.Transitions.{member, IsUnique?, apply_reports_difference}
use talk_sip_bridge.Room.Answering.{accepted_by_least, accepted_by-none}
use talk_sip_bridge.Talk.{Call, TalkClient, Act, answer, ours}
use talk_sip_bridge.Talk.Presence.{
  Found, scan, nothing_found, follow_streams, accept, watch_end, react, updated, is_some,
}

abbrev pub is_answer : Act → Bool
is_answer answer = true
is_answer _ = false

unfoldable pub answers : List Act → Bool
answers [] = false
answers (a ∷ rest) = is_answer a || answers rest

-- Somebody who was not in the call before an update, is in it after, and is not the bridge.
abbrev pub IsNewcomer : TalkClient → Update → Text → Type 0
IsNewcomer t u s =
    (member t.room_call s ≡ false)
    × (member (apply t.room_call u).0 s ≡ true)
    × (elem s (ours t) ≡ false)

answers-append : (xs ys : List Act) → answers (xs ++ ys) ≡ (answers xs || answers ys)
unfolding answers
answers-append [] ys = refl
answers-append (x ∷ xs) ys = ground (arith, answers-append xs ys)

streams_do_not_answer :
    (o : Option Text) (entered left : List Text) → answers (follow_streams o entered left) ≡ false
unfolding answers follow_streams
streams_do_not_answer none entered left = refl
streams_do_not_answer (some k) [] [] = refl
streams_do_not_answer (some k) [] (l ∷ left) = refl
streams_do_not_answer (some k) (e ∷ entered) [] = refl
streams_do_not_answer (some k) (e ∷ entered) (l ∷ left) = refl

ends_do_not_answer :
    (room : RoomCallState) (own : List Text) (u : Update) (left : List Text)
    → answers (watch_end room own u left) ≡ false
unfolding answers watch_end
ends_do_not_answer room own u left = ground arith

answers-accept :
    (t : TalkClient) (k : Text) (c : Call) (o : Option Text)
    → answers (accept t k c o).1 ≡ is_some o
unfolding answers accept
answers-accept t k c none = refl
answers-accept t k c (some s) = refl

abbrev pub watched : Bool → TalkClient → List Act → TalkClient × List Act
watched b t acts = if b then (t, acts) else (t, [])

watching_does_not_answer :
    (b : Bool) (t : TalkClient) (acts : List Act)
    → answers acts ≡ false
    → answers (watched b t acts).1 ≡ false
unfolding answers
watching_does_not_answer true t acts h = h
watching_does_not_answer false t acts h = refl

abbrev answers_by : Option (Text × Call) → Option Text → Bool
answers_by none o = false
answers_by (some w) o = is_some o

answers-react :
    (t : TalkClient) (f : Found) (u : Update) (entered left : List Text) (w : Option (Text × Call))
    → f.waiting ≡ w
    → answers (react t f u entered left).1 ≡ answers_by w (accepted_by entered (ours t))
unfolding react
answers-react t f u entered left none e =
    rw (react, e)
      (watching_does_not_answer (is_some f.active || is_some f.ringing) t
        (watch_end t.room_call (ours t) u left) (ends_do_not_answer t.room_call (ours t) u left))
answers-react t f u entered left (some (k, c)) e =
    rw (react, e) (answers-accept t k c (accepted_by entered (ours t)))

-- The calls of a client that an update finds.
unfoldable pub found_in : TalkClient → Found
found_in t = scan nothing_found t.call_sessions

answers-updated :
    (t : TalkClient) (u : Update)
    → answers (updated t u).1
      ≡ answers_by (found_in t).waiting (accepted_by (apply t.room_call u).1 (ours t))
unfolding updated found_in ours
answers-updated t u =
    let (room, entered, left) = apply t.room_call u in
    let next = record t { room_call = room } in
    let f = scan nothing_found t.call_sessions in
    answers-append (follow_streams f.active entered left) (react next f u entered left).1
    ∙ ap (λ b. b || answers (react next f u entered left).1)
        (streams_do_not_answer f.active entered left)
    ∙ answers-react next f u entered left f.waiting refl

nobody_enters_unseeded :
    (room : RoomCallState) (flags : Option (Dict ℤ)) (u : Update) (s : Text)
    → room.flags ≡ flags
    → seeded room ≡ false
    → elem s (apply room u).1 ≡ false
unfolding apply seeded elem
nobody_enters_unseeded room none u s e h = rw (apply, e) refl
nobody_enters_unseeded room (some d) u s e h =
    let known : seeded room ≡ true = rw (seeded, e) refl in cc

moved_in :
    (t : TalkClient) (u : Update) (s : Text)
    → IsUnique? t.room_call.flags
    → elem s (apply t.room_call u).1 ≡ true
    → (member t.room_call s ≡ false) × (member (apply t.room_call u).0 s ≡ true)
moved_in t u s v h = elim (Bool-cases (seeded t.room_call)) [
  | inl known ↦ let (came, went) = apply_reports_difference t.room_call u s known v in ground arith
  | inr unknown ↦
      let nobody = nobody_enters_unseeded t.room_call t.room_call.flags u s refl unknown in cc
]

IsNewcomer-of :
    (t : TalkClient) (u : Update) (w : Option (Text × Call)) (o : Option Text)
    → IsUnique? t.room_call.flags
    → accepted_by (apply t.room_call u).1 (ours t) ≡ o
    → answers_by w o ≡ true
    → (s : Text) × IsNewcomer t u s
IsNewcomer-of t u none o v e h = cc
IsNewcomer-of t u (some w) none v e h = cc
IsNewcomer-of t u (some w) (some s) v e h =
    let least = accepted_by_least (apply t.room_call u).1 (ours t) {s = s} e in
    let (before, after) = moved_in t u s v least.listed in (s, (before, after, least.outside))

-- A ringing call is answered on an update only where somebody who is not the bridge has come into
-- the call of the room by that update: never for the bridge's own sessions, and never for those who
-- were there before.
pub only-IsNewcomer-answers :
    (t : TalkClient) (u : Update)
    → IsUnique? t.room_call.flags
    → answers (updated t u).1 ≡ true
    → (s : Text) × IsNewcomer t u s
only-IsNewcomer-answers t u v h =
    IsNewcomer-of t u (found_in t).waiting (accepted_by (apply t.room_call u).1 (ours t)) v refl
      (sym (answers-updated t u) ∙ h)

some_or_none :
    (t : TalkClient) (u : Update) (s : Text) (o : Option Text)
    → accepted_by (apply t.room_call u).1 (ours t) ≡ o
    → elem s (apply t.room_call u).1 ≡ true
    → elem s (ours t) ≡ false
    → is_some o ≡ true
some_or_none t u s (some x) e h k = refl
some_or_none t u s none e h k =
    let own = accepted_by-none (apply t.room_call u).1 (ours t) s e h in cc

-- Once the state of the room is known, a newcomer answers the call that rings for the room.
pub newcomer_is_answered :
    (t : TalkClient) (u : Update) (s : Text) (w : Text × Call)
    → IsUnique? t.room_call.flags
    → seeded t.room_call ≡ true
    → (found_in t).waiting ≡ some w
    → IsNewcomer t u s
    → answers (updated t u).1 ≡ true
newcomer_is_answered t u s w v known waits (before, after, outside) =
    let (came, went) = apply_reports_difference t.room_call u s known v in
    answers-updated t u
    ∙ ap (λ x. answers_by x (accepted_by (apply t.room_call u).1 (ours t))) waits
    ∙ some_or_none t u s (accepted_by (apply t.room_call u).1 (ours t)) refl (ground arith) outside
