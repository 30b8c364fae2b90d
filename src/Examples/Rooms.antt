-- ===== src/Examples/Rooms.antt =====
-- Rooms and subscriptions, and the theorems on bridge/room_state.py and bridge/subscription.py.
use talk_sip_bridge.Base.{
  ℕ, ◌≤◌, ◌≡◌, refl, ◌≢◌, true, false, not, ◌&&◌, none, some, List, [], ◌∷◌, arith, replicate,
}
use talk_sip_bridge.Base.Text.{Text, codes, text_eq}
use talk_sip_bridge.Base.Int.{pos}
use talk_sip_bridge.Base.Dict.{has, elem}
use talk_sip_bridge.Room.Flags.{num}
use talk_sip_bridge.Base.Order.{sorted, insert, text_leb, first_outside}
use talk_sip_bridge.Room.{Entry, Update, RoomCallState, apply, accepted_by, seeded}
use talk_sip_bridge.Room.Transitions.{
  IsUnique?, member, follow, apply_all, apply_reports_difference, transitions_determine_membership,
}
use talk_sip_bridge.Subscription.{
  Subscription, Step, Event, new, step, run, starts, offers, answer_goes, lacks_publisher, request,
  idle, requested, flowing, given_up, no_step, still_current, start,
}
use talk_sip_bridge.Subscription.Budget.{
  attempts_in, give_ups_in, attempts_bounded, absent_publisher_gives_up,
}

abbrev entry : Text → ℕ → Entry
entry s n = record { session_id = some s; sessionid = none; in_call = some (num (pos n)) }

-- The session a in the call with audio, b in the room only.
abbrev room : RoomCallState
room = record { flags = some ((codes "a", pos 3) ∷ (codes "b", pos 0) ∷ []) }

abbrev change : Update
change = record {
  all = false;
  incall = none;
  in_call = none;
  users = none;
  changed = entry (codes "b") 7 ∷ [];
}

room-IsUnique : IsUnique? room.flags
unfolding has text_eq
room-IsUnique = (refl, (refl, tt))

room-seeded : seeded room ≡ true
unfolding seeded
room-seeded = refl

apply_reports_difference_example :
    let (s, entered, left) = apply room change in
    (elem (codes "b") entered ≡ (member s (codes "b") && not (member room (codes "b"))))
    × (elem (codes "b") left ≡ (member room (codes "b") && not (member s (codes "b"))))
apply_reports_difference_example =
    apply_reports_difference room change (codes "b") room-seeded room-IsUnique

transitions_determine_membership_example :
    follow room (member room (codes "b")) (change ∷ change ∷ []) (codes "b")
    ≡ member (apply_all room (change ∷ change ∷ [])) (codes "b")
transitions_determine_membership_example =
    transitions_determine_membership (change ∷ change ∷ []) room (codes "b") room-seeded
      room-IsUnique

accepted_c :
    accepted_by (codes "d" ∷ codes "a" ∷ codes "c" ∷ []) (codes "a" ∷ []) ≡ some (codes "c")
unfolding accepted_by sorted insert text_leb first_outside elem text_eq
accepted_c = refl

same_sessions :
    (k : Text)
    → elem k (codes "d" ∷ codes "c" ∷ []) ≡ elem k (codes "c" ∷ codes "d" ∷ codes "c" ∷ [])
unfolding elem
same_sessions k = ground arith

-- A negotiation: asked for, refused once, offered, answered.
abbrev history : List Event
history = starts ∷ lacks_publisher ∷ offers (codes "s1") ∷ answer_goes 2 ∷ []

attempts_bounded_example :
    let (s, steps) = run (new 6 5000 3000) history in
    (attempts_in steps ≡ s.attempts) × (attempts_in steps ≤ 6)
attempts_bounded_example = attempts_bounded 6 5000 3000 history (omega arith)

abbrev asked : Subscription
asked = record {
  state = requested;
  max_attempts = 6;
  request_delay = 5000;
  rebuild_delay = 3000;
  attempts = 1;
  generation = 4;
  sid = none;
}

asked_not_idle : asked.state ≢ idle
asked_not_idle h = cc

absent_publisher_gives_up_example :
    let (s, steps) = run (new 6 5000 3000) (starts ∷ replicate 6 lacks_publisher) in
    (s.state ≡ given_up) × (attempts_in steps ≡ 6) × (give_ups_in steps ≡ 1)
absent_publisher_gives_up_example = absent_publisher_gives_up 5 5000 3000

abbrev heard : Subscription
heard = record asked { state = flowing }

late : 3 ≢ asked.generation
late h = omega arith

abbrev timer : Step
timer = record no_step { action = request; generation = 4 }

still_asked : still_current (run asked (starts ∷ [])).0 timer ≡ true
unfolding still_current run step start
still_asked = refl
