-- ===== src/Room/Transitions.antt =====
-- The transitions that an update reports are the difference between the two memberships.
use talk_sip_bridge.Base.{
  ◌≡◌, refl, Bool, true, false, not, ◌&&◌, ◌||◌, Option, none, some, List, [], ◌∷◌, arith, ◌∙◌,
}
use talk_sip_bridge.Base.Text.{Text}
use talk_sip_bridge.Base.Int.{ℤ}
use talk_sip_bridge.Base.Dict.{Dict, elem, get, IsUnique, put-IsUnique, elem-keys_where, holds_at}
use talk_sip_bridge.Room.{
  Entry, Update, RoomCallState, or_empty, fold_users, fold_changed, current_flags, in_call, seeded,
  moved, put_user, put_changed, entered_from, left_from, apply,
}
use talk_sip_bridge.Room.Flags.{Raw, in_call_bit}

abbrev pub IsUnique? : Option (Dict ℤ) → Type 0
IsUnique? none = Unit
IsUnique? (some d) = IsUnique d

put_user-IsUnique :
    (o : Option Text) (r : Raw) (d : Dict ℤ) → IsUnique d → IsUnique (put_user o r d)
unfolding put_user
put_user-IsUnique none r d u = u
put_user-IsUnique (some s) r d u = put-IsUnique s _ d u

put_changed-IsUnique :
    (o : Option Text) (r : Option Raw) (d : Dict ℤ) → IsUnique d → IsUnique (put_changed o r d)
unfolding put_changed
put_changed-IsUnique none r d u = u
put_changed-IsUnique (some s) none d u = u
put_changed-IsUnique (some s) (some r) d u = put-IsUnique s _ d u

fold_users-IsUnique : (es : List Entry) (d : Dict ℤ) → IsUnique d → IsUnique (fold_users es d)
unfolding fold_users
fold_users-IsUnique [] d u = u
fold_users-IsUnique (e ∷ es) d u = fold_users-IsUnique es _ (put_user-IsUnique _ _ d u)

fold_changed-IsUnique : (es : List Entry) (d : Dict ℤ) → IsUnique d → IsUnique (fold_changed es d)
unfolding fold_changed
fold_changed-IsUnique [] d u = u
fold_changed-IsUnique (e ∷ es) d u = fold_changed-IsUnique es _ (put_changed-IsUnique _ _ d u)

base-IsUnique :
    (us : Option (List Entry)) (p : Option (Dict ℤ))
    → IsUnique? p
    → IsUnique (elim us [ none ↦ or_empty p | some es ↦ fold_users es [] ])
base-IsUnique none none u = tt
base-IsUnique none (some d) u = u
base-IsUnique (some es) p u = fold_users-IsUnique es [] tt

current_flags-IsUnique :
    (p : Option (Dict ℤ)) (u : Update) → IsUnique? p → IsUnique (current_flags p u)
unfolding current_flags
current_flags-IsUnique p u h = fold_changed-IsUnique u.changed _ (base-IsUnique u.users p h)

-- Every update leaves one entry for each session.
pub apply-IsUnique :
    (s : RoomCallState) (u : Update) → IsUnique? s.flags → IsUnique? (apply s u).0.flags
unfolding apply
apply-IsUnique s u h = current_flags-IsUnique s.flags u h

-- Whether a session is in the call, of a model that may be unseeded.
abbrev pub member : RoomCallState → Text → Bool
member s k = in_call (or_empty s.flags) k

holds_entered :
    (p d : Dict ℤ) (k : Text) (o : Option ℤ)
    → holds_at (λ s now. in_call_bit now && not (in_call p s)) k o
      ≡ (elim o [ none ↦ false | some n ↦ in_call_bit n ] && not (in_call p k))
holds_entered p d k none = refl
holds_entered p d k (some n) = refl

elem-difference :
    (p d : Dict ℤ) (k : Text)
    → IsUnique d
    → elem k (entered_from p d) ≡ (in_call d k && not (in_call p k))
unfolding entered_from in_call
elem-difference p d k u =
    elem-keys_where (λ s now. in_call_bit now && not (in_call p s)) k d u
    ∙ holds_entered p d k (get k d)

elem-left :
    (p d : Dict ℤ) (k : Text)
    → IsUnique p
    → elem k (left_from p d) ≡ (in_call p k && not (in_call d k))
unfolding left_from in_call
elem-left p d k u =
    elem-keys_where (λ s was. in_call_bit was && not (in_call d s)) k p u
    ∙ holds_entered d p k (get k p)

moved_difference :
    (f : Option (Dict ℤ)) (d : Dict ℤ) (k : Text)
    → seeded (record { flags = f }) ≡ true
    → IsUnique? f
    → IsUnique d
    → (elem k (moved f d).0 ≡ (in_call d k && not (in_call (or_empty f) k)))
      × (elem k (moved f d).1 ≡ (in_call (or_empty f) k && not (in_call d k)))
unfolding seeded
moved_difference none d k h u v = cc
moved_difference (some p) d k h u v = (elem-difference p d k v, elem-left p d k u)

-- Once the model is seeded, an update reports exactly the sessions whose membership it changes:
-- as entered those that were out of the call and are in it after, as left those that were in it
-- and are out of it after.
pub apply_reports_difference :
    (s : RoomCallState) (u : Update) (k : Text)
    → seeded s ≡ true
    → IsUnique? s.flags
    → let (s', entered, left) = apply s u in
      (elem k entered ≡ (member s' k && not (member s k)))
      × (elem k left ≡ (member s k && not (member s' k)))
unfolding apply
apply_reports_difference s u k h v =
    moved_difference s.flags (current_flags s.flags u) k h v (current_flags-IsUnique s.flags u v)

-- A listener that only hears transitions: what it believes of one session.
abbrev pub hears : Bool → List Text × List Text → Text → Bool
hears believed (entered, left) k = (believed && not (elem k left)) || elem k entered

unfoldable pub follow : RoomCallState → Bool → List Update → Text → Bool
follow s believed [] k = believed
follow s believed (u ∷ us) k =
    let (s', moves) = listen s u in follow s' (hears believed moves k) us k
  where
    listen : RoomCallState → Update → RoomCallState × (List Text × List Text)
    listen s u = ((apply s u).0, ((apply s u).1, (apply s u).2))

unfoldable pub apply_all : RoomCallState → List Update → RoomCallState
apply_all s [] = s
apply_all s (u ∷ us) = apply_all (apply s u).0 us

pub seeded-apply : (s : RoomCallState) (u : Update) → seeded (apply s u).0 ≡ true
unfolding apply seeded
seeded-apply s u = refl

hears_membership :
    (s : RoomCallState) (u : Update) (k : Text)
    → seeded s ≡ true
    → IsUnique? s.flags
    → let (s', entered, left) = apply s u in hears (member s k) (entered, left) k ≡ member s' k
hears_membership s u k h v = ground (arith, apply_reports_difference s u k h v)

-- Over any history of updates of a seeded model, a listener that starts from the membership of a
-- session and only hears the reported transitions knows its membership at the end.
pub transitions_determine_membership :
    (us : List Update) (s : RoomCallState) (k : Text)
    → seeded s ≡ true
    → IsUnique? s.flags
    → follow s (member s k) us k ≡ member (apply_all s us) k
unfolding follow apply_all
transitions_determine_membership [] s k h v = refl
transitions_determine_membership (u ∷ us) s k h v =
    rw (hears_membership s u k h v) (
      transitions_determine_membership us (apply s u).0 k (seeded-apply s u) (apply-IsUnique s u v))
