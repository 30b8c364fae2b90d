-- ===== src/Room/Folding.antt =====
-- What an update makes of the flags of one session, and updates that arrive twice.
use talk_sip_bridge.Base.{
  ◌≡◌, refl, Bool, false, Option, none, some, List, [], ◌∷◌, arith, if◌then◌else◌, ap, sym, ◌∙◌,
}
use talk_sip_bridge.Base.Text.{Text, text_eq, text_eq_iff}
use talk_sip_bridge.Base.Int.{ℤ}
use talk_sip_bridge.Base.Dict.{Dict, elem, get, get-put}
use talk_sip_bridge.Room.{
  Entry, Update, RoomCallState, or_null, or_empty, session_id_of, put_user, put_changed, fold_users,
  fold_changed, current_flags, in_call, apply,
}
use talk_sip_bridge.Room.Flags.{Raw, as_flags, in_call_bit}
use talk_sip_bridge.Room.Transitions.{
  IsUnique?, member, apply_reports_difference, apply-IsUnique, seeded-apply,
}

-- `x`, or `y` where there is no `x`.
abbrev pub or_else : Option ℤ → Option ℤ → Option ℤ
or_else none y = y
or_else (some n) y = some n

-- What one entry says of session `k`: `raw` is its flags field, where it has one.
abbrev pub says : Text → Option Text → Option Raw → Option ℤ
says k none raw = none
says k (some s) none = none
says k (some s) (some raw) = if text_eq s k then some (as_flags raw) else none

-- The last thing that a list of changes says of session `k`.
pub last_change : Text → List Entry → Option ℤ
last_change k [] = none
last_change k (e ∷ es) = or_else (last_change k es) (says k (session_id_of e) e.in_call)

-- The last thing that a snapshot says of session `k`: a missing field counts as no flags.
pub last_user : Text → List Entry → Option ℤ
last_user k [] = none
last_user k (e ∷ es) =
    or_else (last_user k es) (says k (session_id_of e) (some (or_null e.in_call)))

get-put_changed :
    (k : Text) (o : Option Text) (r : Option Raw) (d : Dict ℤ)
    → get k (put_changed o r d) ≡ or_else (says k o r) (get k d)
unfolding put_changed
get-put_changed k none r d = refl
get-put_changed k (some s) none d = refl
get-put_changed k (some s) (some r) d = ground (arith, get-put s k (as_flags r) d)

get-put_user :
    (k : Text) (o : Option Text) (r : Raw) (d : Dict ℤ)
    → get k (put_user o r d) ≡ or_else (says k o (some r)) (get k d)
unfolding put_user
get-put_user k none r d = refl
get-put_user k (some s) r d = ground (arith, get-put s k (as_flags r) d)

pub or_else_assoc : (x y z : Option ℤ) → or_else x (or_else y z) ≡ or_else (or_else x y) z
or_else_assoc none y z = refl
or_else_assoc (some n) y z = refl

or_else_idem : (x y : Option ℤ) → or_else x (or_else x y) ≡ or_else x y
or_else_idem none y = refl
or_else_idem (some n) y = refl

get-fold_changed :
    (k : Text) (es : List Entry) (d : Dict ℤ)
    → get k (fold_changed es d) ≡ or_else (last_change k es) (get k d)
unfolding fold_changed last_change
get-fold_changed k [] d = refl
get-fold_changed k (e ∷ es) d =
    get-fold_changed k es (put_changed (session_id_of e) e.in_call d)
    ∙ ap (or_else (last_change k es)) (get-put_changed k (session_id_of e) e.in_call d)
    ∙ or_else_assoc (last_change k es) (says k (session_id_of e) e.in_call) (get k d)

get-fold_users :
    (k : Text) (es : List Entry) (d : Dict ℤ)
    → get k (fold_users es d) ≡ or_else (last_user k es) (get k d)
unfolding fold_users last_user
get-fold_users k [] d = refl
get-fold_users k (e ∷ es) d =
    get-fold_users k es (put_user (session_id_of e) (or_null e.in_call) d)
    ∙ ap (or_else (last_user k es)) (get-put_user k (session_id_of e) (or_null e.in_call) d)
    ∙ or_else_assoc (last_user k es) (says k (session_id_of e) (some (or_null e.in_call))) (get k d)

-- The flags of session `k` before the changes: from the snapshot if there is one, else as known.
abbrev pub known : Text → Option (List Entry) → Option (Dict ℤ) → Option ℤ
known k none p = get k (or_empty p)
known k (some us) p = last_user k us

get-base :
    (k : Text) (us : Option (List Entry)) (p : Option (Dict ℤ))
    → get k (elim us [ none ↦ or_empty p | some es ↦ fold_users es [] ]) ≡ known k us p
unfolding get
get-base k none p = refl
get-base k (some us) p = get-fold_users k us [] ∙ nothing_else (last_user k us)
  where
    nothing_else : (o : Option ℤ) → or_else o none ≡ o
    nothing_else none = refl
    nothing_else (some n) = refl

-- After an update, the flags of a session are those of its last entry among the changes; without
-- one, those of its last entry in the snapshot, where a session that a snapshot leaves out has
-- none; and without a snapshot those it had.
apply_flags :
    (s : RoomCallState) (u : Update) (k : Text)
    → get k (or_empty (apply s u).0.flags)
      ≡ or_else (last_change k u.changed) (known k u.users s.flags)
unfolding apply current_flags
apply_flags s u k =
    get-fold_changed k u.changed _
    ∙ ap (or_else (last_change k u.changed)) (get-base k u.users s.flags)

known_again :
    (k : Text) (us : Option (List Entry)) (p q : Option (Dict ℤ)) (c : Option ℤ)
    → get k (or_empty q) ≡ or_else c (known k us p)
    → or_else c (known k us q) ≡ or_else c (known k us p)
known_again k none p q c h = ap (or_else c) h ∙ or_else_idem c _
known_again k (some us) p q c h = refl

is_in : Option ℤ → Bool
is_in o = elim o [ none ↦ false | some n ↦ in_call_bit n ]

member_again :
    (s : RoomCallState) (u : Update) (k : Text)
    → member (apply (apply s u).0 u).0 k ≡ member (apply s u).0 k
unfolding in_call is_in
member_again s u k = ap is_in (
    apply_flags (apply s u).0 u k
    ∙ known_again k u.users s.flags (apply s u).0.flags (last_change k u.changed)
        (apply_flags s u k)
    ∙ sym (apply_flags s u k))

nothing_listed : (xs : List Text) → ((k : Text) → elem k xs ≡ false) → xs ≡ []
unfolding elem
nothing_listed [] h = refl
nothing_listed (x ∷ xs) h = ground (arith, h x, text_eq_iff x x)

-- An update that arrives a second time in a row reports nobody.
repeated_update_reports_nothing :
    (s : RoomCallState) (u : Update)
    → IsUnique? s.flags
    → let (s', entered, left) = apply (apply s u).0 u in (entered ≡ []) × (left ≡ [])
repeated_update_reports_nothing s u v =
    (nothing_listed _ (λ k. (silent k).0), nothing_listed _ (λ k. (silent k).1))
  where
    silent :
        (k : Text)
        → let (s', entered, left) = apply (apply s u).0 u in
          (elem k entered ≡ false) × (elem k left ≡ false)
    silent k = ground (
      arith,
      apply_reports_difference (apply s u).0 u k (seeded-apply s u) (apply-IsUnique s u v),
      member_again s u k,
    )
