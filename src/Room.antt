-- ===== src/Room.antt =====
-- bridge/room_state.py: who is in the call of one room, folded from `participants`/`update` events.
-- A set of session ids is a list, read through `elem`.
pub mod Flags
pub mod Transitions
pub mod Answering
pub mod Folding
use talk_sip_bridge.Base.{
  Bool, true, false, not, ◌&&◌, Option, none, some, List, [], ◌∷◌, if◌then◌else◌,
}
use talk_sip_bridge.Base.Text.{Text}
use talk_sip_bridge.Base.Int.{ℤ, pos}
use talk_sip_bridge.Base.Dict.{Dict, elem, get, put, keys_where, any_item}
use talk_sip_bridge.Base.Order.{sorted, first_outside}
use Flags.{Raw, null, as_flags, in_call_bit, audio_bit, has_in_call_flag}

-- One entry of an update; `none` where the key is missing.
pub record Entry : Type 0 where
  pub session_id : Option Text  -- "sessionId"
  pub sessionid : Option Text  -- the lower-case spelling
  pub in_call : Option Raw  -- "inCall"

pub record Update : Type 0 where
  pub all : Bool  -- whether "all" is truthy
  pub incall : Option Raw
  pub in_call : Option Raw  -- "inCall"
  pub users : Option (List Entry)  -- `none` for missing and for null
  pub changed : List Entry  -- [] for missing and for null

abbrev pub or_null : Option Raw → Raw
or_null none = null
or_null (some r) = r

abbrev pub is_null : Raw → Bool
is_null null = true
is_null _ = false

-- `update.get("incall", update.get("inCall"))`
abbrev call_flags : Update → Raw
call_flags u = elim u.incall [ none ↦ or_null u.in_call | some r ↦ r ]

unfoldable pub is_room_wide_call_end : Update → Bool
is_room_wide_call_end u =
    if not u.all
    then false
    else not (is_null (call_flags u)) && not (has_in_call_flag (call_flags u))

-- A text that is not empty, as Python's `or` takes it.
abbrev truthy : Option Text → Option Text
truthy none = none
truthy (some []) = none
truthy (some (c ∷ cs)) = some (c ∷ cs)

-- `_session_id`, with `none` for every value that is falsy.
unfoldable pub session_id_of : Entry → Option Text
session_id_of e = elim (truthy e.session_id) [ none ↦ truthy e.sessionid | some s ↦ some s ]

-- The session flags; `none` until the first update seeds them.
pub record RoomCallState : Type 0 where
  pub flags : Option (Dict ℤ)

abbrev pub new : RoomCallState
new = record { flags = none }

unfoldable pub seeded : RoomCallState → Bool
seeded s = elim s.flags [ none ↦ false | some d ↦ true ]

-- `x or {}`
abbrev pub or_empty : Option (Dict ℤ) → Dict ℤ
or_empty none = []
or_empty (some d) = d

put_user : Option Text → Raw → Dict ℤ → Dict ℤ
put_user none raw d = d
put_user (some s) raw d = put s (as_flags raw) d

-- The loop over a snapshot.
unfoldable pub fold_users : List Entry → Dict ℤ → Dict ℤ
unfolding put_user
fold_users [] d = d
fold_users (e ∷ es) d = fold_users es (put_user (session_id_of e) (or_null e.in_call) d)

put_changed : Option Text → Option Raw → Dict ℤ → Dict ℤ
put_changed none raw d = d
put_changed (some s) none d = d
put_changed (some s) (some raw) d = put s (as_flags raw) d

-- The loop over the changes.
unfoldable pub fold_changed : List Entry → Dict ℤ → Dict ℤ
unfolding put_changed
fold_changed [] d = d
fold_changed (e ∷ es) d = fold_changed es (put_changed (session_id_of e) e.in_call d)

-- The flags after one update.
unfoldable pub current_flags : Option (Dict ℤ) → Update → Dict ℤ
current_flags previous u =
    fold_changed u.changed (elim u.users [ none ↦ or_empty previous | some us ↦ fold_users us [] ])

-- `d.get(s, 0) & FLAG_IN_CALL`
unfoldable pub in_call : Dict ℤ → Text → Bool
in_call d s = elim (get s d) [ none ↦ false | some n ↦ in_call_bit n ]

unfoldable pub entered_from : Dict ℤ → Dict ℤ → List Text
entered_from previous current =
    keys_where (λ s now. in_call_bit now && not (in_call previous s)) current

unfoldable pub left_from : Dict ℤ → Dict ℤ → List Text
left_from previous current =
    keys_where (λ s was. in_call_bit was && not (in_call current s)) previous

-- The sets of an update that changes the first dict, if there is one, into the second.
abbrev moved : Option (Dict ℤ) → Dict ℤ → List Text × List Text
moved none current = ([], [])
moved (some previous) current = (entered_from previous current, left_from previous current)

unfoldable pub apply : RoomCallState → Update → RoomCallState × List Text × List Text
unfolding entered_from left_from
apply s u =
    let current = current_flags s.flags u in
    let (entered, left) = moved s.flags current in (record { flags = some current }, entered, left)

unfoldable pub accepted_by : List Text → List Text → Option Text
accepted_by entered ours = first_outside (sorted entered) ours

unfoldable pub others_in_call : RoomCallState → List Text → List Text
others_in_call s ours =
    keys_where (λ k flags. in_call_bit flags && not (elem k ours)) (or_empty s.flags)

unfoldable pub anyone_in_call_besides : RoomCallState → List Text → Bool
anyone_in_call_besides s ours =
    any_item (λ k flags. if elem k ours then false else in_call_bit flags) (or_empty s.flags)

unfoldable pub carries_audio : RoomCallState → Text → Bool
carries_audio s k = elim (get k (or_empty s.flags)) [ none ↦ false | some n ↦ audio_bit n ]
