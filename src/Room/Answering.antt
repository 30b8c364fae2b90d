-- ===== src/Room/Answering.antt =====
-- What the room state says about others, and who counts as having answered.
use talk_sip_bridge.Base.{
  ◌≡◌, refl, true, false, not, ◌&&◌, Option, none, some, List, [], ◌∷◌, arith, if◌then◌else◌,
  Option-cases, Bool-cases, inl, inr, ap, sym, ◌≢◌, ◌∙◌,
}
use talk_sip_bridge.Base.Text.{Text, text_eq_iff}
use talk_sip_bridge.Base.Int.{ℤ}
use talk_sip_bridge.Base.Dict.{
  Dict, elem, get, keys_where, any_item, IsUnique, elem-keys_where, holds_at, is_empty,
}
use talk_sip_bridge.Base.Order.{
  text_leb, sorted, IsSorted, AllAbove, sorted-IsSorted, elem-sorted, first_outside,
  text_leb_antisym, text_leb_refl,
}
use talk_sip_bridge.Room.{
  RoomCallState, or_empty, in_call, accepted_by, others_in_call, anyone_in_call_besides,
}
use talk_sip_bridge.Room.Flags.{in_call_bit}
use talk_sip_bridge.Room.Transitions.{IsUnique?, member}

or_empty-IsUnique : (f : Option (Dict ℤ)) → IsUnique? f → IsUnique (or_empty f)
or_empty-IsUnique none u = tt
or_empty-IsUnique (some d) u = u

any_item-others :
    (ours : List Text) (d : Dict ℤ)
    → any_item (λ k flags. if elem k ours then false else in_call_bit flags) d
      ≡ not (is_empty (keys_where (λ k flags. in_call_bit flags && not (elem k ours)) d))
unfolding any_item keys_where
any_item-others ours [] = refl
any_item-others ours ((j, n) ∷ d) = ground (arith, any_item-others ours d)

holds_other :
    (ours : List Text) (k : Text) (o : Option ℤ)
    → holds_at (λ j flags. in_call_bit flags && not (elem j ours)) k o
      ≡ (elim o [ none ↦ false | some n ↦ in_call_bit n ] && not (elem k ours))
holds_other ours k none = refl
holds_other ours k (some n) = refl

-- The sessions that `others_in_call` gives are those in the call that are not the bridge's, and
-- `anyone_in_call_besides` is true exactly when it gives at least one.
pub others_are_members :
    (s : RoomCallState) (ours : List Text) (k : Text)
    → IsUnique? s.flags
    → (elem k (others_in_call s ours) ≡ (member s k && not (elem k ours)))
      × (anyone_in_call_besides s ours ≡ not (is_empty (others_in_call s ours)))
unfolding others_in_call anyone_in_call_besides in_call
others_are_members s ours k u = (
  elem-keys_where (λ j flags. in_call_bit flags && not (elem j ours)) k (or_empty s.flags)
        (or_empty-IsUnique s.flags u)
      ∙ holds_other ours k (get k (or_empty s.flags)),
  any_item-others ours (or_empty s.flags),
)

-- The answer to look for in a list: its least text outside `ours`.
pub record IsAnswer (xs ours : List Text) (x : Text) : Type 0 where
  pub listed : elem x xs ≡ true
  pub outside : elem x ours ≡ false
  pub least : (t : Text) → elem t xs ≡ true → elem t ours ≡ false → text_leb x t ≡ true

AllAbove-elem :
    (x t : Text) (ys : List Text) → AllAbove x ys → elem t ys ≡ true → text_leb x t ≡ true
unfolding elem
AllAbove-elem x t [] a e = cc
AllAbove-elem x t (y ∷ ys) a e = ground (arith, text_eq_iff y t, AllAbove-elem x t ys a.1)

-- What `first_outside` finds in a list in order.
first_outside-IsAnswer :
    (xs ours : List Text) {x : Text}
    → IsSorted xs
    → first_outside xs ours ≡ some x
    → IsAnswer xs ours x
unfolding first_outside elem
first_outside-IsAnswer [] ours s e = cc
first_outside-IsAnswer (y ∷ ys) ours {x} s e = elim (Bool-cases (elem y ours)) [
  | inl own ↦
      let rest = first_outside-IsAnswer ys ours {x = x} s.1 (ground arith) in
      record {
        listed = ground (arith, rest.listed);
        outside = rest.outside;
        least = λ t h k. ground (arith, text_eq_iff y t, rest.least t);
      }
  | inr other ↦ record {
    listed = ground (arith, text_eq_iff y x);
    outside = ground arith;
    least = λ t h k. ground (arith, text_eq_iff y t, text_leb_refl y, AllAbove-elem y t ys s.0);
  }
]

first_outside-none :
    (xs ours : List Text) (t : Text)
    → first_outside xs ours ≡ none
    → elem t xs ≡ true
    → elem t ours ≡ true
unfolding first_outside elem
first_outside-none [] ours t e h = cc
first_outside-none (y ∷ ys) ours t e h =
    ground (arith, text_eq_iff y t, first_outside-none ys ours t)

-- `accepted_by` gives the least of the sessions that entered and are not the bridge's own.
pub accepted_by_least :
    (entered ours : List Text) {s : Text}
    → accepted_by entered ours ≡ some s
    → IsAnswer entered ours s
unfolding accepted_by
accepted_by_least entered ours {s} h =
    let found = first_outside-IsAnswer (sorted entered) ours (sorted-IsSorted entered) h in
    record {
      listed = ground (arith, found.listed, elem-sorted s entered);
      outside = found.outside;
      least = λ t e o. found.least t (elem-sorted t entered ∙ e) o;
    }

pub accepted_by-none :
    (entered ours : List Text) (t : Text)
    → accepted_by entered ours ≡ none
    → elem t entered ≡ true
    → elem t ours ≡ true
unfolding accepted_by
accepted_by-none entered ours t h e =
    first_outside-none (sorted entered) ours t h (elem-sorted t entered ∙ e)

module _ (a b ours : List Text) (same : (k : Text) → elem k a ≡ elem k b) where
  both_answer : {x y : Text} → accepted_by a ours ≡ some x → accepted_by b ours ≡ some y → x ≡ y
  both_answer {x} {y} p q =
      let v = accepted_by_least a ours p in
      let w = accepted_by_least b ours q in
      text_leb_antisym x y (v.least y (same y ∙ w.listed) w.outside)
        (w.least x (sym (same x) ∙ v.listed) v.outside)

  one_answers : {x : Text} → accepted_by a ours ≡ some x → accepted_by b ours ≢ none
  one_answers {x} p q =
      let v = accepted_by_least a ours p in
      ground (arith, accepted_by-none b ours x q (sym (same x) ∙ v.listed), v.outside)

-- Two snapshots that list the same sessions, in whatever order and however often, are resolved to
-- the same answer.
accepted_by_stable :
    (a b ours : List Text)
    → ((k : Text) → elem k a ≡ elem k b)
    → accepted_by a ours ≡ accepted_by b ours
accepted_by_stable a b ours same = elim (Option-cases (accepted_by a ours)) [
  | inl p ↦ elim (Option-cases (accepted_by b ours)) [
    | inl q ↦ p ∙ sym q
    | inr (y, q) ↦ absurd (one_answers b a ours (λ k. sym (same k)) q p)
  ]
  | inr (x, p) ↦ elim (Option-cases (accepted_by b ours)) [
    | inl q ↦ absurd (one_answers a b ours same p q)
    | inr (y, q) ↦ p ∙ ap some (both_answer a b ours same p q) ∙ sym q
  ]
]
