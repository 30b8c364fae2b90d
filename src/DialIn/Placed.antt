-- ===== src/DialIn/Placed.antt =====
-- A dialogue that asks Nextcloud by `join_by_meeting_id`, and one that the caller has left.
use talk_sip_bridge.Base.{
  ℕ, zero, suc, ◌≡◌, refl, sym, ap, ◌∙◌, Bool, true, false, ◌||◌, Option, none, some, List, [], ◌∷◌,
  if◌then◌else◌, All,
}
use mathlib.Core.Path.{subst}
use talk_sip_bridge.Base.Text.{Text, codes}
use talk_sip_bridge.Base.Dict.{get}
use talk_sip_bridge.DialIn.Meeting.{
  is_named, Data, Outcome, Post, Joined, join_by_meeting_id, is_ok, names_a_room, join_posts_digits,
}
use talk_sip_bridge.DialIn.Asking.{run_heeds_nextcloud}
use talk_sip_bridge.DialIn.Verdicts.{is_present, has_token, Follows, IsKeyed}
use talk_sip_bridge.DialIn.{
  Step, over, next, has_key, waits_for_a_key, play, with_token, Ivr, Setup, Asked, Ended, entered,
  left, failed, run, attempt, pass, announce, collect, collect_rounds, Samples, items, next_digit,
  key_round, after_round, happen_all, happen, Happening, pressed, hung_up, press, stop,
}

abbrev answer_of : Joined → Outcome × Option Data
answer_of j = (j.outcome, j.room)

-- `self.resolve` where no other is given.
unfoldable pub resolve_by_meeting_id :
    (ℕ → Post) → Text → ℕ → Text → Option Text → Outcome × Option Data
resolve_by_meeting_id post secret i token pin =
    answer_of (join_by_meeting_id (post i) secret token pin)

abbrev pub joining : Setup → (ℕ → Post) → Text → Setup
joining s post secret = record s { resolve = resolve_by_meeting_id post secret }

-- In no room, or in one that has a token.
abbrev pub IsPlaced : Ended → Type 0
IsPlaced (entered room) = names_a_room (some room) ≡ true
IsPlaced left = Unit
IsPlaced failed = ⊥

answer_names :
    (post : ℕ → Post) (secret : Text) (i : ℕ) (token : Text) (pin : Option Text) (o : Outcome)
    (r : Option Data)
    → resolve_by_meeting_id post secret i token pin ≡ (o, r)
    → names_a_room r ≡ is_ok o
unfolding resolve_by_meeting_id
answer_names post secret i token pin o r e =
    let (allowed, one, named) = join_posts_digits (post i) secret token pin in
    subst (λ x. names_a_room x.1 ≡ is_ok x.0) e named

is_named_at : (o : Option Text) → is_present o ≡ false → is_named o ≡ false
is_named_at none e = refl
is_named_at (some t) e = cc

unnamed_without_token : (r : Option Data) → has_token r ≡ false → names_a_room r ≡ false
unfolding names_a_room
unnamed_without_token none e = refl
unnamed_without_token (some room) e = is_named_at (get (codes "token") room) e

IsPlaced-by :
    (s : Setup) (post : ℕ → Post) (secret : Text) (ended : Ended) (xs : List Asked)
    → Follows ended xs
    → All (IsKeyed (joining s post secret)) xs
    → IsPlaced ended
unfolding names_a_room
IsPlaced-by s post secret left xs f k = tt
IsPlaced-by s post secret (entered room) [] f k = elim f [ ]
IsPlaced-by s post secret failed [] f k = elim f [ ]
IsPlaced-by s post secret (entered room) (a ∷ xs) (is_fine, in_room, rest) ((keyed, (i, e)), ks) =
    let named = answer_names post secret i a.token a.pin a.outcome a.room e in
    ap names_a_room (sym in_room) ∙ named ∙ ap is_ok is_fine
IsPlaced-by s post secret failed (a ∷ xs) (is_fine, in_room, rest) ((keyed, (i, e)), ks) =
    let named = answer_names post secret i a.token a.pin a.outcome a.room e in
    let unnamed = unnamed_without_token a.room in_room in let never = named ∙ ap is_ok is_fine in cc

-- With `join_by_meeting_id`, whatever Nextcloud answers, a dialogue ends in a room that has a token,
-- or in none; it never fails on a room without one.
pub caller_finds_room :
    (s : Setup) (post : ℕ → Post) (secret : Text) (attempts : ℕ) (d : Ivr)
    → d.asked ≡ []
    → IsPlaced (run attempts (joining s post secret) d).0
caller_finds_room s post secret attempts d fresh =
    let (ended, e) = run attempts (joining s post secret) d in
    let (f, k, bounded, keyed) = run_heeds_nextcloud (joining s post secret) attempts d fresh in
    IsPlaced-by s post secret ended e.asked f k

-- A caller who has gone, in a dialogue that has played and asked no more than another.
abbrev pub IsGone : Ivr → Ivr → Type 0
IsGone d e = (e.stopped ≡ true) × (e.heard ≡ d.heard) × (e.asked ≡ d.asked)

IsGone-trans : (d e f : Ivr) → IsGone d e → IsGone e f → IsGone d f
IsGone-trans d e f (s, h, a) (t, i, b) = (t, i ∙ h, b ∙ a)

happen-IsGone : (d : Ivr) (h : Happening) → d.stopped ≡ true → IsGone d (happen d h)
unfolding press stop
happen-IsGone d (pressed c) s = (s, refl, refl)
happen-IsGone d hung_up s = (refl, refl, refl)

happen_all-IsGone : (d : Ivr) (hs : List Happening) → d.stopped ≡ true → IsGone d (happen_all d hs)
unfolding happen_all
happen_all-IsGone d [] s = (s, refl, refl)
happen_all-IsGone d (h ∷ hs) s =
    let gone = happen-IsGone d h s in
    IsGone-trans d (happen d h) (happen_all (happen d h) hs) gone
      (happen_all-IsGone (happen d h) hs gone.0)

pass-IsGone_with :
    (d : Ivr) (ahead : List (List Happening))
    → d.ahead ≡ ahead
    → d.stopped ≡ true
    → IsGone d (pass d)
unfolding pass
pass-IsGone_with d [] e s = rw e (s, refl, refl)
pass-IsGone_with d (hs ∷ rest) e s = rw e (happen_all-IsGone (record d { ahead = rest }) hs s)

pass-IsGone : (d : Ivr) → d.stopped ≡ true → IsGone d (pass d)
pass-IsGone d s = pass-IsGone_with d d.ahead refl s

-- What is chosen where the caller has gone.
if_IsGone : (d e f : Ivr) (key : Bool) → IsGone d e → IsGone d (if e.stopped || key then e else f)
if_IsGone d e f key g = subst (λ b. IsGone d (if b || key then e else f)) (sym g.0) g

announce-IsGone :
    (s : Setup) (prompts : List Samples) (d : Ivr)
    → d.stopped ≡ true
    → IsGone d (announce s prompts d)
unfolding announce
announce-IsGone s [] d h = (h, refl, refl)
announce-IsGone s (p ∷ []) d h =
    let e = pass d in if_IsGone d e (play s p e) (has_key e) (pass-IsGone d h)
announce-IsGone s (p ∷ q ∷ ps) d h =
    let e = pass d in
    let (key_came, f) = waits_for_a_key s.gap_polls (play s p e) in
    if_IsGone d e (if key_came then f else announce s (q ∷ ps) f) (has_key e) (pass-IsGone d h)

collect-IsGone : (d : Ivr) → d.stopped ≡ true → IsGone d (collect d).1
unfolding collect collect_rounds
collect-IsGone d h =
    let gone = pass-IsGone d h in
    let (got, f) = next_digit (pass d) in
    subst (λ b. IsGone d (after_round (collect_rounds (items d)) (pass d) b (key_round [] got) f).1)
      (sym gone.0) gone

-- A dialogue that ended without a room and without another sound or question.
abbrev pub IsLeft : Ivr → Ended × Ivr → Type 0
IsLeft d (ended, e) = (ended ≡ left) × (e.heard ≡ d.heard) × (e.asked ≡ d.asked)

left_at_once :
    (s : Setup) (attempts : ℕ) (d e : Ivr) (st : Step)
    → IsGone d e
    → IsLeft d (elim (if e.stopped then over left e else st) [
      | over ended f ↦ (ended, f)
      | next f ↦ run attempts s f
    ])
left_at_once s attempts d e st g =
    subst
      (λ b. IsLeft d (elim (if b then over left e else st) [
        | over ended f ↦ (ended, f)
        | next f ↦ run attempts s f
      ]))
      (sym g.0) (refl, g.1, g.2)

-- Where the caller had hung up before it began, `run` ends without a room, plays nothing more and
-- asks nothing more.
gone_caller_ends :
    (s : Setup) (attempts : ℕ) (d : Ivr) → d.stopped ≡ true → IsLeft d (run attempts s d)
unfolding run attempt
gone_caller_ends s zero d h = (refl, refl, refl)
gone_caller_ends s (suc attempts) d h =
    let listened = announce s s.prompts d in
    let (token, e) = collect listened in
    let a = announce-IsGone s s.prompts d h in
    let c = collect-IsGone listened a.0 in
    let gone =
      IsGone-trans d listened (pass e) a (IsGone-trans listened e (pass e) c (pass-IsGone e c.0)) in
    left_at_once s attempts d (pass e) (with_token s token (pass e)) gone
