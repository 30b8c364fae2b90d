-- ===== src/DialIn/Questions.antt =====
-- In which attempt, and of whom, each question of a dialogue is asked.
use talk_sip_bridge.Base.{
  ℕ, zero, suc, ◌≡◌, refl, sym, ◌⊎◌, inl, inr, Bool, true, false, Option, none, some, List, [], ◌∷◌,
  if◌then◌else◌,
}
use mathlib.Core.Path.{subst}
use talk_sip_bridge.Base.Text.{Text, codes}
use talk_sip_bridge.Base.Dict.{get}
use talk_sip_bridge.DialIn.Meeting.{Data, Outcome, ok, needs_pin, unknown, refused}
use talk_sip_bridge.DialIn.Trace.{play_asked, heard_out}
use talk_sip_bridge.DialIn.{
  Ivr, Setup, Asked, pass, announce, collect, Ended, Step, over, next, ask, latest, admitted,
  verdict, with_pin, ask_pin, answered, with_token, attempt, run,
}

-- The states at which the attempts of a dialogue begin.
pub data Reached (s : Setup) (d : Ivr) : Ivr → Type 0 where
  start : Reached s d d
  again : (e f : Ivr) → Reached s d e → attempt s e ≡ next f → Reached s d f

module _ (s : Setup) (e : Ivr) where
  -- In the attempt that begins at `e`: the number keyed in after the prompts, and the dialogue then.
  abbrev pub token_keyed : Text
  token_keyed = (collect (announce s s.prompts e)).0

  abbrev pub with_number : Ivr
  with_number = pass (collect (announce s s.prompts e)).1

  -- Nextcloud has been asked with it.
  abbrev pub first_asked : Ivr
  first_asked = ask s token_keyed none with_number

  -- The PIN keyed in after its prompts, and the dialogue then.
  abbrev pub pin_keyed : Text
  pin_keyed = (collect (announce s s.pin_prompts first_asked)).0

  abbrev pub with_both : Ivr
  with_both = pass (collect (announce s s.pin_prompts first_asked)).1

  -- The newest question of a list is the one for the meeting of the number, or the one with the PIN,
  -- for which the answer to the first has asked.
  abbrev pub IsQuestion : List Asked → Type 0
  IsQuestion xs =
      (xs ≡ first_asked.asked)
      ⊎ (((latest first_asked).0 ≡ needs_pin)
          × (xs ≡ (ask s token_keyed (some pin_keyed) with_both).asked))

  -- The same, of a caller who has not hung up by the time that the number, and the PIN, is keyed in.
  abbrev pub IsHeld : List Asked → Type 0
  IsHeld xs =
      ((with_number.stopped ≡ false) × (xs ≡ first_asked.asked))
      ⊎ ((with_number.stopped ≡ false)
          × (with_both.stopped ≡ false)
          × ((latest first_asked).0 ≡ needs_pin)
          × (xs ≡ (ask s token_keyed (some pin_keyed) with_both).asked))

  held-IsQuestion : (xs : List Asked) → IsHeld xs → IsQuestion xs
  held-IsQuestion xs (inl (here, q)) = inl q
  held-IsQuestion xs (inr (here, still, needed, q)) = inr (needed, q)

module _ (s : Setup) (d : Ivr) where
  -- Every question is one of an attempt of this dialogue.
  abbrev pub AreKeyed : List Asked → Type 0
  AreKeyed [] = Unit
  AreKeyed (a ∷ xs) = ((e : Ivr) × Reached s d e × IsQuestion s e (a ∷ xs)) × AreKeyed xs

  abbrev pub AreHeld : List Asked → Type 0
  AreHeld [] = Unit
  AreHeld (a ∷ xs) = ((e : Ivr) × Reached s d e × IsHeld s e (a ∷ xs)) × AreHeld xs

  held-AreKeyed : (xs : List Asked) → AreHeld xs → AreKeyed xs
  held-AreKeyed [] h = tt
  held-AreKeyed (a ∷ xs) ((e, r, q), h) =
      ((e, r, held-IsQuestion s e (a ∷ xs) q), held-AreKeyed xs h)

abbrev asked_of : Step → List Asked
asked_of (over ended d) = d.asked
asked_of (next d) = d.asked

admitted_asked :
    (s : Setup) (o : Option Text) (room : Data) (d : Ivr) → asked_of (admitted s o room d) ≡ d.asked
admitted_asked s none room d = refl
admitted_asked s (some token) room d = play_asked s s.accepted d

verdict_asked :
    (s : Setup) (o : Outcome) (r : Option Data) (d : Ivr) → asked_of (verdict s (o, r) d) ≡ d.asked
unfolding verdict
verdict_asked s ok (some room) d = admitted_asked s (get (codes "token") room) room d
verdict_asked s ok none d = refl
verdict_asked s refused r d = play_asked s s.rejected d
verdict_asked s needs_pin r d = play_asked s s.rejected d
verdict_asked s unknown r d = play_asked s s.rejected d

-- What holds of the questions so far, and of those with the ones that a part of an attempt adds,
-- holds of the questions after that part.
module _ (P : List Asked → Type 0) (s : Setup) where
  after_verdict :
      (o : Outcome) (r : Option Data) (d : Ivr) → P d.asked → P (asked_of (verdict s (o, r) d))
  after_verdict o r d p = subst P (sym (verdict_asked s o r d)) p

  unless :
      (b : Bool) (x y : Step)
      → P (asked_of x)
      → (b ≡ false → P (asked_of y))
      → P (asked_of (if b then x else y))
  unless true x y p q = p
  unless false x y p q = q refl

  after_pin :
      (token pin : Text) (d : Ivr)
      → P d.asked
      → P (ask s token (some pin) d).asked
      → P (asked_of (with_pin s token pin d))
  after_pin token [] d p q = after_verdict unknown none d p
  after_pin token (c ∷ cs) d p q =
      let e = ask s token (some (c ∷ cs)) d in after_verdict (latest e).0 (latest e).1 e q

  after_ask_pin :
      (token : Text) (d : Ivr)
      → P d.asked
      → (let (pin, e) = collect (announce s s.pin_prompts d) in
          (pass e).stopped ≡ false → P (ask s token (some pin) (pass e)).asked)
      → P (asked_of (ask_pin s token d))
  unfolding ask_pin
  after_ask_pin token d p q =
      let (pin, e) = collect (announce s s.pin_prompts d) in
      let same : P (pass e).asked = subst P (sym (heard_out s s.pin_prompts d)) p in
      unless (pass e).stopped _ _ same (λ h. after_pin token pin (pass e) same (q h))

  after_answer :
      (token : Text) (o : Outcome) (r : Option Data) (d : Ivr)
      → P d.asked
      → (o ≡ needs_pin → P (asked_of (ask_pin s token d)))
      → P (asked_of (answered s token (o, r) d))
  unfolding answered
  after_answer token needs_pin r d p q = q refl
  after_answer token ok r d p q = after_verdict ok r d p
  after_answer token unknown r d p q = after_verdict unknown r d p
  after_answer token refused r d p q = after_verdict refused r d p

  after_token :
      (token : Text) (d : Ivr)
      → P d.asked
      → P (ask s token none d).asked
      → (let e = ask s token none d in (latest e).0 ≡ needs_pin → P (asked_of (ask_pin s token e)))
      → P (asked_of (with_token s token d))
  after_token [] d p q k = subst P (sym (play_asked s s.rejected d)) p
  after_token (c ∷ cs) d p q k =
      let e = ask s (c ∷ cs) none d in after_answer (c ∷ cs) (latest e).0 (latest e).1 e q k

module _ (s : Setup) (d : Ivr) where
  attempt-AreHeld :
      (e : Ivr) → Reached s d e → AreHeld s d e.asked → AreHeld s d (asked_of (attempt s e))
  unfolding attempt ask
  attempt-AreHeld e r h =
      let P = AreHeld s d in
      let same : P (with_number s e).asked = subst P (sym (heard_out s s.prompts e)) h in
      unless P s (with_number s e).stopped _ _ same (λ here.
        let asked : P (first_asked s e).asked = ((e, r, inl (here, refl)), same) in
        after_token P s (token_keyed s e) (with_number s e) same asked (λ needed.
          after_ask_pin P s (token_keyed s e) (first_asked s e) asked (λ still. (
            (e, r, inr (here, still, needed, refl)),
            subst P (sym (heard_out s s.pin_prompts (first_asked s e))) asked,
          ))))

  run_on :
      (attempts : ℕ) (e : Ivr) (st : Step)
      → attempt s e ≡ st
      → Reached s d e
      → AreHeld s d (asked_of st)
      → ((f : Ivr) → Reached s d f → AreHeld s d f.asked → AreHeld s d (run attempts s f).1.asked)
      → let done : Ended × Ivr = elim st [
        | over ended f ↦ (ended, f)
        | next f ↦ run attempts s f
      ] in
        AreHeld s d done.1.asked
  run_on attempts e (over ended f) q r h go = h
  run_on attempts e (next f) q r h go = go f (again e f r q) h

  run-AreHeld :
      (attempts : ℕ) (e : Ivr)
      → Reached s d e
      → AreHeld s d e.asked
      → AreHeld s d (run attempts s e).1.asked
  unfolding run
  run-AreHeld zero e r h = h
  run-AreHeld (suc attempts) e r h =
      run_on attempts e (attempt s e) refl r (attempt-AreHeld e r h)
        (λ f q k. run-AreHeld attempts f q k)

-- Nextcloud is asked only of a caller who is there: each question is one of an attempt of the
-- dialogue in which the caller had not hung up once the number of the meeting was keyed in, nor, if
-- it is the one with the PIN, once that was.
pub only_held_callers_ask :
    (s : Setup) (attempts : ℕ) (d : Ivr) → d.asked ≡ [] → AreHeld s d (run attempts s d).1.asked
only_held_callers_ask s attempts d fresh =
    run-AreHeld s d attempts d start (subst (AreHeld s d) (sym fresh) tt)

pub run-AreKeyed :
    (s : Setup) (attempts : ℕ) (d : Ivr) → d.asked ≡ [] → AreKeyed s d (run attempts s d).1.asked
run-AreKeyed s attempts d fresh =
    held-AreKeyed s d (run attempts s d).1.asked (only_held_callers_ask s attempts d fresh)
