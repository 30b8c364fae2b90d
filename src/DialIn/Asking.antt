-- ===== src/DialIn/Asking.antt =====
-- What the dialogue asks Nextcloud, and how it ends.
use talk_sip_bridge.Base.{
  ℕ, zero, suc, ◌+◌, ◌*◌, ◌≤◌, ◌<◌, ◌≡◌, refl, sym, Bool, true, false, Option, none, some, List, [],
  ◌∷◌, arith, if◌then◌else◌, length, All,
}
use mathlib.Core.Path.{subst}
use talk_sip_bridge.Base.Text.{Text}
use talk_sip_bridge.DialIn.Meeting.{Data, Outcome, ok, needs_pin, unknown, refused, is_ok}
use talk_sip_bridge.DialIn.Keys.{IsNumber, collect-IsNumber}
use talk_sip_bridge.DialIn.Trace.{play_asked, heard_out}
use talk_sip_bridge.DialIn.{
  Ivr, Setup, Asked, pass, play, announce, collect, Ended, left, Step, over, next, ask, latest,
  verdict, with_pin, ask_pin, answered, with_token, attempt, run,
}
use talk_sip_bridge.DialIn.Questions.{AreKeyed, run-AreKeyed}
use talk_sip_bridge.DialIn.Verdicts.{
  is_open, IsOpen, IsPin, IsKeyed, Follows, IsSound, IsSound-≤, StepFits, verdict_fits,
}

-- Asking puts what was asked, and the answer, before what was asked so far.
abbrev put_question : Setup → Text → Option Text → List Asked → Asked
put_question s token pin xs =
    let (outcome, room) = s.resolve (length xs) token pin in
    record { token = token; pin = pin; outcome = outcome; room = room }

-- A dialogue that may go on, with `n` questions at most behind it.
abbrev IsReady : Setup → ℕ → Ivr → Type 0
IsReady s n d = All IsOpen d.asked × IsSound s n d.asked

IsReady-same : (s : Setup) (n : ℕ) (d e : Ivr) → e.asked ≡ d.asked → IsReady s n d → IsReady s n e
IsReady-same s n d e same (h, k) =
    (subst (All IsOpen) (sym same) h, subst (IsSound s n) (sym same) k)

IsReady-more : (s : Setup) (n : ℕ) (d : Ivr) → IsReady s n d → IsReady s (suc n) d
IsReady-more s n d (h, k) = (h, IsSound-≤ s n (suc n) d.asked (ground arith) k)

ask_fits :
    (s : Setup) (n : ℕ) (token : Text) (pin : Option Text) (d : Ivr)
    → IsReady s n d
    → IsNumber token × (0 < length token) × IsPin pin
    → let e = ask s token pin d in StepFits s (suc n) (verdict s (latest e) e)
unfolding ask
ask_fits s n token pin d (h, k) good =
    let a = put_question s token pin d.asked in
    verdict_fits s (suc n) a d.asked (ask s token pin d) a.outcome a.room refl refl refl h
      (((good, (length d.asked, refl)), k.0), ground (arith, k.1))

rejected_fits : (s : Setup) (n : ℕ) (d : Ivr) → IsReady s n d → IsReady s n (play s s.rejected d)
rejected_fits s n d h = IsReady-same s n d (play s s.rejected d) (play_asked s s.rejected d) h

with_pin_fits :
    (s : Setup) (n : ℕ) (token pin : Text) (d : Ivr)
    → IsReady s n d
    → IsNumber token × (0 < length token)
    → IsNumber pin
    → StepFits s (suc n) (with_pin s token pin d)
unfolding verdict
with_pin_fits s n token [] d h t p = IsReady-more s n (play s s.rejected d) (rejected_fits s n d h)
with_pin_fits s n token (c ∷ cs) d h t p =
    ask_fits s n token (some (c ∷ cs)) d h (t.0, t.1, (p, ground arith))

not_ok : (o : Outcome) → is_open o ≡ true → is_ok o ≡ false
not_ok ok e = cc
not_ok needs_pin e = refl
not_ok unknown e = refl
not_ok refused e = refl

left_Follows : (xs : List Asked) → All IsOpen xs → Follows left xs
left_Follows [] h = tt
left_Follows (a ∷ xs) h = (not_ok a.outcome h.0, h.1)

-- Nothing is lost when a caller hangs up.
left_fits :
    (s : Setup) (n : ℕ) (d : Ivr) → IsReady s n d → Follows left d.asked × IsSound s n d.asked
left_fits s n d (h, k) = (left_Follows d.asked h, k)

ended_or :
    (s : Setup) (n : ℕ) (d : Ivr) (b : Bool) (st : Step)
    → IsReady s n d
    → StepFits s (suc n) st
    → StepFits s (suc n) (if b then over left d else st)
ended_or s n d true st h k = left_fits s (suc n) d (IsReady-more s n d h)
ended_or s n d false st h k = k

ask_pin_fits :
    (s : Setup) (n : ℕ) (token : Text) (d : Ivr)
    → IsReady s n d
    → IsNumber token × (0 < length token)
    → StepFits s (suc n) (ask_pin s token d)
unfolding ask_pin
ask_pin_fits s n token d h t =
    let (pin, e) = collect (announce s s.pin_prompts d) in
    let still : IsReady s n (pass e) =
      IsReady-same s n d (pass e) (heard_out s s.pin_prompts d) h in
    ended_or s n (pass e) (pass e).stopped (with_pin s token pin (pass e)) still
      (with_pin_fits s n token pin (pass e) still t (collect-IsNumber (announce s s.pin_prompts d)))

StepFits-more : (s : Setup) (n : ℕ) (st : Step) → StepFits s n st → StepFits s (suc n) st
StepFits-more s n (over ended d) (f, k) = (f, IsSound-≤ s n (suc n) d.asked (ground arith) k)
StepFits-more s n (next d) h = IsReady-more s n d h

-- What comes after the first answer, the newest question being `a`.
answered_fits :
    (s : Setup) (n : ℕ) (a : Asked) (xs : List Asked) (token : Text) (d : Ivr) (o : Outcome)
    (r : Option Data)
    → a.outcome ≡ o
    → a.room ≡ r
    → d.asked ≡ a ∷ xs
    → All IsOpen xs
    → IsSound s n (a ∷ xs)
    → IsNumber token × (0 < length token)
    → StepFits s (suc n) (answered s token (o, r) d)
unfolding answered
answered_fits s n a xs token d needs_pin r p q e h k t =
    ask_pin_fits s n token d (rw e ((rw p refl, h), k)) t
answered_fits s n a xs token d ok r p q e h k t =
    StepFits-more s n (verdict s (ok, r) d) (verdict_fits s n a xs d ok r p q e h k)
answered_fits s n a xs token d unknown r p q e h k t =
    StepFits-more s n (verdict s (unknown, r) d) (verdict_fits s n a xs d unknown r p q e h k)
answered_fits s n a xs token d refused r p q e h k t =
    StepFits-more s n (verdict s (refused, r) d) (verdict_fits s n a xs d refused r p q e h k)

with_token_fits :
    (s : Setup) (n : ℕ) (token : Text) (d : Ivr)
    → IsReady s n d
    → IsNumber token
    → StepFits s (suc (suc n)) (with_token s token d)
unfolding ask
with_token_fits s n [] d h t =
    let f = play s s.rejected d in
    IsReady-more s (suc n) f (IsReady-more s n f (rejected_fits s n d h))
with_token_fits s n (c ∷ cs) d h t =
    let a = put_question s (c ∷ cs) none d.asked in
    answered_fits s (suc n) a d.asked (c ∷ cs) (ask s (c ∷ cs) none d) a.outcome a.room refl refl
      refl h.0 ((((t, ground arith, tt), (length d.asked, refl)), h.1.0), ground (arith, h.1.1))
      (t, ground arith)

attempt_fits :
    (s : Setup) (n : ℕ) (d : Ivr) → IsReady s n d → StepFits s (suc (suc n)) (attempt s d)
unfolding attempt
attempt_fits s n d h =
    let (token, e) = collect (announce s s.prompts d) in
    let still : IsReady s n (pass e) = IsReady-same s n d (pass e) (heard_out s s.prompts d) h in
    ended_or s (suc n) (pass e) (pass e).stopped (with_token s token (pass e))
      (IsReady-more s n (pass e) still)
      (with_token_fits s n token (pass e) still (collect-IsNumber (announce s s.prompts d)))

abbrev RunFits : Setup → ℕ → Ended × Ivr → Type 0
RunFits s n (ended, d) = Follows ended d.asked × IsSound s n d.asked

run_step :
    (s : Setup) (attempts n m : ℕ) (st : Step)
    → n ≤ m
    → ((d : Ivr) → IsReady s n d → RunFits s m (run attempts s d))
    → StepFits s n st
    → RunFits s m (elim st [ over ended e ↦ (ended, e) | next e ↦ run attempts s e ])
run_step s attempts n m (over ended d) l go (f, k) = (f, IsSound-≤ s n m d.asked l k)
run_step s attempts n m (next d) l go h = go d h

run_fits :
    (s : Setup) (attempts n m : ℕ) (d : Ivr)
    → attempts * 2 + n ≤ m
    → IsReady s n d
    → RunFits s m (run attempts s d)
unfolding run
run_fits s zero n m d l (h, k) = (left_Follows d.asked h, IsSound-≤ s n m d.asked (omega arith) k)
run_fits s (suc attempts) n m d l h =
    run_step s attempts (suc (suc n)) m (attempt s d) (omega arith)
      (λ e k. run_fits s attempts (suc (suc n)) m e (omega arith) k) (attempt_fits s n d h)

-- However a caller and Nextcloud behave: where a dialogue ends in a room, the newest answer is OK
-- with that room; where it ends without one, the newest answer, if there is any, is not OK; and it
-- fails only on an OK whose room has no token. Every answer before the newest left the end open.
-- Nextcloud is asked twice an attempt at most, with numbers of 1 to 32 keys without # and *: in one
-- of the attempts of this dialogue, first with the number that the caller keyed in after the
-- prompts of that attempt, and, only where that is answered by the need of a PIN, again with that
-- number and the PIN that was keyed in after the prompts for it.
pub run_heeds_nextcloud :
    (s : Setup) (attempts : ℕ) (d : Ivr)
    → d.asked ≡ []
    → let (ended, e) = run attempts s d in
      Follows ended e.asked
      × All (IsKeyed s) e.asked
      × (length e.asked ≤ attempts * 2)
      × AreKeyed s d e.asked
run_heeds_nextcloud s attempts d fresh =
    let (f, k) =
      run_fits s attempts 0 (attempts * 2) d (omega arith)
        (subst (All IsOpen) (sym fresh) tt, subst (IsSound s 0) (sym fresh) (tt, ground arith)) in
    (f, k.0, k.1, run-AreKeyed s attempts d fresh)
