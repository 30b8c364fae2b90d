-- ===== src/DialIn/Trace.antt =====
-- What leaves the questions of a dialogue alone.
use talk_sip_bridge.Base.{
  ℕ, zero, suc, ◌≡◌, refl, ◌∙◌, Bool, true, false, Option, none, some, List, [], ◌∷◌, if◌then◌else◌,
  length,
}
use talk_sip_bridge.Base.Text.{Text}
use talk_sip_bridge.Base.Chunks.{chunks}
use talk_sip_bridge.DialIn.{
  Ivr, Setup, Asked, Samples, Happening, pressed, hung_up, happen, happen_all, press, stop, pass,
  play_chunks, play, waits_for_a_key, announce, Round, returned, so_far, after_round, next_digit,
  key_round, collect_rounds, collect, items, has_key, is_interrupted,
}

-- Nothing but `ask` asks.
happen_asked : (d : Ivr) (h : Happening) → (happen d h).asked ≡ d.asked
unfolding press stop
happen_asked d (pressed c) = refl
happen_asked d hung_up = refl

happen_all_asked : (d : Ivr) (hs : List Happening) → (happen_all d hs).asked ≡ d.asked
unfolding happen_all
happen_all_asked d [] = refl
happen_all_asked d (h ∷ hs) = happen_all_asked (happen d h) hs ∙ happen_asked d h

pass_asked_with :
    (d : Ivr) (ahead : List (List Happening)) → d.ahead ≡ ahead → (pass d).asked ≡ d.asked
unfolding pass
pass_asked_with d [] e = rw e refl
pass_asked_with d (hs ∷ rest) e = rw e (happen_all_asked (record d { ahead = rest }) hs)

pass_asked : (d : Ivr) → (pass d).asked ≡ d.asked
pass_asked d = pass_asked_with d d.ahead refl

-- Of two states that have asked the same, each has.
either_asked :
    (b : Bool) (e f : Ivr) (xs : List Asked)
    → e.asked ≡ xs
    → f.asked ≡ xs
    → (if b then e else f).asked ≡ xs
either_asked true e f xs p q = p
either_asked false e f xs p q = q

play_chunks_asked : (cs : List Samples) (d : Ivr) → (play_chunks cs d).asked ≡ d.asked
unfolding play_chunks
play_chunks_asked [] d = refl
play_chunks_asked (c ∷ cs) d =
    let e = pass d in
    let f = record e { heard = c ∷ e.heard } in
    either_asked (is_interrupted e) e (play_chunks cs f) d.asked (pass_asked d)
      (play_chunks_asked cs f ∙ pass_asked d)

pub play_asked : (s : Setup) (samples : Samples) (d : Ivr) → (play s samples d).asked ≡ d.asked
unfolding play
play_asked s samples d = play_chunks_asked (chunks (length samples) s.samples_per_packet samples) d

either_asked₁ :
    (b : Bool) (e f : Bool × Ivr) (xs : List Asked)
    → e.1.asked ≡ xs
    → f.1.asked ≡ xs
    → (if b then e else f).1.asked ≡ xs
either_asked₁ true e f xs p q = p
either_asked₁ false e f xs p q = q

waits_asked : (polls : ℕ) (d : Ivr) → (waits_for_a_key polls d).1.asked ≡ d.asked
unfolding waits_for_a_key
waits_asked zero d = pass_asked d
waits_asked (suc polls) d =
    let e = pass d in
    either_asked₁ (is_interrupted e) (has_key e, e) (waits_for_a_key polls e) d.asked (pass_asked d)
      (waits_asked polls e ∙ pass_asked d)

announce_asked :
    (s : Setup) (prompts : List Samples) (d : Ivr) → (announce s prompts d).asked ≡ d.asked
unfolding announce
announce_asked s [] d = refl
announce_asked s (p ∷ []) d =
    let e = pass d in
    either_asked (is_interrupted e) e (play s p e) d.asked (pass_asked d)
      (play_asked s p e ∙ pass_asked d)
announce_asked s (p ∷ q ∷ ps) d =
    let e = pass d in
    let (key_came, f) = waits_for_a_key s.gap_polls (play s p e) in
    let g = announce s (q ∷ ps) f in
    let waited : f.asked ≡ d.asked =
      waits_asked s.gap_polls (play s p e) ∙ play_asked s p e ∙ pass_asked d in
    either_asked (is_interrupted e) e (if key_came then f else g) d.asked (pass_asked d)
      (either_asked key_came f g d.asked waited (announce_asked s (q ∷ ps) f ∙ waited))

next_digit_asked_with :
    (d : Ivr) (ks : List (Option ℕ))
    → (pass d).digits ≡ ks
    → (next_digit d).1.asked ≡ (pass d).asked
unfolding next_digit
next_digit_asked_with d [] e = rw (next_digit, e) refl
next_digit_asked_with d (none ∷ ks) e = rw (next_digit, e) refl
next_digit_asked_with d (some c ∷ ks) e = rw (next_digit, e) refl

next_digit_asked : (d : Ivr) → (next_digit d).1.asked ≡ d.asked
next_digit_asked d = next_digit_asked_with d (pass d).digits refl ∙ pass_asked d

after_round_asked :
    (n : ℕ) (e f : Ivr) (stopped : Bool) (r : Round) (xs : List Asked)
    → ((t : Text) (d : Ivr) → (collect_rounds n t d).1.asked ≡ d.asked)
    → e.asked ≡ xs
    → f.asked ≡ xs
    → (after_round (collect_rounds n) e stopped r f).1.asked ≡ xs
after_round_asked n e f true r xs h p q = p
after_round_asked n e f false (returned t) xs h p q = q
after_round_asked n e f false (so_far t) xs h p q = h t f ∙ q

collect_rounds_asked : (n : ℕ) (t : Text) (d : Ivr) → (collect_rounds n t d).1.asked ≡ d.asked
unfolding collect_rounds
collect_rounds_asked zero t d = refl
collect_rounds_asked (suc n) t d =
    let (got, f) = next_digit (pass d) in
    after_round_asked n (pass d) f (pass d).stopped (key_round t got) d.asked
      (λ u e. collect_rounds_asked n u e) (pass_asked d) (next_digit_asked (pass d) ∙ pass_asked d)

-- After a prompt, the keys, and the others' turn.
pub heard_out :
    (s : Setup) (prompts : List Samples) (d : Ivr)
    → (pass (collect (announce s prompts d)).1).asked ≡ d.asked
unfolding collect
heard_out s prompts d =
    let e = announce s prompts d in
    pass_asked (collect e).1
    ∙ collect_rounds_asked (suc (items e)) [] e
    ∙ announce_asked s prompts d
