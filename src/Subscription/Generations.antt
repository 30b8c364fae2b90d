-- ===== src/Subscription/Generations.antt =====
-- Superseded negotiations change nothing, and sound is not disturbed.
use talk_sip_bridge.Base.{
  ℕ, ◌≤◌, ◌<◌, ◌≡◌, ◌≢◌, refl, true, false, some, List, [], ◌∷◌, All, arith, inl, inr, ◌⊎◌,
}
use talk_sip_bridge.Subscription.{
  Subscription, Step, Event, idle, flowing, closed, closes, refuses, answer_goes, no_step, step,
  run, still_current, is_settled,
}

-- A history without the end of the call.
abbrev pub GoesOn : Event → Type 0
GoesOn e = e ≢ closes

flowing_step :
    (s : Subscription) (e : Event) → s.state ≡ flowing → e ≢ closes → step s e ≡ (s, no_step)
unfolding step
flowing_step s e f h = ground arith

abbrev pub Quiet : Step → Type 0
Quiet st = st ≡ no_step

-- Once audio flows, nothing but the end of the call changes the subscription: every later offer,
-- refusal or report leaves it as it is and asks for nothing.
flowing_absorbs :
    (s : Subscription) (es : List Event)
    → s.state ≡ flowing
    → All GoesOn es
    → ((run s es).0 ≡ s) × All Quiet (run s es).1
unfolding run
flowing_absorbs s [] f h = (refl, tt)
flowing_absorbs s (e ∷ es) f h =
    rw (flowing_step s e f h.0) (let rest = flowing_absorbs s es f h.1 in (rest.0, (refl, rest.1)))

closed-step : (s : Subscription) (e : Event) → s.state ≡ closed → step s e ≡ (s, no_step)
unfolding step
closed-step s e f = ground arith

-- After the end of the call no event changes the subscription or asks for anything.
closed_absorbs :
    (s : Subscription) (es : List Event)
    → s.state ≡ closed
    → ((run s es).0 ≡ s) × All Quiet (run s es).1
unfolding run
closed_absorbs s [] f = (refl, tt)
closed_absorbs s (e ∷ es) f =
    rw (closed-step s e f) (let rest = closed_absorbs s es f in (rest.0, (refl, rest.1)))

-- An answer sent for, or a refusal of, another generation than the live one changes nothing and
-- asks for nothing.
superseded_ignored :
    (s : Subscription) (g : ℕ)
    → g ≢ s.generation
    → (step s (answer_goes g) ≡ (s, no_step)) × (step s (refuses (some g)) ≡ (s, no_step))
unfolding step
superseded_ignored s g h = ground arith

-- An event that asks for something starts a new generation, unless it is the very first request or
-- gives up; no event goes back.
step_generation :
    (s : Subscription) (e : Event)
    → s.state ≢ idle
    → ((step s e).0.state ≢ idle)
      × (s.generation ≤ (step s e).0.generation)
      × (((step s e).1 ≡ no_step)
          ⊎ (s.generation < (step s e).0.generation)
          ⊎ (is_settled (step s e).0.state ≡ true))
unfolding step
step_generation s e h = ground arith

-- What is settled stays settled.
step_settled :
    (s : Subscription) (e : Event)
    → is_settled s.state ≡ true
    → (is_settled (step s e).0.state ≡ true)
unfolding step
step_settled s e h = ground arith

run_settled :
    (s : Subscription) (es : List Event)
    → is_settled s.state ≡ true
    → is_settled (run s es).0.state ≡ true
unfolding run
run_settled s [] h = h
run_settled s (e ∷ es) h = run_settled (step s e).0 es (step_settled s e h)

run_generation :
    (s : Subscription) (es : List Event) → s.state ≢ idle → s.generation ≤ (run s es).0.generation
unfolding run
run_generation s [] h = omega arith
run_generation s (e ∷ es) h =
    let p = step_generation s e h in omega (arith, p.1, run_generation (step s e).0 es p.0)

still_current_fields :
    (s : Subscription) (st : Step)
    → still_current s st ≡ true
    → (is_settled s.state ≡ false) × (st.generation ≡ s.generation)
unfolding still_current
still_current_fields s st c = ground arith

-- After a history, a step of the live generation that still counts as current has not been
-- overtaken: every event of that history asked for nothing, and the subscription has not settled.
still_current-Quiet :
    (s : Subscription) (es : List Event) (st : Step)
    → s.state ≢ idle
    → st.generation ≡ s.generation
    → still_current (run s es).0 st ≡ true
    → All Quiet (run s es).1 × (is_settled (run s es).0.state ≡ false)
unfolding run
still_current-Quiet s [] st h g c = (tt, (still_current_fields s st c).0)
still_current-Quiet s (e ∷ es) st h g c =
    let (asked, grows, kinds) = step_generation s e h in
    let later = run_generation (step s e).0 es asked in
    let (live, same) = still_current_fields (run (step s e).0 es).0 st c in
    let rest = still_current-Quiet (step s e).0 es st asked (omega arith) c in
    elim kinds [
      | inl none_asked ↦ ((none_asked, rest.0), rest.1)
      | inr (inl overtaken) ↦ absurd (omega arith)
      | inr (inr settled) ↦ cc (run_settled (step s e).0 es settled)
    ]
