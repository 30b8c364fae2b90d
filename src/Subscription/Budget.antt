-- ===== src/Subscription/Budget.antt =====
-- Repairs are bounded, delayed, and given up on once.
use talk_sip_bridge.Base.{ℕ, zero, suc, ◌+◌, ◌≤◌, ◌<◌, ◌≡◌, List, [], ◌∷◌, ◌≢◌, replicate, arith}
use talk_sip_bridge.Subscription.{
  Subscription, State, Action, Step, Event, idle, requested, flowing, given_up, closed, request,
  rebuild, give_up, lacks_publisher, starts, new, step, run,
}

-- Steps that spend an attempt, and steps that give up.
abbrev pub is_attempt : Action → ℕ
is_attempt request = 1
is_attempt rebuild = 1
is_attempt _ = 0

abbrev pub is_give_up : Action → ℕ
is_give_up give_up = 1
is_give_up _ = 0

abbrev pub attempts_in : List Step → ℕ
attempts_in [] = 0
attempts_in (st ∷ sts) = is_attempt st.action + attempts_in sts

abbrev pub give_ups_in : List Step → ℕ
give_ups_in [] = 0
give_ups_in (st ∷ sts) = is_give_up st.action + give_ups_in sts

abbrev pub has_ended : State → ℕ
has_ended flowing = 1
has_ended given_up = 1
has_ended closed = 1
has_ended _ = 0

-- What holds of a subscription between two events.
pub record Inv (s : Subscription) : Type 0 where
  pub within : s.attempts ≤ s.max_attempts
  pub unasked : s.state ≡ idle → s.attempts ≡ 0
  pub room : 0 < s.max_attempts

pub step-Inv : (s : Subscription) (e : Event) → Inv s → Inv (step s e).0
unfolding step
step-Inv s e h = ground arith

-- One event accounts for the attempt that its step spends.
step_attempts :
    (s : Subscription) (e : Event)
    → Inv s
    → ((step s e).0.attempts ≡ s.attempts + is_attempt (step s e).1.action)
      × ((step s e).0.max_attempts ≡ s.max_attempts)
unfolding step
step_attempts s e h = ground arith

run_attempts :
    (s : Subscription) (es : List Event)
    → Inv s
    → (attempts_in (run s es).1 + s.attempts ≡ (run s es).0.attempts)
      × ((run s es).0.attempts ≤ s.max_attempts)
unfolding run
run_attempts s [] h = omega arith
run_attempts s (e ∷ es) h =
    omega (arith, step_attempts s e h, run_attempts (step s e).0 es (step-Inv s e h))

-- From a fresh subscription with room for one attempt, whatever happens in whatever order, the
-- requests and rebuilds handed out are as many as the attempts counted, and never more than
-- `max_attempts` in all.
pub attempts_bounded :
    (max_attempts request_delay rebuild_delay : ℕ) (es : List Event)
    → 0 < max_attempts
    → let (s, steps) = run (new max_attempts request_delay rebuild_delay) es in
      (attempts_in steps ≡ s.attempts) × (attempts_in steps ≤ max_attempts)
unfolding new
attempts_bounded m q r es h = omega (arith, run_attempts (new m q r) es (ground arith))

-- Only `GIVEN_UP` is entered by giving up, and it is left for `FLOWING` and `CLOSED` only.
step_give_up :
    (s : Subscription) (e : Event)
    → is_give_up (step s e).1.action + has_ended s.state ≤ has_ended (step s e).0.state
unfolding step
step_give_up s e = ground arith

-- In any history the subscription gives up at most once, and not at all once it has ended.
gives_up_once :
    (s : Subscription) (es : List Event) → give_ups_in (run s es).1 + has_ended s.state ≤ 1
unfolding run
gives_up_once s [] = ground arith
gives_up_once s (e ∷ es) = omega (arith, step_give_up s e, gives_up_once (step s e).0 es)

-- The delay that comes with each kind of step.
abbrev pub delay_of : Subscription → Step → ℕ
delay_of s st = elim st.action [ request ↦ s.request_delay | rebuild ↦ s.rebuild_delay | _ ↦ 0 ]

-- After the first request every repair waits: in any state but `IDLE`, a step that asks again
-- carries the request delay, one that rebuilds the rebuild delay, and every other step no delay.
repairs_delayed :
    (s : Subscription) (e : Event) → s.state ≢ idle → (step s e).1.delay ≡ delay_of s (step s e).1
unfolding step
repairs_delayed s e h = ground arith

-- A machine that waits for a publisher and has spent `max_attempts - k` attempts.
record Waiting (k : ℕ) (s : Subscription) : Type 0 where
  asking : s.state ≡ requested
  left : s.attempts + k ≡ s.max_attempts

Waiting-retry :
    (k : ℕ) (s : Subscription)
    → Waiting (suc k) s
    → Waiting k (step s lacks_publisher).0 × ((step s lacks_publisher).1.action ≡ request)
unfolding step
Waiting-retry k s h = ground arith

Waiting-gives_up :
    (s : Subscription)
    → Waiting 0 s
    → ((step s lacks_publisher).0.state ≡ given_up) × ((step s lacks_publisher).1.action ≡ give_up)
unfolding step
Waiting-gives_up s h = ground arith

Waiting-runs :
    (k : ℕ) (s : Subscription)
    → Waiting k s
    → let (s', steps) = run s (replicate (suc k) lacks_publisher) in
      (s'.state ≡ given_up) × (attempts_in steps ≡ k) × (give_ups_in steps ≡ 1)
unfolding run
Waiting-runs zero s h = ground (arith, Waiting-gives_up s h)
Waiting-runs (suc k) s h =
    let w = Waiting-retry k s h in
    ground (arith, w.1, Waiting-runs k (step s lacks_publisher).0 w.0)

-- If the publisher never appears, the subscription asks `max_attempts` times in all, the first
-- request included, and the next report of a missing publisher makes it give up.
pub absent_publisher_gives_up :
    (k request_delay rebuild_delay : ℕ)
    → let (s, steps) =
        run
          (new (suc k) request_delay rebuild_delay)
          (starts ∷ replicate (suc k) lacks_publisher) in
      (s.state ≡ given_up) × (attempts_in steps ≡ suc k) × (give_ups_in steps ≡ 1)
unfolding run new step
absent_publisher_gives_up k q r =
    ground (arith, Waiting-runs k (step (new (suc k) q r) starts).0 (ground arith))
