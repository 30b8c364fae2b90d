-- ===== src/Subscription.antt =====
-- bridge/subscription.py: the negotiation of one subscription, as states and transitions.
-- A method returns the new object beside its `Step`. Delays are milliseconds.
pub mod Budget
pub mod Generations
use talk_sip_bridge.Base.{
  ℕ, ◌+◌, Bool, true, false, Option, none, some, List, [], ◌∷◌, ◌==◌, leb, not, if◌then◌else◌,
}
use talk_sip_bridge.Base.Text.{Text}

abbrev pub max_attempts_default : ℕ
max_attempts_default = 6

abbrev pub request_delay_default : ℕ
request_delay_default = 5000

abbrev pub rebuild_delay_default : ℕ
rebuild_delay_default = 3000

pub data State : Type 0 where
  idle requested answering connecting flowing given_up closed : State

pub data Action : Type 0 where
  nothing request answer rebuild give_up : Action

pub record Step : Type 0 where
  pub action : Action
  pub delay : ℕ
  pub sid : Option Text
  pub generation : ℕ

-- `Step()`
abbrev pub no_step : Step
no_step = record { action = nothing; delay = 0; sid = none; generation = 0 }

pub record Subscription : Type 0 where
  pub state : State
  pub max_attempts : ℕ
  pub request_delay : ℕ
  pub rebuild_delay : ℕ
  pub attempts : ℕ
  pub generation : ℕ
  pub sid : Option Text

-- `Subscription.__init__`
unfoldable pub new : ℕ → ℕ → ℕ → Subscription
new max_attempts request_delay rebuild_delay = record {
  state = idle;
  max_attempts = max_attempts;
  request_delay = request_delay;
  rebuild_delay = rebuild_delay;
  attempts = 0;
  generation = 0;
  sid = none;
}

abbrev pub is_idle : State → Bool
is_idle idle = true
is_idle _ = false

abbrev pub is_answering : State → Bool
is_answering answering = true
is_answering _ = false

abbrev pub is_closed : State → Bool
is_closed closed = true
is_closed _ = false

-- `state in (FLOWING, CLOSED, GIVEN_UP)`
abbrev pub is_settled : State → Bool
is_settled flowing = true
is_settled closed = true
is_settled given_up = true
is_settled _ = false

unfoldable pub start : Subscription → Subscription × Step
start s =
    if not (is_idle s.state)
    then (s, no_step)
    else (record s { state = requested; attempts = 1 }, record no_step { action = request })

unfoldable pub answer_sent : Subscription → ℕ → Subscription × Step
answer_sent s generation =
    if not (is_answering s.state)
    then (s, no_step)
    else if not (generation == s.generation)
    then (s, no_step)
    else (record s { state = connecting }, no_step)

unfoldable pub offer : Subscription → Text → Subscription × Step
offer s sid = if is_settled s.state then (s, no_step) else (
  record s { generation = s.generation + 1; sid = some sid; state = answering },
  record { action = answer; delay = 0; sid = some sid; generation = s.generation + 1 },
)

-- `_retry`
unfoldable pub retry : Subscription → Action → ℕ → Subscription × Step
retry s action delay =
    if leb s.max_attempts s.attempts
    then (record s { state = given_up }, record no_step { action = give_up })
    else (
      record s { attempts = s.attempts + 1; state = requested; generation = s.generation + 1 },
      record { action = action; delay = delay; sid = none; generation = s.generation + 1 },
    )

-- `generation is not None and generation != self.generation`
abbrev pub is_superseded : Option ℕ → ℕ → Bool
is_superseded none current = false
is_superseded (some g) current = not (g == current)

unfoldable pub refused : Subscription → Option ℕ → Subscription × Step
unfolding retry
refused s generation =
    if is_settled s.state
    then (s, no_step)
    else if is_superseded generation s.generation
    then (s, no_step)
    else retry s rebuild s.rebuild_delay

unfoldable pub no_publisher : Subscription → Subscription × Step
unfolding retry
no_publisher s =
    if is_settled s.state
    then (s, no_step)
    else if is_idle s.state
    then (s, no_step)
    else retry s request s.request_delay

unfoldable pub media_arrived : Subscription → Subscription × Step
media_arrived s =
    if is_closed s.state then (s, no_step) else (record s { state = flowing }, no_step)

unfoldable pub close : Subscription → Subscription × Step
close s = (record s { state = closed }, no_step)

unfoldable pub still_current : Subscription → Step → Bool
still_current s step = if is_settled s.state then false else step.generation == s.generation

-- `working`
unfoldable pub working : Subscription → Bool
working s = elim s.state [ flowing ↦ true | _ ↦ false ]

-- What can happen to a subscription: one constructor for each public method.
pub data Event : Type 0 where
  starts : Event
  answer_goes : ℕ → Event
  offers : Text → Event
  refuses : Option ℕ → Event
  lacks_publisher : Event
  media : Event
  closes : Event

unfoldable pub step : Subscription → Event → Subscription × Step
unfolding start answer_sent offer refused no_publisher media_arrived close
step s starts = start s
step s (answer_goes g) = answer_sent s g
step s (offers sid) = offer s sid
step s (refuses g) = refused s g
step s lacks_publisher = no_publisher s
step s media = media_arrived s
step s closes = close s

-- A history: the object after it, and the steps handed out, in order.
unfoldable pub run : Subscription → List Event → Subscription × List Step
run s [] = (s, [])
run s (e ∷ es) = let (s', st) = step s e in let (s'', sts) = run s' es in (s'', st ∷ sts)
