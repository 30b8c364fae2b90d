-- ===== src/Registrar/Wanted.antt =====
-- A line that is wanted stays wanted and keeps being refreshed, whatever the gateway answers, and a
-- line that is off stays off.
use talk_sip_bridge.Base.{
  ◌≡◌, refl, ◌≢◌, Bool, true, false, Option, none, some, List, [], ◌∷◌, arith, if◌then◌else◌, All,
}
use talk_sip_bridge.Base.Text.{Text}
use talk_sip_bridge.Registrar.{
  Registrar, Setup, Exchange, Outcome, accepted, refused, raised, do_register, noted, is_accepted,
  turned_on, turn_on, turned_off, turn_off, wipe_all_bindings, refreshed, keepalive_round, Event,
  turns_on, turns_off, wipes, wakes, happen, happen_all, unpersist,
}

-- The line is wanted, and its keepalive runs and is not told to stop.
pub record IsOn (s : Registrar) : Type 0 where
  pub wanted : s.wanted ≡ true
  pub alive : s.keepalive ≡ true
  pub running : s.stopped ≡ false

pub record IsOff (s : Registrar) : Type 0 where
  pub unwanted : s.wanted ≡ false
  pub unregistered : s.registered ≡ false

abbrev pub Continues : Event → Type 0
Continues (turns_off persists x) = ⊥
Continues _ = Unit

abbrev pub Rests : Event → Type 0
Rests (turns_on x) = ⊥
Rests _ = Unit

turned_on-IsOn : (e : Setup) (s : Registrar) (o : Outcome) → IsOn s → IsOn (turned_on e s o).0
unfolding turned_on
turned_on-IsOn e s o v = ground arith

noted-IsOn : (s : Registrar) (o : Outcome) → IsOn s → IsOn (noted o s)
noted-IsOn s o v = ground arith

refreshed-IsOn : (t : Text) (s : Registrar) (o : Outcome) → IsOn s → IsOn (refreshed t s o)
unfolding refreshed
refreshed-IsOn t s o v = ground arith

happen-IsOn : (e : Setup) (s : Registrar) (x : Event) → Continues x → IsOn s → IsOn (happen e s x)
unfolding happen turn_on wipe_all_bindings keepalive_round
happen-IsOn e s (turns_on x) c v =
    let on : IsOn (record s { wanted = true }) = record {
      wanted = refl;
      alive = v.alive;
      running = v.running;
    } in
    ground (
      arith,
      turned_on-IsOn e (record s { wanted = true })
          (do_register e (record s { wanted = true }) x e.register_expires false).0 on,
    )
happen-IsOn e s (turns_off persists x) c v = absurd c
happen-IsOn e s (wipes x) c v = noted-IsOn s (do_register e s x 0 true).0 v
happen-IsOn e s (wakes error x) c v =
    ground (arith, refreshed-IsOn error s (do_register e s x e.register_expires false).0 v)

happen_all-IsOn :
    (e : Setup) (s : Registrar) (xs : List Event)
    → All Continues xs
    → IsOn s
    → IsOn (happen_all e s xs)
unfolding happen_all
happen_all-IsOn e s [] c v = v
happen_all-IsOn e s (x ∷ xs) c v = happen_all-IsOn e (happen e s x) xs c.1 (happen-IsOn e s x c.0 v)

refreshed_registers :
    (t : Text) (s : Registrar) (o : Outcome) → (refreshed t s o).registered ≡ is_accepted o
unfolding refreshed
refreshed_registers t s (accepted error) = refl
refreshed_registers t s (refused error) = refl
refreshed_registers t s raised = refl

round_registers :
    (e : Setup) (error : Text) (s : Registrar) (x : Exchange)
    → IsOn s
    → (keepalive_round e error s x).registered
      ≡ is_accepted (do_register e s x e.register_expires false).0
unfolding keepalive_round
round_registers e error s x v =
    ground (arith, refreshed_registers error s (do_register e s x e.register_expires false).0)

-- Of a line that is wanted, with its keepalive running: whatever the gateway answers or leaves
-- unanswered, and whatever is asked of the line but to turn it off, the line stays wanted with its
-- keepalive running; so the next round of the keepalive registers it if, and only if, that
-- registration is accepted.
pub wanted_line_comes_back :
    (e : Setup) (s : Registrar) (xs : List Event) (error : Text) (x : Exchange)
    → IsOn s
    → All Continues xs
    → let t = happen_all e s xs in
      IsOn t
      × ((keepalive_round e error t x).registered
          ≡ is_accepted (do_register e t x e.register_expires false).0)
wanted_line_comes_back e s xs error x v c =
    let on = happen_all-IsOn e s xs c v in (on, round_registers e error (happen_all e s xs) x on)

noted-IsOff : (s : Registrar) (o : Outcome) → IsOff s → IsOff (noted o s)
noted-IsOff s o v = ground arith

happen-IsOff : (e : Setup) (s : Registrar) (x : Event) → Rests x → IsOff s → IsOff (happen e s x)
unfolding happen turn_off wipe_all_bindings keepalive_round
happen-IsOff e s (turns_on x) c v = absurd c
happen-IsOff e s (turns_off persists x) c v = ground arith
happen-IsOff e s (wipes x) c v = noted-IsOff s (do_register e s x 0 true).0 v
happen-IsOff e s (wakes error x) c v = ground arith

turned_off-IsOff :
    (e : Setup) (persists : Bool) (s : Registrar) (o : Outcome)
    → s.wanted ≡ false
    → (turned_off e persists s o).1 ≢ none
    → IsOff (turned_off e persists s o).0
unfolding turned_off
turned_off-IsOff e persists s o w h = ground arith

happen_all-IsOff :
    (e : Setup) (s : Registrar) (xs : List Event)
    → All Rests xs
    → IsOff s
    → IsOff (happen_all e s xs)
unfolding happen_all
happen_all-IsOff e s [] c v = v
happen_all-IsOff e s (x ∷ xs) c v =
    happen_all-IsOff e (happen e s x) xs c.1 (happen-IsOff e s x c.0 v)

if_IsOff :
    (b : Bool) (x y : Registrar × Option Bool)
    → (x.1 ≢ none → IsOff x.0)
    → (b ≡ false → y.1 ≢ none → IsOff y.0)
    → let z = if b then x else y in z.1 ≢ none → IsOff z.0
if_IsOff true x y h k = h
if_IsOff false x y h k = k refl

turn_off-IsOff :
    (e : Setup) (persists : Bool) (s : Registrar) (x : Exchange)
    → (turn_off e persists s x).1 ≢ none
    → IsOff (turn_off e persists s x).0
unfolding turn_off
turn_off-IsOff e persists s x =
    let off = record s { wanted = false; stopped = true } in
    let told = turned_off e persists off (do_register e off x 0 false).0 in
    if_IsOff s.registered told (unpersist e persists off, some true)
      (turned_off-IsOff e persists off (do_register e off x 0 false).0 refl) (λ f h. ground arith)

-- Once a line is turned off, without an exception, whether or not the gateway accepted that, it is
-- neither wanted nor registered, and stays so whatever happens until it is turned on.
pub unwanted_line_is_left :
    (e : Setup) (persists : Bool) (s : Registrar) (x : Exchange) (xs : List Event)
    → (turn_off e persists s x).1 ≢ none
    → All Rests xs
    → IsOff (happen_all e (turn_off e persists s x).0 xs)
unwanted_line_is_left e persists s x xs h c =
    happen_all-IsOff e (turn_off e persists s x).0 xs c (turn_off-IsOff e persists s x h)
