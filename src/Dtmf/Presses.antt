-- ===== src/Dtmf/Presses.antt =====
-- One report for each key press, and no key swallowed.
use talk_sip_bridge.Base.{
  ℕ, ◌+◌, ◌≤◌, ◌<◌, ◌≡◌, refl, ap, ◌∙◌, ◌≢◌, ◌↔◌, ◌⊎◌, inl, inr, false, Option, none, some, List,
  [], ◌∷◌, ◌++◌, arith, if◌then◌else◌, Bool-cases,
}
use talk_sip_bridge.Base.Text.{Text}
use talk_sip_bridge.Dtmf.{
  ParsedEvent, parse_event, DigitGuard, is_repeat, accepts, DtmfEvents, start_press, feed,
}

-- The presses that a guard lets through, of those reported to it in order.
unfoldable pub let_through : DigitGuard → List (ℕ × ℕ) → List (ℕ × ℕ)
let_through g [] = []
let_through g ((digit, now) ∷ ps) =
    let (g', accepted) = accepts g digit now in
    let rest = let_through g' ps in if accepted then (digit, now) ∷ rest else rest

-- A press is new after the last one: another key, or the same one after the window.
abbrev pub IsNew : ℕ → Option (ℕ × ℕ) → ℕ × ℕ → Type 0
IsNew window none p = Unit
IsNew window (some (d, at)) (digit, now) = (digit ≢ d) ⊎ (at + window ≤ now)

abbrev pub AllNew : ℕ → Option (ℕ × ℕ) → List (ℕ × ℕ) → Type 0
AllNew window last [] = Unit
AllNew window last (p ∷ ps) = IsNew window last p × AllNew window (some p) ps

accepts-IsNew :
    (w digit now : ℕ) (last : Option (ℕ × ℕ))
    → is_repeat w last digit now ≡ false
    → IsNew w last (digit, now)
accepts-IsNew w digit now none h = tt
accepts-IsNew w digit now (some (d, at)) h = ground arith

-- Of the presses reported to a guard, those that it lets through are each another key than the one
-- let through before, or come at least the window after it.
let_through_apart :
    (w : ℕ) (last : Option (ℕ × ℕ)) (ps : List (ℕ × ℕ))
    → AllNew w last (let_through (record { window = w; last = last }) ps)
unfolding let_through accepts
let_through_apart w last [] = tt
let_through_apart w last ((digit, now) ∷ ps) = elim (Bool-cases (is_repeat w last digit now)) [
  | inl old ↦ rw old (let_through_apart w last ps)
  | inr new ↦
      rw new (accepts-IsNew w digit now last new, let_through_apart w (some (digit, now)) ps)
]

-- A guard swallows a press exactly when it is the key last let through, less than the window ago;
-- another key is never swallowed, however fast it follows.
swallowed_iff :
    (w d at digit now : ℕ)
    → ((accepts (record { window = w; last = some (d, at) }) digit now).1 ≡ false)
      ↔ ((digit ≡ d) × (now < at + w))
unfolding accepts
swallowed_iff w d at digit now = (λ h. ground arith, λ h. ground arith)

-- The digits that a run of event packets reports.
abbrev cons? : Option ℕ → List ℕ → List ℕ
cons? none ds = ds
cons? (some d) ds = d ∷ ds

unfoldable pub digits_of : DtmfEvents → List (ℕ × Text) → List ℕ
digits_of s [] = []
digits_of s ((timestamp, payload) ∷ ps) =
    let (s', d) = feed s timestamp payload in cons? d (digits_of s' ps)

-- The packets of one press: each carries the timestamp of the press and an event of its digit.
abbrev pub IsPress : ℕ → ℕ → List (ℕ × Text) → Type 0
IsPress timestamp digit [] = Unit
IsPress timestamp digit ((t, payload) ∷ ps) =
    (t ≡ timestamp)
    × ((e : ParsedEvent) × (parse_event payload ≡ some e) × (e.digit ≡ digit))
    × IsPress timestamp digit ps

pub feed-first :
    (s : DtmfEvents) (t : ℕ) (p : Text) (e : ParsedEvent)
    → parse_event p ≡ some e
    → s.reported ≢ some t
    → feed s t p ≡ (record { reported = some t }, some e.digit)
unfolding feed
feed-first s t p e h n = ap (start_press s t) h ∙ fresh s.reported refl
  where
    fresh :
        (r : Option ℕ)
        → s.reported ≡ r
        → start_press s t (some e) ≡ (record { reported = some t }, some e.digit)
    fresh none k = ground arith
    fresh (some u) k = ground arith

pub feed-again :
    (t : ℕ) (p : Text) (e : ParsedEvent)
    → parse_event p ≡ some e
    → feed (record { reported = some t }) t p ≡ (record { reported = some t }, none)
unfolding feed
feed-again t p e h = ap (start_press (record { reported = some t }) t) h ∙ ground arith

press_goes_on :
    (t d : ℕ) (ps rest : List (ℕ × Text))
    → IsPress t d ps
    → digits_of (record { reported = some t }) (ps ++ rest)
      ≡ digits_of (record { reported = some t }) rest
unfolding digits_of
press_goes_on t d [] rest h = refl
press_goes_on t d ((u, p) ∷ ps) rest (e, ev, more) =
    let (x, px, dx) = ev in rw e (rw (feed-again t p x px) (press_goes_on t d ps rest more))

press_starts :
    (s : DtmfEvents) (t d u : ℕ) (p : Text) (ps rest : List (ℕ × Text))
    → s.reported ≢ some t
    → IsPress t d ((u, p) ∷ ps)
    → digits_of s (((u, p) ∷ ps) ++ rest) ≡ d ∷ digits_of (record { reported = some t }) rest
unfolding digits_of
press_starts s t d u p ps rest n (e, ev, more) =
    let (x, px, dx) = ev in
    rw e (rw (feed-first s t p x px n) (rw dx (ap (λ ds. d ∷ ds) (press_goes_on t d ps rest more))))

-- One press: its timestamp, its digit and its packets, the first apart.
pub record Press : Type 0 where
  pub timestamp : ℕ
  pub digit : ℕ
  pub first : ℕ × Text
  pub others : List (ℕ × Text)

abbrev pub packets : List Press → List (ℕ × Text)
packets [] = []
packets (p ∷ ps) = (p.first ∷ p.others) ++ packets ps

abbrev pub digits : List Press → List ℕ
digits [] = []
digits (p ∷ ps) = p.digit ∷ digits ps

-- Presses that each differ in timestamp from the one before.
abbrev pub ArePresses : Option ℕ → List Press → Type 0
ArePresses last [] = Unit
ArePresses last (p ∷ ps) =
    (last ≢ some p.timestamp)
    × IsPress p.timestamp p.digit (p.first ∷ p.others)
    × ArePresses (some p.timestamp) ps

-- However many packets each key press sends, at least one, exactly one digit is reported for each
-- press, in order; the same key pressed twice is reported twice. Consecutive presses have different
-- timestamps.
pub presses_reported_once :
    (last : Option ℕ) (ps : List Press)
    → ArePresses last ps
    → digits_of (record { reported = last }) (packets ps) ≡ digits ps
unfolding digits_of
presses_reported_once last [] h = refl
presses_reported_once last (p ∷ ps) (n, is_press, more) =
    press_starts (record { reported = last }) p.timestamp p.digit p.first.0 p.first.1 p.others
      (packets ps) n is_press
    ∙ ap (λ ds. p.digit ∷ ds) (presses_reported_once (some p.timestamp) ps more)
