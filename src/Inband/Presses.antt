-- ===== src/Inband/Presses.antt =====
-- A tone is one press: reported once it has held, and not again.
use talk_sip_bridge.Base.{
  ℕ, ◌+◌, ◌≤◌, ◌<◌, ◌≡◌, refl, ap, ◌∙◌, ◌⊎◌, inl, inr, false, not, ◌&&◌, Option, none, some, List,
  [], ◌∷◌, arith, leb, ◌==◌, if◌then◌else◌,
}
use mathlib.Core.Path.{subst}
use talk_sip_bridge.Inband.{InbandDtmf, new, is_digit, feed}

abbrev pub reported_first : Option ℕ → List ℕ → List ℕ
reported_first none ds = ds
reported_first (some d) ds = d ∷ ds

-- The digits reported for the blocks of a stream.
unfoldable pub run : InbandDtmf → List (Option ℕ) → InbandDtmf × List ℕ
run s [] = (s, [])
run s (b ∷ bs) = let (s', d) = feed s b in let (s'', ds) = run s' bs in (s'', reported_first d ds)

-- How many blocks of a list carry the key `d`.
abbrev pub blocks_of : ℕ → List (Option ℕ) → ℕ
blocks_of d [] = 0
blocks_of d (b ∷ bs) = (if is_digit d b then 1 else 0) + blocks_of d bs

-- `backing m d ds`: `m` for each `d` among the digits reported.
abbrev pub backing : ℕ → ℕ → List ℕ → ℕ
backing m d [] = 0
backing m d (x ∷ ds) = (if x == d then m else 0) + backing m d ds

-- The blocks of `d` that the state has counted and not yet spent on a report.
abbrev unspent : InbandDtmf → ℕ → ℕ
unspent s d = if is_digit d s.candidate && not (is_digit d s.reported) then s.blocks else 0

-- What is reported is the candidate.
abbrev pub IsTracked : InbandDtmf → Type 0
IsTracked s = (d : ℕ) → s.reported ≡ some d → s.candidate ≡ some d

feed-IsTracked : (s : InbandDtmf) (b : Option ℕ) → IsTracked s → IsTracked (feed s b).0
unfolding feed
feed-IsTracked s none h d e = ground (arith, h d)
feed-IsTracked s (some x) h d e = ground (arith, h d, h x)

one_report : ℕ → ℕ → Option ℕ → ℕ
one_report m d none = 0
one_report m d (some x) = if x == d then m else 0

feed_backed :
    (s : InbandDtmf) (b : Option ℕ) (d : ℕ)
    → IsTracked s
    → (one_report s.min_blocks d (feed s b).1 + unspent (feed s b).0 d
        ≤ unspent s d + (if is_digit d b then 1 else 0))
      × ((feed s b).0.min_blocks ≡ s.min_blocks)
unfolding feed one_report
feed_backed s none d h = ground (arith, h d)
feed_backed s (some x) d h = ground (arith, h d, h x)

backing-reported_first :
    (m d : ℕ) (o : Option ℕ) (ds : List ℕ)
    → backing m d (reported_first o ds) ≡ one_report m d o + backing m d ds
unfolding one_report
backing-reported_first m d none ds = omega arith
backing-reported_first m d (some x) ds = refl

run_backed :
    (m d : ℕ) (s : InbandDtmf) (bs : List (Option ℕ))
    → s.min_blocks ≡ m
    → IsTracked s
    → backing m d (run s bs).1 ≤ unspent s d + blocks_of d bs
unfolding run
run_backed m d s [] e h = omega arith
run_backed m d s (b ∷ bs) e h =
    let (step, same) = feed_backed s b d h in
    let rest = run_backed m d (feed s b).0 bs (same ∙ e) (feed-IsTracked s b h) in
    let sum = backing-reported_first m d (feed s b).1 (run (feed s b).0 bs).1 in
    let step' =
      subst
        (λ k.
          one_report k d (feed s b).1 + unspent (feed s b).0 d
          ≤ unspent s d + (if is_digit d b then 1 else 0))
        e step in
    omega (arith, step', rest, sum)

-- A key is never reported out of noise: in any stream of blocks heard by a fresh detector, each
-- report of a key is backed by `min_blocks` blocks of that key, and no block backs two reports.
pub reports_are_backed :
    (min_blocks max_gap_blocks d : ℕ) (bs : List (Option ℕ))
    → backing min_blocks d (run (new min_blocks max_gap_blocks) bs).1 ≤ blocks_of d bs
unfolding new
reports_are_backed m g d bs = omega (arith, run_backed m d (new m g) bs refl (λ x e. cc))

-- The rest of one press of `d`: blocks of `d`, and unreadable ones, of which at most `room` follow one
-- another; `gap` of them stand just before.
abbrev pub Holds : ℕ → ℕ → ℕ → List (Option ℕ) → Type 0
Holds room d gap [] = Unit
Holds room d gap (none ∷ bs) = (gap + 1 ≤ room) × Holds room d (gap + 1) bs
Holds room d gap (some x ∷ bs) = (x ≡ d) × Holds room d 0 bs

-- The detector inside a press of `d`, the press reported or not.
record Inside (m room d gap : ℕ) (s : InbandDtmf) : Type 0 where
  least : s.min_blocks ≡ m
  gaps : s.max_gap_blocks ≡ room
  key : s.candidate ≡ some d
  silent : s.gap ≡ gap

module _ (m room d : ℕ) where
  reported_gap :
      (gap : ℕ) (s : InbandDtmf)
      → gap + 1 ≤ room
      → Inside m room d gap s
      → Inside m room d (gap + 1) (feed s none).0
        × ((feed s none).0.reported ≡ s.reported)
        × ((feed s none).0.blocks ≡ s.blocks)
        × ((feed s none).1 ≡ none)
  unfolding feed
  reported_gap gap s h i = ground arith

  reported_key :
      (gap : ℕ) (s : InbandDtmf)
      → Inside m room d gap s
      → s.reported ≡ some d
      → Inside m room d 0 (feed s (some d)).0
        × ((feed s (some d)).0.reported ≡ some d)
        × ((feed s (some d)).1 ≡ none)
  unfolding feed
  reported_key gap s i r = ground arith

  no_second_report :
      (gap : ℕ) (s : InbandDtmf) (bs : List (Option ℕ))
      → Inside m room d gap s
      → s.reported ≡ some d
      → Holds room d gap bs
      → (run s bs).1 ≡ []
  unfolding run
  no_second_report gap s [] i r h = refl
  no_second_report gap s (none ∷ bs) i r (fits, more) =
      let (i', r', b', n) = reported_gap gap s fits i in
      rw n (no_second_report (gap + 1) (feed s none).0 bs i' (r' ∙ r) more)
  no_second_report gap s (some x ∷ bs) i r (e, more) = rw e (
      let (i', r', n) = reported_key gap s i r in
      rw n (no_second_report 0 (feed s (some d)).0 bs i' r' more))

  -- What one press reports that has been heard for `k` blocks: its key if it holds long enough.
  abbrev outcome : ℕ → List (Option ℕ) → List ℕ
  outcome k bs = if leb m (k + blocks_of d bs) then d ∷ [] else []

  pending_key :
      (gap k : ℕ) (s : InbandDtmf)
      → Inside m room d gap s
      → is_digit d s.reported ≡ false
      → s.blocks ≡ k
      → Inside m room d 0 (feed s (some d)).0
        × ((feed s (some d)).0.blocks ≡ k + 1)
        × (((feed s (some d)).1 ≡ some d) × ((feed s (some d)).0.reported ≡ some d) × (m ≤ k + 1)
            ⊎ ((feed s (some d)).1 ≡ none)
              × (is_digit d (feed s (some d)).0.reported ≡ false)
              × (k + 1 < m))
  unfolding feed
  pending_key gap k s i r b = ground arith

  pending_press :
      (gap k : ℕ) (s : InbandDtmf) (bs : List (Option ℕ))
      → Inside m room d gap s
      → is_digit d s.reported ≡ false
      → s.blocks ≡ k
      → k < m
      → Holds room d gap bs
      → (run s bs).1 ≡ outcome k bs
  unfolding run
  pending_press gap k s [] i r b l h = ground arith
  pending_press gap k s (none ∷ bs) i r b l (fits, more) =
      let (i', r', b', n) = reported_gap gap s fits i in
      rw n (
        pending_press (gap + 1) k (feed s none).0 bs i' (ap (is_digit d) r' ∙ r) (b' ∙ b) l more
        ∙ ground arith)
  pending_press gap k s (some x ∷ bs) i r b l (e, more) = rw e (
      let (i', b', split) = pending_key gap k s i r b in
      elim split [
        | inl (now, r', full) ↦ rw now (
            ap (λ ds. d ∷ ds) (no_second_report 0 (feed s (some d)).0 bs i' r' more) ∙ ground arith)
        | inr (n, r', short) ↦
            rw n (pending_press 0 (k + 1) (feed s (some d)).0 bs i' r' b' short more ∙ ground arith)
      ])

  starting_key :
      (s : InbandDtmf)
      → s.min_blocks ≡ m
      → s.max_gap_blocks ≡ room
      → is_digit d s.candidate ≡ false
      → Inside m room d 0 (feed s (some d)).0
        × ((feed s (some d)).0.blocks ≡ 1)
        × (((feed s (some d)).1 ≡ some d) × ((feed s (some d)).0.reported ≡ some d) × (m ≤ 1)
            ⊎ ((feed s (some d)).1 ≡ none)
              × (is_digit d (feed s (some d)).0.reported ≡ false)
              × (1 < m))
  unfolding feed
  starting_key s lm lr c = ground arith

-- One press is one report: where a detector that does not follow key `d` yet hears a press of it, a
-- first block of `d` and then blocks of `d` with at most `max_gap_blocks` unreadable ones in a row, it
-- reports `d` once if the press has at least `min_blocks` blocks of `d`, and nothing otherwise.
pub press_reported_once :
    (s : InbandDtmf) (d : ℕ) (bs : List (Option ℕ))
    → is_digit d s.candidate ≡ false
    → Holds s.max_gap_blocks d 0 bs
    → (run s (some d ∷ bs)).1 ≡ (if leb s.min_blocks (1 + blocks_of d bs) then d ∷ [] else [])
unfolding run
press_reported_once s d bs c h =
    let m = s.min_blocks in
    let room = s.max_gap_blocks in
    let (i, b, split) = starting_key m room d s refl refl c in
    elim split [
      | inl (now, r, full) ↦ rw now (
          ap (λ ds. d ∷ ds) (no_second_report m room d 0 (feed s (some d)).0 bs i r h)
          ∙ ground arith)
      | inr (n, r, short) ↦ rw n (pending_press m room d 0 1 (feed s (some d)).0 bs i r b short h)
    ]
