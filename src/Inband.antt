-- ===== src/Inband.antt =====
-- `InbandDtmf` of bridge/dtmf_inband.py: key presses heard in the audio. Which key a block of audio
-- carries, if any, is decided in floating point by `digit_in_block`, and is an input here.
pub mod Presses
use talk_sip_bridge.Base.{
  ℕ, zero, suc, ◌+◌, ◌-◌, ◌*◌, ◌/◌, ◌%◌, ◌^◌, ◌≤◌, ◌<◌, min, ◌≡◌, refl, sym, ap, ap₂, ◌∙◌, ◌≢◌, ◌↔◌,
  ◌⊎◌, inl, inr, Bool, true, false, not, ◌&&◌, ◌||◌, Option, none, some, List, [], ◌∷◌, ◌++◌, map,
  arith, ltb, leb, ◌==◌, if◌then◌else◌, ltb→lt, lt→ltb, leb→le, ==_iff, Bool-cases, Option-cases,
  length, get_or, set, take, drop, replicate, All, length-append, take-append-drop, length-take,
  length-drop, length-replicate, All-append, length_zero, take-append, drop-append,
}

pub record InbandDtmf : Type 0 where
  pub min_blocks : ℕ
  pub max_gap_blocks : ℕ
  pub candidate : Option ℕ
  pub blocks : ℕ
  pub gap : ℕ
  pub reported : Option ℕ

unfoldable pub new : ℕ → ℕ → InbandDtmf
new min_blocks max_gap_blocks = record {
  min_blocks = min_blocks;
  max_gap_blocks = max_gap_blocks;
  candidate = none;
  blocks = 0;
  gap = 0;
  reported = none;
}

-- `digit == x` where `x` may be None.
abbrev pub is_digit : ℕ → Option ℕ → Bool
is_digit digit none = false
is_digit digit (some d) = digit == d

-- The branch of `feed` for a block that carries no key.
unfoldable pub hear_nothing : InbandDtmf → InbandDtmf
hear_nothing s =
    let t = record s { gap = s.gap + 1 } in
    if ltb t.max_gap_blocks t.gap
    then record t { candidate = none; blocks = 0; reported = none }
    else t

-- `if digit != self._candidate`
unfoldable pub follow_key : InbandDtmf → ℕ → InbandDtmf
follow_key s digit =
    if is_digit digit s.candidate
    then s
    else record s { candidate = some digit; blocks = 0; reported = none }

abbrev report_key : InbandDtmf → ℕ → InbandDtmf × Option ℕ
report_key s digit =
    if is_digit digit s.reported || ltb s.blocks s.min_blocks
    then (s, none)
    else (record s { reported = some digit }, some digit)

abbrev count_block : InbandDtmf → InbandDtmf
count_block s = record s { blocks = s.blocks + 1 }

unfoldable pub feed : InbandDtmf → Option ℕ → InbandDtmf × Option ℕ
unfolding hear_nothing follow_key
feed s none = (hear_nothing s, none)
feed s (some digit) = report_key (count_block (follow_key (record s { gap = 0 }) digit)) digit
