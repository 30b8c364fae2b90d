-- ===== src/Codec.antt =====
-- bridge/g711.py: the two halves of G.711, on one sample. The arrays are mapped sample by sample.
pub mod Roundtrip
use talk_sip_bridge.Base.{
  ℕ, zero, suc, ◌+◌, ◌-◌, ◌*◌, ◌/◌, ◌%◌, ◌^◌, ◌≤◌, ◌<◌, min, ◌≡◌, refl, sym, ap, ap₂, ◌∙◌, ◌≢◌, ◌↔◌,
  ◌⊎◌, inl, inr, Bool, true, false, not, ◌&&◌, ◌||◌, Option, none, some, List, [], ◌∷◌, ◌++◌, map,
  arith, ltb, leb, ◌==◌, if◌then◌else◌, ltb→lt, lt→ltb, leb→le, ==_iff, Bool-cases, Option-cases,
  length, get_or, set, take, drop, replicate, All, length-append, take-append-drop, length-take,
  length-drop, length-replicate, All-append, length_zero, take-append, drop-append,
}
use talk_sip_bridge.Base.Int.{ℤ, pos, negsuc, abs, sub_ℕ}

abbrev pub bias : ℕ
bias = 132

abbrev pub clip : ℕ
clip = 32635

-- `a ^ b`, of numbers of so many bits.
unfoldable pub xor : ℕ → ℕ → ℕ → ℕ
xor zero a b = 0
xor (suc bits) a b = (a + b) % 2 + 2 * xor bits (a / 2) (b / 2)

-- `value >> bits`, rounded down.
unfoldable pub shifted_right : ℤ → ℕ → ℤ
shifted_right (pos n) bits = pos (n / 2 ^ bits)
shifted_right (negsuc n) bits = negsuc (n / 2 ^ bits)

abbrev pub is_negative : ℤ → Bool
is_negative (pos n) = false
is_negative (negsuc n) = true

-- The loop over the ends of the segments, and the last one that the value is beyond.
unfoldable pub segment_from : ℕ → ℕ → List ℕ → ℕ → ℕ
segment_from index segment [] value = segment
segment_from index segment (end ∷ ends) value =
    segment_from (suc index) (if ltb end value then suc index else segment) ends value

abbrev pub ulaw_segment_ends : List ℕ
ulaw_segment_ends = 63 ∷ 127 ∷ 255 ∷ 511 ∷ 1023 ∷ 2047 ∷ 4095 ∷ 8191 ∷ []

abbrev pub alaw_segment_ends : List ℕ
alaw_segment_ends = 31 ∷ 63 ∷ 127 ∷ 255 ∷ 511 ∷ 1023 ∷ 2047 ∷ 4095 ∷ []

-- The segment and the four bits behind it.
abbrev pub encoded_at : ℕ → ℕ → ℕ → ℕ
encoded_at segment shift value =
    if leb 8 segment then 127 else segment * 16 + value / 2 ^ shift % 16

unfoldable pub linear_to_ulaw : ℤ → ℕ
linear_to_ulaw sample =
    let value = shifted_right sample 2 in
    let mask = if is_negative value then 127 else 255 in
    let level = min (abs value) (clip / 4) + bias / 4 in
    let segment = segment_from 0 0 ulaw_segment_ends level in
    xor 8 (encoded_at segment (segment + 1) level) mask

-- `np.clip(sample, -32768, 32767)`
unfoldable pub clipped : ℤ → ℤ
clipped (pos n) = pos (min n 32767)
clipped (negsuc n) = negsuc (min n 32767)

unfoldable pub ulaw_to_linear : ℕ → ℤ
ulaw_to_linear ulaw =
    let code = 255 - ulaw in
    let sample = (code % 16 * 8 + bias) * 2 ^ (code / 16 % 8) - bias in
    clipped (if code / 128 == 1 then sub_ℕ 0 sample else pos sample)

-- The value of a negative sample, counted from -1.
abbrev magnitude : ℤ → ℕ
magnitude (pos n) = n
magnitude (negsuc n) = n

unfoldable pub linear_to_alaw : ℤ → ℕ
linear_to_alaw sample =
    let value = shifted_right sample 3 in
    let mask = if is_negative value then 85 else 213 in
    let level = magnitude value in
    let segment = segment_from 0 0 alaw_segment_ends level in
    xor 8 (encoded_at segment (if ltb segment 2 then 1 else segment) level) mask

unfoldable pub alaw_to_linear : ℕ → ℤ
alaw_to_linear alaw =
    let code = xor 8 alaw 85 in
    let segment = code / 16 % 8 in
    let start = code % 16 * 16 + (if segment == 0 then 8 else 264) in
    let sample = if ltb 1 segment then start * 2 ^ (segment - 1) else start in
    clipped (if code / 128 % 2 == 1 then pos sample else sub_ℕ 0 sample)
