-- ===== src/Codec/Roundtrip.antt =====
-- Decoding and encoding again gives the byte back.
use talk_sip_bridge.Base.{
  ℕ, zero, suc, ◌<◌, ◌≡◌, refl, ap, ◌∙◌, inl, inr, Bool, true, false, ◌&&◌, arith, ◌==◌,
  if◌then◌else◌, ==_iff, Bool-cases,
}
use talk_sip_bridge.Codec.{
  xor, shifted_right, segment_from, clipped, linear_to_ulaw, ulaw_to_linear, linear_to_alaw,
  alaw_to_linear,
}

unfoldable pub all_below : ℕ → (ℕ → Bool) → Bool
all_below zero p = true
all_below (suc n) p = p n && all_below n p

and_left : (a b : Bool) → (a && b) ≡ true → a ≡ true
and_left true b h = refl
and_left false b h = h

pub below : (n : ℕ) (p : ℕ → Bool) (i : ℕ) → all_below n p ≡ true → i < n → p i ≡ true
unfolding all_below
below zero p i h l = absurd (omega arith)
below (suc n) p i h l = elim (Bool-cases (i == n)) [
  | inl e ↦ ap p ((==_iff i n).0 e) ∙ and_left (p n) (all_below n p) h
  | inr e ↦ below n p i (ground arith) (ground arith)
]

abbrev ulaw_back : ℕ → Bool
ulaw_back b = linear_to_ulaw (ulaw_to_linear b) == (if b == 127 then 255 else b)

abbrev alaw_back : ℕ → Bool
alaw_back b = linear_to_alaw (alaw_to_linear b) == b

every_ulaw : all_below 256 ulaw_back ≡ true
unfolding all_below linear_to_ulaw ulaw_to_linear xor shifted_right segment_from clipped
every_ulaw = refl

every_alaw : all_below 256 alaw_back ≡ true
unfolding all_below linear_to_alaw alaw_to_linear xor shifted_right segment_from clipped
every_alaw = refl

-- Every byte of A-law, decoded and encoded again, is the same byte; and so is every byte of mu-law
-- but 127, the negative zero, which becomes 255, the positive one.
pub encode_decode :
    (b : ℕ)
    → b < 256
    → (linear_to_alaw (alaw_to_linear b) ≡ b)
      × (linear_to_ulaw (ulaw_to_linear b) ≡ (if b == 127 then 255 else b))
encode_decode b h = (
  (==_iff (linear_to_alaw (alaw_to_linear b)) b).0 (below 256 alaw_back b every_alaw h),
  (==_iff (linear_to_ulaw (ulaw_to_linear b)) (if b == 127 then 255 else b)).0
      (below 256 ulaw_back b every_ulaw h),
)
