-- ===== src/Base/Chunks.antt =====
-- Audio cut into chunks of one size.
use talk_sip_bridge.Base.{
  ℕ, zero, suc, ◌-◌, ◌≤◌, ◌<◌, ◌≡◌, refl, sym, ap, ◌∙◌, inl, inr, List, [], ◌∷◌, ◌++◌, arith, ltb,
  Bool-cases, length, take, drop, replicate, All, length-append, take-append-drop, length-take,
  length-drop, length-replicate,
}
use mathlib.Core.List.{append_assoc, append-nil}
use talk_sip_bridge.Base.Int.{ℤ, pos}

-- The chunks of a `range(0, len(pcm), spp)`, the last one filled up with silence.
unfoldable pub chunks : ℕ → ℕ → List ℤ → List (List ℤ)
chunks zero spp pcm = []
chunks (suc n) spp [] = []
chunks (suc n) spp (x ∷ xs) =
    let chunk = take spp (x ∷ xs) in
    (chunk ++ replicate (spp - length chunk) (pos 0)) ∷ chunks n spp (drop spp (x ∷ xs))

unfoldable pub joined_chunks : List (List ℤ) → List ℤ
joined_chunks [] = []
joined_chunks (c ∷ cs) = c ++ joined_chunks cs

-- The chunks of some audio: all of one size, and together the audio, then less silence than one.
abbrev pub AreChunks : ℕ → List ℤ → List (List ℤ) → Type 0
AreChunks spp pcm cs =
    All (λ c. length c ≡ spp) cs
    × ((silence : ℕ) × (joined_chunks cs ≡ pcm ++ replicate silence (pos 0)) × (silence < spp))

take_short : (n : ℕ) (xs : List ℤ) → length xs ≤ n → take n xs ≡ xs
take_short zero [] l = refl
take_short zero (x ∷ xs) l = absurd (omega arith)
take_short (suc n) [] l = refl
take_short (suc n) (x ∷ xs) l = ap (λ ys. x ∷ ys) (take_short n xs (omega arith))

drop_short : (n : ℕ) (xs : List ℤ) → length xs ≤ n → drop n xs ≡ []
drop_short zero [] l = refl
drop_short zero (x ∷ xs) l = absurd (omega arith)
drop_short (suc n) [] l = refl
drop_short (suc n) (x ∷ xs) l = drop_short n xs (omega arith)

no_chunks : (n spp : ℕ) → chunks n spp [] ≡ []
unfolding chunks
no_chunks zero spp = refl
no_chunks (suc n) spp = refl

last_chunk :
    (n spp : ℕ) (x : ℤ) (xs : List ℤ)
    → suc (length xs) < spp
    → AreChunks spp (x ∷ xs) (chunks (suc n) spp (x ∷ xs))
unfolding chunks joined_chunks
last_chunk n spp x xs short =
    let silence = spp - length (x ∷ xs) in
    let rest = replicate silence (pos 0) in
    rw
      (
        take_short spp (x ∷ xs) (omega arith),
        drop_short spp (x ∷ xs) (omega arith),
        no_chunks n spp,
      )
      (
        (rw (length-append (x ∷ xs) rest, length-replicate silence (pos 0)) (omega arith), tt),
        (silence, append-nil ((x ∷ xs) ++ rest), omega arith),
      )

full_chunk :
    (n spp : ℕ) (x : ℤ) (xs : List ℤ)
    → spp ≤ suc (length xs)
    → AreChunks spp (drop spp (x ∷ xs)) (chunks n spp (drop spp (x ∷ xs)))
    → AreChunks spp (x ∷ xs) (chunks (suc n) spp (x ∷ xs))
unfolding chunks joined_chunks
full_chunk n spp x xs full (sizes, (silence, all, less)) =
    let size : length (take spp (x ∷ xs)) ≡ spp = length-take spp (x ∷ xs) ∙ omega arith in
    let none_left : spp - length (take spp (x ∷ xs)) ≡ 0 = omega arith in
    let whole = append-nil (take spp (x ∷ xs)) in
    rw (none_left, whole)
      (
        (size, sizes),
        (
          silence,
          ap (λ ys. take spp (x ∷ xs) ++ ys) all
              ∙ sym
                  (append_assoc (take spp (x ∷ xs)) (drop spp (x ∷ xs)) (replicate silence (pos 0)))
              ∙ ap (λ ys. ys ++ replicate silence (pos 0)) (take-append-drop spp (x ∷ xs)),
          less,
        ),
      )

pub chunks-AreChunks :
    (n spp : ℕ) (pcm : List ℤ) → 0 < spp → length pcm ≤ n → AreChunks spp pcm (chunks n spp pcm)
unfolding chunks joined_chunks
chunks-AreChunks zero spp [] l f = (tt, (0, refl, l))
chunks-AreChunks zero spp (x ∷ xs) l f = absurd (omega arith)
chunks-AreChunks (suc n) spp [] l f = (tt, (0, refl, l))
chunks-AreChunks (suc n) spp (x ∷ xs) l f = elim (Bool-cases (ltb (suc (length xs)) spp)) [
  | inl short ↦ last_chunk n spp x xs (ground arith)
  | inr full ↦
      let fewer = length-drop spp (x ∷ xs) in
      full_chunk n spp x xs (ground arith)
        (chunks-AreChunks n spp (drop spp (x ∷ xs)) l (omega arith))
]
