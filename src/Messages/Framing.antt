-- ===== src/Messages/Framing.antt =====
-- The framing of a stream does not depend on how the stream is cut into reads.
use talk_sip_bridge.Base.{
  ℕ, zero, suc, ◌+◌, ◌-◌, ◌≤◌, ◌<◌, ◌≡◌, refl, true, Option, none, some, List, [], ◌∷◌, ◌++◌,
  length, take, arith, ap, sym, ◌∙◌, length-append, length-drop, take-append, drop-append,
  Option-cases, inl, inr, ◌⊎◌,
}
use mathlib.Core.List.{append-nil, append_assoc}
use talk_sip_bridge.Base.Text.{Text}
use talk_sip_bridge.Base.Str.{starts_with, find?}
use talk_sip_bridge.Messages.{
  content_length_of, skip_breaks, separator, frame_at, take_message, first_message, split_rounds,
  split_messages,
}

-- Texts as long as the pattern do not start otherwise when more follows.
starts_with-append : (s p t : Text) → length p ≤ length s → starts_with (s ++ t) p ≡ starts_with s p
unfolding starts_with
starts_with-append [] [] t h = refl
starts_with-append [] (p ∷ ps) t h = absurd (omega arith)
starts_with-append (c ∷ cs) [] t h = refl
starts_with-append (c ∷ cs) (p ∷ ps) t h = rw (starts_with-append cs ps t (omega arith))

starts_with-le-length : (s p : Text) → starts_with s p ≡ true → length p ≤ length s
unfolding starts_with
starts_with-le-length s [] h = omega arith
starts_with-le-length [] (p ∷ ps) h = cc
starts_with-le-length (c ∷ cs) (p ∷ ps) h = ground (arith, starts_with-le-length cs ps)

find?-le-length : (s p : Text) (n : ℕ) → find? s p ≡ some n → n + length p ≤ length s
unfolding find?
find?-le-length [] p n h = ground (arith, starts_with-le-length [] p)
find?-le-length (c ∷ cs) p n h =
    ground (arith, starts_with-le-length (c ∷ cs) p, find?-le-length cs p (n - 1))

find?-append :
    (s p t : Text) (n : ℕ) → 0 < length p → find? s p ≡ some n → find? (s ++ t) p ≡ some n
unfolding find?
find?-append [] p t n l h = absurd (ground (arith, starts_with-le-length [] p))
find?-append (c ∷ cs) p t n l h = ground (
  arith,
  starts_with-le-length (c ∷ cs) p,
  starts_with-append (c ∷ cs) p t,
  find?-le-length cs p (n - 1),
  find?-append cs p t (n - 1),
)

skip_breaks-append : (s t : Text) → skip_breaks (s ++ t) ≡ skip_breaks (skip_breaks s ++ t)
unfolding skip_breaks
skip_breaks-append [] t = refl
skip_breaks-append (c ∷ []) t = refl
skip_breaks-append (c ∷ d ∷ cs) t = ground (arith, skip_breaks-append cs t)

length-skip_breaks : (s : Text) → length (skip_breaks s) ≤ length s
unfolding skip_breaks
length-skip_breaks [] = omega arith
length-skip_breaks (c ∷ []) = omega arith
length-skip_breaks (c ∷ d ∷ cs) = ground (arith, length-skip_breaks cs)

take_message-append :
    (s t : Text) (n : ℕ) {m r : Text}
    → take_message s n ≡ some (m, r)
    → take_message (s ++ t) n ≡ some (m, r ++ t)
take_message-append s t n {m} {r} h =
    ground (arith, length-append s t, take-append n s t, drop-append n s t)

frame_at-append :
    (s t : Text) (o : Option ℕ) {m r : Text}
    → (find? s separator ≡ o)
    → frame_at s o ≡ some (m, r)
    → frame_at (s ++ t) o ≡ some (m, r ++ t)
frame_at-append s t none e h = cc
frame_at-append s t (some at) e h =
    rw (take-append at s t (omega (arith, find?-le-length s separator at e)))
      (take_message-append s t _ h)

found_at :
    (s : Text) {m r : Text}
    → first_message s ≡ some (m, r)
    → (at : ℕ) × (find? s separator ≡ some at)
unfolding first_message
found_at s h = elim (Option-cases (find? s separator)) [ inl e ↦ cc (e, h) | inr found ↦ found ]

-- A message found in what has been read is found there when more has been read.
first_message-append :
    (s t : Text) {m r : Text}
    → first_message s ≡ some (m, r)
    → first_message (s ++ t) ≡ some (m, r ++ t)
unfolding first_message
first_message-append s t {m} {r} h =
    let (at, e) = found_at s h in
    rw (find?-append s separator t at (omega arith) e) (frame_at-append s t (some at) e (rw e at h))

frame_at-shorter :
    (s : Text) (o : Option ℕ) {m r : Text} → frame_at s o ≡ some (m, r) → length r + 4 ≤ length s
frame_at-shorter s none h = cc
frame_at-shorter s (some at) {m} {r} h =
    let total = at + 4 + content_length_of (take at s) in ground (arith, length-drop total s)

-- A message has at least the four bytes of its separator.
first_message-shorter :
    (s : Text) {m r : Text} → first_message s ≡ some (m, r) → length r + 4 ≤ length s
unfolding first_message
first_message-shorter s h = frame_at-shorter s (find? s separator) h

-- A round that finds nothing, and a round that finds a message.
split_rounds-none :
    (f : ℕ) (s : Text)
    → first_message (skip_breaks s) ≡ none
    → split_rounds f s ≡ ([], skip_breaks s)
unfolding split_rounds
split_rounds-none zero s e = refl
split_rounds-none (suc f) s e = rw (e, split_rounds)

pub split_rounds-some :
    (f : ℕ) (s : Text) {m r : Text}
    → first_message (skip_breaks s) ≡ some (m, r)
    → split_rounds (suc f) s ≡ (m ∷ (split_rounds f r).0, (split_rounds f r).1)
unfolding split_rounds
split_rounds-some f s e = rw (e, split_rounds)

-- Whether a round finds a message, with the message.
abbrev Found : Text → Type 0
Found s = (m : Text) × (r : Text) × (first_message (skip_breaks s) ≡ some (m, r))

Found-cases : (s : Text) → (first_message (skip_breaks s) ≡ none) ⊎ Found s
Found-cases s = elim (Option-cases (first_message (skip_breaks s))) [
  | inl e ↦ inl e
  | inr ((m, r), e) ↦ inr (m, r, e)
]

-- More fuel than bytes changes nothing.
split_rounds_fuel :
    (f g : ℕ) (s : Text) → length s < f → length s < g → split_rounds f s ≡ split_rounds g s
split_rounds_fuel zero g s h k = absurd (omega arith)
split_rounds_fuel (suc f) zero s h k = absurd (omega arith)
split_rounds_fuel (suc f) (suc g) s h k = elim (Found-cases s) [
  | inl e ↦ split_rounds-none (suc f) s e ∙ sym (split_rounds-none (suc g) s e)
  | inr (m, r, e) ↦
      let short = first_message-shorter (skip_breaks s) e in
      let less = length-skip_breaks s in
      rw (split_rounds-some f s e, split_rounds-some g s e)
        (rw (split_rounds_fuel f g r (omega arith) (omega arith)))
]

-- What is left of a text without its leading breaks stays so when more follows, unless it is a
-- single byte.
skip_breaks_long :
    (s t : Text)
    → 2 ≤ length (skip_breaks s)
    → skip_breaks (skip_breaks s ++ t) ≡ skip_breaks s ++ t
unfolding skip_breaks
skip_breaks_long [] t h = absurd (omega arith)
skip_breaks_long (c ∷ []) t h = absurd (omega arith)
skip_breaks_long (c ∷ d ∷ cs) t h = ground (arith, skip_breaks_long cs t)

-- The messages so far, then those of what was left over with the next read.
abbrev pub resume : List Text × Text → Text → List Text × Text
resume (ms, rest) t = let (ns, r) = split_messages (rest ++ t) in (ms ++ ns, r)

split_rounds_skip :
    (f : ℕ) (s t : Text) → split_rounds f (s ++ t) ≡ split_rounds f (skip_breaks s ++ t)
unfolding split_rounds
split_rounds_skip zero s t = rw (← skip_breaks-append s t)
split_rounds_skip (suc f) s t =
    ap {B = List Text × Text}
      (λ b. elim (first_message b) [
        | none ↦ ([], b)
        | some (m, r) ↦ (m ∷ (split_rounds f r).0, (split_rounds f r).1)
      ])
      (skip_breaks-append s t)

split_rounds-append :
    (f g : ℕ) (s t : Text)
    → length s < f
    → length (s ++ t) < g
    → split_rounds g (s ++ t) ≡ resume (split_rounds f s) t
unfolding split_messages
split_rounds-append zero g s t h k = absurd (omega arith)
split_rounds-append (suc f) zero s t h k = absurd (omega arith)
split_rounds-append (suc f) (suc g) s t h k =
    let less = length-skip_breaks s in
    elim (Found-cases s) [
      | inl e ↦ rw (split_rounds-none (suc f) s e) (
          split_rounds_skip (suc g) s t
          ∙ split_rounds_fuel (suc g) (suc (length (skip_breaks s ++ t))) (skip_breaks s ++ t)
              (omega (arith, length-append s t, length-append (skip_breaks s) t)) (omega arith))
      | inr (m, r, e) ↦
          let short = first_message-shorter (skip_breaks s) e in
          let same = skip_breaks-append s t ∙ skip_breaks_long s t (omega arith) in
          let again = ap first_message same ∙ first_message-append (skip_breaks s) t e in
          rw (split_rounds-some f s e, split_rounds-some g (s ++ t) again)
            (rw (
              split_rounds-append f g r t (omega arith)
                (omega (arith, length-append s t, length-append r t))))
    ]

-- How a stream is cut into reads does not matter: the messages of two reads are those of the first,
-- then those of what the first left over with the second, and the rest is the same.
pub split_messages-append : (s t : Text) → split_messages (s ++ t) ≡ resume (split_messages s) t
unfolding split_messages
split_messages-append s t =
    split_rounds-append (suc (length s)) (suc (length (s ++ t))) s t (omega arith) (omega arith)

skip_breaks_idem : (s : Text) → skip_breaks (skip_breaks s) ≡ skip_breaks s
skip_breaks_idem s =
    ap skip_breaks (sym (append-nil (skip_breaks s)))
    ∙ sym (skip_breaks-append s [])
    ∙ ap skip_breaks (append-nil s)

-- Nothing more is found in what is left over.
rest_is_stable :
    (f : ℕ) (s : Text)
    → length s < f
    → split_messages (split_rounds f s).1 ≡ ([], (split_rounds f s).1)
unfolding split_messages
rest_is_stable zero s h = absurd (omega arith)
rest_is_stable (suc f) s h = elim (Found-cases s) [
  | inl e ↦ rw (split_rounds-none (suc f) s e) (
      rw
        (split_rounds-none (suc (length (skip_breaks s))) (skip_breaks s)
          (ap first_message (skip_breaks_idem s) ∙ e))
        (rw (skip_breaks_idem s)))
  | inr (m, r, e) ↦
      let short = first_message-shorter (skip_breaks s) e in
      let less = length-skip_breaks s in
      rw (split_rounds-some f s e) (rest_is_stable f r (omega arith))
]

-- A reader that is given the reads of a stream one by one, as the receive loop is.
unfoldable pub read_all : Text → List Text → List Text × Text
read_all rest [] = ([], rest)
read_all rest (chunk ∷ chunks) =
    let (ms, r) = split_messages (rest ++ chunk) in let (ns, q) = read_all r chunks in (ms ++ ns, q)

abbrev pub joined : List Text → Text
joined [] = []
joined (c ∷ cs) = c ++ joined cs

read_all-joined :
    (rest : Text) (chunks : List Text)
    → split_messages rest ≡ ([], rest)
    → read_all rest chunks ≡ split_messages (rest ++ joined chunks)
unfolding read_all
read_all-joined rest [] h = rw append-nil (sym h)
read_all-joined rest (c ∷ cs) h =
    rw (← append_assoc rest c (joined cs), split_messages-append (rest ++ c) (joined cs))
      (rw (
        read_all-joined (split_messages (rest ++ c)).1 cs (
          unfold split_messages in
          rest_is_stable (suc (length (rest ++ c))) (rest ++ c) (omega arith))))

-- However a stream is cut into reads, the reader gets the messages of the whole stream in order, and
-- is left with the same rest.
pub read_all_lem : (chunks : List Text) → read_all [] chunks ≡ split_messages (joined chunks)
unfolding split_messages first_message find? skip_breaks
read_all_lem chunks = read_all-joined [] chunks refl
