-- ===== src/DialIn/Keys.antt =====
-- What `collect` makes of the keys of a caller.
use talk_sip_bridge.Base.{
  ℕ, zero, suc, ◌+◌, ◌≤◌, ◌<◌, ◌≡◌, refl, ◌∙◌, inl, inr, Bool, true, false, not, ◌&&◌, Option, none,
  some, List, [], ◌∷◌, ◌++◌, arith, leb, ◌==◌, Bool-cases, length, All, length-append, All-append,
}
use talk_sip_bridge.Base.Text.{Text}
use talk_sip_bridge.DialIn.{
  Ivr, Happening, pressed, hung_up, happen, happen_all, happenings, press, stop, pass, items, Got,
  key, empty, sentinel, next_digit, Round, returned, so_far, key_round, collect_rounds, collect,
  terminator, clear, max_digits, typed_key, terminated, after_round,
}

-- A key that belongs to a number.
abbrev pub is_plain : ℕ → Bool
is_plain c = not (c == terminator) && not (c == clear)

abbrev pub IsPlain : ℕ → Type 0
IsPlain c = is_plain c ≡ true

happen_items :
    (d : Ivr) (h : Happening)
    → (length (happen d h).digits ≡ suc (length d.digits)) × ((happen d h).ahead ≡ d.ahead)
unfolding press stop
happen_items d (pressed c) = (rw (length-append d.digits (some c ∷ [])) (ground arith), refl)
happen_items d hung_up = (rw (length-append d.digits (none ∷ [])) (ground arith), refl)

happen_all_items :
    (d : Ivr) (hs : List Happening)
    → (length (happen_all d hs).digits ≡ length d.digits + length hs)
      × ((happen_all d hs).ahead ≡ d.ahead)
unfolding happen_all
happen_all_items d [] = (ground arith, refl)
happen_all_items d (h ∷ hs) =
    let (one, same) = happen_items d h in
    let (more, still) = happen_all_items (happen d h) hs in (ground arith, still ∙ same)

pass-items_with :
    (d : Ivr) (ahead : List (List Happening)) → d.ahead ≡ ahead → items (pass d) ≡ items d
unfolding pass items happenings
pass-items_with d [] e = rw e refl
pass-items_with d (hs ∷ rest) e =
    let (more, same) = happen_all_items (record d { ahead = rest }) hs in
    rw (e, more, same) (ground arith)

-- Nothing is lost while the others have their turn.
items-pass : (d : Ivr) → items (pass d) ≡ items d
items-pass d = pass-items_with d d.ahead refl

-- Every key or sentinel that `get` gives is one less to come.
abbrev taken : Got → ℕ
taken empty = 0
taken sentinel = 1
taken (key c) = 1

next_digit_with :
    (d : Ivr) (ks : List (Option ℕ))
    → (pass d).digits ≡ ks
    → let (got, f) = next_digit d in items f + taken got ≡ items (pass d)
unfolding next_digit items
next_digit_with d [] e = rw e (ground arith)
next_digit_with d (none ∷ ks) e = rw e (ground arith)
next_digit_with d (some c ∷ ks) e = rw e (ground arith)

next_digit-items : (d : Ivr) → let (got, f) = next_digit d in items f + taken got ≡ items d
next_digit-items d = next_digit_with d (pass d).digits refl ∙ items-pass d

-- A number as the dialogue takes it.
abbrev pub IsNumber : Text → Type 0
IsNumber t = All IsPlain t × (length t ≤ max_digits)

abbrev IsFine : Round → Type 0
IsFine (returned t) = IsNumber t
IsFine (so_far t) = IsNumber t × (length t < max_digits)

terminated-IsFine : (t : Text) → IsNumber t → IsFine (terminated t)
terminated-IsFine [] n = ((tt, ground arith), ground arith)
terminated-IsFine (c ∷ cs) n = n

typed_key-IsFine :
    (t : Text) (c : ℕ) → IsNumber t → length t < max_digits → IsPlain c → IsFine (typed_key t c)
typed_key-IsFine t c n l p =
    let plain : All IsPlain (t ++ c ∷ []) = All-append IsPlain t (c ∷ []) n.0 (p, tt) in
    let longer = length-append t (c ∷ []) in
    elim (Bool-cases (leb max_digits (length (t ++ c ∷ [])))) [
      | inl full ↦ rw full (plain, omega arith)
      | inr room ↦ rw room ((plain, omega arith), ground arith)
    ]

key_round-IsFine :
    (t : Text) (g : Got) → IsNumber t → length t < max_digits → IsFine (key_round t g)
unfolding key_round
key_round-IsFine t empty n l = n
key_round-IsFine t sentinel n l = (tt, ground arith)
key_round-IsFine t (key c) n l = elim (Bool-cases (c == terminator)) [
  | inl ends ↦ rw ends (terminated-IsFine t n)
  | inr other ↦ elim (Bool-cases (c == clear)) [
    | inl clears ↦ rw (other, clears) ((tt, ground arith), ground arith)
    | inr plain ↦ rw (other, plain) (typed_key-IsFine t c n l (rw (other, plain) refl))
  ]
]

after_round-IsNumber :
    (n : ℕ) (e f : Ivr) (stopped : Bool) (r : Round)
    → ((t : Text) (d : Ivr)
        → IsNumber t
        → length t < max_digits
        → IsNumber (collect_rounds n t d).0)
    → IsFine r
    → IsNumber (after_round (collect_rounds n) e stopped r f).0
after_round-IsNumber n e f true r h k = (tt, ground arith)
after_round-IsNumber n e f false (returned t) h k = k
after_round-IsNumber n e f false (so_far t) h k = h t f k.0 k.1

collect_rounds-IsNumber :
    (n : ℕ) (t : Text) (d : Ivr)
    → IsNumber t
    → length t < max_digits
    → IsNumber (collect_rounds n t d).0
unfolding collect_rounds
collect_rounds-IsNumber zero t d v l = (tt, ground arith)
collect_rounds-IsNumber (suc n) t d v l =
    let (got, f) = next_digit (pass d) in
    after_round-IsNumber n (pass d) f (pass d).stopped (key_round t got)
      (λ u e w m. collect_rounds-IsNumber n u e w m) (key_round-IsFine t got v l)

-- What a caller keyed in, as `collect` gives it, has 32 keys at most, and neither # nor *.
pub collect-IsNumber : (d : Ivr) → IsNumber (collect d).0
unfolding collect
collect-IsNumber d = collect_rounds-IsNumber (suc (items d)) [] d (tt, ground arith) (ground arith)

-- Only a key lets `collect` go on.
goes_on_with_key : (t : Text) (g : Got) (u : Text) → key_round t g ≡ so_far u → taken g ≡ 1
unfolding key_round
goes_on_with_key t empty u e = cc
goes_on_with_key t sentinel u e = cc
goes_on_with_key t (key c) u e = refl

after_round-same :
    (n m : ℕ) (e f : Ivr) (stopped : Bool) (r : Round)
    → ((u : Text) → r ≡ so_far u → collect_rounds n u f ≡ collect_rounds m u f)
    → after_round (collect_rounds n) e stopped r f ≡ after_round (collect_rounds m) e stopped r f
after_round-same n m e f true r h = refl
after_round-same n m e f false (returned t) h = refl
after_round-same n m e f false (so_far t) h = h t refl

more_rounds :
    (n m : ℕ) (t : Text) (d : Ivr)
    → items d < n
    → n ≤ m
    → collect_rounds m t d ≡ collect_rounds n t d
unfolding collect_rounds
more_rounds zero m t d l k = absurd (ground arith)
more_rounds (suc n) zero t d l k = absurd (ground arith)
more_rounds (suc n) (suc m) t d l k =
    let (got, f) = next_digit (pass d) in
    after_round-same m n (pass d) f (pass d).stopped (key_round t got) (λ u e.
      let one = goes_on_with_key t got u e in
      let fewer = next_digit-items (pass d) in
      let same = items-pass d in more_rounds n m u f (omega arith) (omega arith))

-- `collect` returns: rounds beyond one for each item that can still come change nothing.
pub collect_returns : (d : Ivr) (k : ℕ) → collect_rounds (suc (items d) + k) [] d ≡ collect d
unfolding collect
collect_returns d k =
    more_rounds (suc (items d)) (suc (items d) + k) [] d (omega arith) (omega arith)
