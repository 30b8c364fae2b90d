-- ===== src/DialIn/Numbers.antt =====
-- A number that waits in the queue is the number collected.
use talk_sip_bridge.Base.{
  ℕ, zero, suc, ◌+◌, ◌<◌, ◌≡◌, refl, sym, ap, ap₂, ◌∙◌, Bool, false, Option, some, List, [], ◌∷◌,
  ◌++◌, arith, leb, ◌==◌, length, All, length-append,
}
use talk_sip_bridge.Base.Text.{Text}
use mathlib.Core.Path.{subst}
use mathlib.Core.List.{append_assoc, append-nil}
use talk_sip_bridge.DialIn.{
  Ivr, Happening, pressed, hung_up, happen, happen_all, happenings, press, pass, items, Got, key,
  next_digit, key_round, collect_rounds, collect, terminator, clear, max_digits, after_round,
}
use talk_sip_bridge.DialIn.Keys.{IsPlain}

-- Nobody hangs up.
abbrev IsPress : Happening → Type 0
IsPress (pressed c) = Unit
IsPress hung_up = ⊥

-- The caller is still there, and stays.
abbrev pub IsThere : Ivr → Type 0
IsThere d = (d.stopped ≡ false) × All (All IsPress) d.ahead

-- A number keyed in, then #.
abbrev pub queued : Text → List (Option ℕ) → List (Option ℕ)
queued [] rest = some terminator ∷ rest
queued (c ∷ cs) rest = some c ∷ queued cs rest

-- The queue after others had their turn: what it held, and more.
abbrev Grows : Ivr → Ivr → Type 0
Grows d e =
    (e.stopped ≡ d.stopped)
    × (e.ahead ≡ d.ahead)
    × (more : List (Option ℕ)) × (e.digits ≡ d.digits ++ more)

press_Grows : (d : Ivr) (h : Happening) → IsPress h → Grows d (happen d h)
unfolding press
press_Grows d (pressed c) q = (refl, refl, some c ∷ [], refl)
press_Grows d hung_up q = elim q [ ]

Grows-trans : (d e f : Ivr) → Grows d e → Grows e f → Grows d f
Grows-trans d e f (s, a, m, g) (t, b, n, h) =
    (t ∙ s, b ∙ a, m ++ n, h ∙ ap (λ l. l ++ n) g ∙ append_assoc d.digits m n)

happen_all-Grows : (d : Ivr) (hs : List Happening) → All IsPress hs → Grows d (happen_all d hs)
unfolding happen_all
happen_all-Grows d [] q = (refl, refl, [], sym (append-nil d.digits))
happen_all-Grows d (h ∷ hs) q =
    Grows-trans d (happen d h) (happen_all (happen d h) hs) (press_Grows d h q.0)
      (happen_all-Grows (happen d h) hs q.1)

pass-IsThere_with :
    (d : Ivr) (ahead : List (List Happening))
    → d.ahead ≡ ahead
    → IsThere d
    → IsThere (pass d) × (more : List (Option ℕ)) × ((pass d).digits ≡ d.digits ++ more)
unfolding pass
pass-IsThere_with d [] e t = rw e ((t.0, tt), [], sym (append-nil d.digits))
pass-IsThere_with d (hs ∷ rest) e t =
    let presses : All (All IsPress) (hs ∷ rest) = subst (λ x. All (All IsPress) x) e t.1 in
    let (same, left, more, grown) = happen_all-Grows (record d { ahead = rest }) hs presses.0 in
    rw (e, same, left) ((t.0, presses.1), more, grown)

pass-IsThere :
    (d : Ivr)
    → IsThere d
    → IsThere (pass d) × (more : List (Option ℕ)) × ((pass d).digits ≡ d.digits ++ more)
pass-IsThere d t = pass-IsThere_with d d.ahead refl t

queued-append :
    (w : Text) (rest more : List (Option ℕ)) → queued w rest ++ more ≡ queued w (rest ++ more)
queued-append [] rest more = refl
queued-append (c ∷ cs) rest more = ap (λ l. some c ∷ l) (queued-append cs rest more)

-- A get finds the next key of a queue.
get_queued :
    (d : Ivr) (w : Text) (rest : List (Option ℕ))
    → IsThere d
    → d.digits ≡ queued w rest
    → (more : List (Option ℕ)) × (IsThere (pass d)) × ((pass d).digits ≡ queued w more)
get_queued d w rest t q =
    let (there, more, grown) = pass-IsThere d t in
    (rest ++ more, there, grown ∙ ap (λ l. l ++ more) q ∙ queued-append w rest more)

next_digit_first :
    (d : Ivr) (c : ℕ) (ks : List (Option ℕ))
    → (pass d).digits ≡ some c ∷ ks
    → next_digit d ≡ (key c, record (pass d) { digits = ks })
unfolding next_digit
next_digit_first d c ks e = rw (next_digit, e) refl

collect_round :
    (n : ℕ) (t : Text) (d : Ivr) (c : ℕ) (ks : List (Option ℕ))
    → (pass d).stopped ≡ false
    → (pass (pass d)).digits ≡ some c ∷ ks
    → collect_rounds (suc n) t d
      ≡ after_round
          (collect_rounds n)
          (pass d)
          false
          (key_round t (key c))
          (record (pass (pass d)) { digits = ks })
unfolding collect_rounds
collect_round n t d c ks there q =
    let settled : Bool → Got × Ivr → Text × Ivr =
      λ s g. after_round (collect_rounds n) (pass d) s (key_round t g.0) g.1 in
    ap₂ settled there (next_digit_first (pass d) c ks q)

plain_key : (c : ℕ) → IsPlain c → ((c == terminator) ≡ false) × ((c == clear) ≡ false)
plain_key c p = (ground arith, ground arith)

queued_fits :
    (w : Text) (rest : List (Option ℕ)) (ahead : List (List Happening))
    → length w < suc (length (queued w rest) + happenings ahead)
queued_fits [] rest ahead = omega arith
queued_fits (c ∷ cs) rest ahead = let fits = queued_fits cs rest ahead in omega arith

number_rounds :
    (w t : Text) (n : ℕ) (d : Ivr) (rest : List (Option ℕ))
    → IsThere d
    → d.digits ≡ queued w rest
    → All IsPlain w
    → 0 < length t + length w
    → length t + length w < max_digits
    → length w < n
    → (collect_rounds n t d).0 ≡ t ++ w
unfolding key_round
number_rounds w t zero d rest there q p some_keys fits fuel = absurd (omega arith)
number_rounds [] [] (suc n) d rest there q p some_keys fits fuel = absurd (omega arith)
number_rounds [] (k ∷ ks) (suc n) d rest there q p some_keys fits fuel =
    let (r1, there1, q1) = get_queued d [] rest there q in
    let (r2, there2, q2) = get_queued (pass d) [] r1 there1 q1 in
    ap (λ x. x.0) (collect_round n (k ∷ ks) d terminator r2 there1.0 q2) ∙ sym (append-nil (k ∷ ks))
number_rounds (c ∷ cs) t (suc n) d rest there q p some_keys fits fuel =
    let (r1, there1, q1) = get_queued d (c ∷ cs) rest there q in
    let (r2, there2, q2) = get_queued (pass d) (c ∷ cs) r1 there1 q1 in
    let (not_end, not_clear) = plain_key c p.0 in
    let longer = length-append t (c ∷ []) in
    let space : leb max_digits (length (t ++ c ∷ [])) ≡ false = ground arith in
    ap (λ x. x.0) (collect_round n t d c (queued cs r2) there1.0 q2)
    ∙ rw (not_end, not_clear, space)
        (number_rounds cs (t ++ c ∷ []) n (record (pass (pass d)) { digits = queued cs r2 }) r2
          there2 refl p.1 (ground arith) (ground arith) (ground arith))
    ∙ append_assoc t (c ∷ []) cs

-- Where a number of 1 to 31 keys and a # after it wait in the queue, `collect` gives that number,
-- whatever else the caller keys in meanwhile, as long as nobody hangs up.
pub number_is_collected :
    (d : Ivr) (w : Text) (rest : List (Option ℕ))
    → IsThere d
    → d.digits ≡ queued w rest
    → All IsPlain w
    → 0 < length w
    → length w < max_digits
    → (collect d).0 ≡ w
unfolding collect items
number_is_collected d w rest there q p some_keys fits =
    number_rounds w [] (suc (items d)) d rest there q p (ground arith) (ground arith)
      (rw q (queued_fits w rest d.ahead))
