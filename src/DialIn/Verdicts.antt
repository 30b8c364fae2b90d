-- ===== src/DialIn/Verdicts.antt =====
-- What the answers of Nextcloud say of the end of a dialogue.
use talk_sip_bridge.Base.{
  ℕ, ◌≤◌, ◌<◌, ◌≡◌, refl, Bool, true, false, Option, none, some, List, [], ◌∷◌, arith, length, All,
}
use mathlib.Core.Path.{ap, ◌∙◌}
use talk_sip_bridge.Base.Text.{Text, codes}
use talk_sip_bridge.Base.Dict.{get}
use talk_sip_bridge.DialIn.Meeting.{Data, Outcome, ok, needs_pin, unknown, refused, is_ok}
use talk_sip_bridge.DialIn.Keys.{IsNumber}
use talk_sip_bridge.DialIn.Trace.{play_asked}
use talk_sip_bridge.DialIn.{
  admitted, Ivr, Setup, Asked, Ended, entered, left, failed, Step, over, next, verdict,
}

-- The answer after which the dialogue may go on.
abbrev pub is_open : Outcome → Bool
is_open needs_pin = true
is_open unknown = true
is_open _ = false

abbrev pub IsOpen : Asked → Type 0
IsOpen a = is_open a.outcome ≡ true

abbrev pub IsPin : Option Text → Type 0
IsPin none = Unit
IsPin (some pin) = IsNumber pin × (0 < length pin)

-- Nextcloud is asked with numbers, and never with nothing; the answer is one of its.
abbrev pub IsKeyed : Setup → Asked → Type 0
IsKeyed s a =
    (IsNumber a.token × (0 < length a.token) × IsPin a.pin)
    × ((i : ℕ) × (s.resolve i a.token a.pin ≡ (a.outcome, a.room)))

abbrev pub is_present : Option Text → Bool
is_present none = false
is_present (some t) = true

-- Whether there is a room with a token at all.
abbrev pub has_token : Option Data → Bool
has_token none = false
has_token (some room) = is_present (get (codes "token") room)

-- How a dialogue ends follows from the answers, newest first: in the room of the newest one, if that
-- is OK; and whatever was asked before it left the end open.
abbrev pub Follows : Ended → List Asked → Type 0
Follows (entered room) [] = ⊥
Follows (entered room) (a ∷ xs) = (a.outcome ≡ ok) × (a.room ≡ some room) × All IsOpen xs
Follows failed [] = ⊥
Follows failed (a ∷ xs) = (a.outcome ≡ ok) × (has_token a.room ≡ false) × All IsOpen xs
Follows left [] = Unit
Follows left (a ∷ xs) = (is_ok a.outcome ≡ false) × All IsOpen xs

abbrev pub IsSound : Setup → ℕ → List Asked → Type 0
IsSound s n xs = All (IsKeyed s) xs × (length xs ≤ n)

pub IsSound-≤ : (s : Setup) (n m : ℕ) (xs : List Asked) → n ≤ m → IsSound s n xs → IsSound s m xs
IsSound-≤ s n m xs l (k, b) = (k, omega arith)

abbrev pub StepFits : Setup → ℕ → Step → Type 0
StepFits s n (over ended d) = Follows ended d.asked × IsSound s n d.asked
StepFits s n (next d) = All IsOpen d.asked × IsSound s n d.asked

admitted_fits :
    (s : Setup) (n : ℕ) (a : Asked) (xs : List Asked) (d : Ivr) (room : Data) (token : Option Text)
    → a.outcome ≡ ok
    → a.room ≡ some room
    → get (codes "token") room ≡ token
    → d.asked ≡ a ∷ xs
    → All IsOpen xs
    → IsSound s n (a ∷ xs)
    → StepFits s n (admitted s token room d)
admitted_fits s n a xs d room (some token) p q t e h k =
    rw (play_asked s s.accepted d, e) ((p, q, h), k)
admitted_fits s n a xs d room none p q t e h k = rw e ((p, ap has_token q ∙ ap is_present t, h), k)

-- The verdict on the newest answer.
pub verdict_fits :
    (s : Setup) (n : ℕ) (a : Asked) (xs : List Asked) (d : Ivr) (o : Outcome) (r : Option Data)
    → a.outcome ≡ o
    → a.room ≡ r
    → d.asked ≡ a ∷ xs
    → All IsOpen xs
    → IsSound s n (a ∷ xs)
    → StepFits s n (verdict s (o, r) d)
unfolding verdict
verdict_fits s n a xs d ok (some room) p q e h k =
    admitted_fits s n a xs d room (get (codes "token") room) p q refl e h k
verdict_fits s n a xs d ok none p q e h k = rw e ((p, ap has_token q, h), k)
verdict_fits s n a xs d refused r p q e h k = rw (play_asked s s.rejected d, e) ((rw p refl, h), k)
verdict_fits s n a xs d needs_pin r p q e h k =
    rw (play_asked s s.rejected d, e) ((rw p refl, h), k)
verdict_fits s n a xs d unknown r p q e h k = rw (play_asked s s.rejected d, e) ((rw p refl, h), k)
