-- ===== src/DialIn/Meeting.antt =====
-- bridge/talk_sip_bridge.py: asking Nextcloud, as a SIP bridge, for the conversation of a caller.
-- The signed POST itself is a parameter: it takes what is sent and gives the status and the data.
use talk_sip_bridge.Base.{
  ℕ, ◌≡◌, refl, Bool, true, false, not, ◌&&◌, Option, none, some, List, [], ◌∷◌, ◌++◌, arith, leb,
  ◌==◌, if◌then◌else◌, length, All, inl, inr, Bool-cases, ◌≤◌,
}
use talk_sip_bridge.Base.Text.{Text, codes}
use talk_sip_bridge.Base.Dict.{Dict, get}
use talk_sip_bridge.Base.Str.{is_digit}

unfoldable pub api : Text
api = codes "/ocs/v2.php/apps/spreed/api/v4"

-- One POST: where to, what the checksum is over, and the form.
pub record Posted : Type 0 where
  pub path : Text
  pub signed_over : Text
  pub form : Dict Text

-- The object that an answer carries, as far as its members are texts.
abbrev pub Data : Type 0
Data = Dict Text

abbrev pub Post : Type 0
Post = Posted → ℕ × Option Data

pub data Outcome : Type 0 where
  ok : Outcome
  needs_pin : Outcome
  unknown : Outcome
  refused : Outcome

-- What a function gives, and what it has posted.
pub record Joined : Type 0 where
  pub outcome : Outcome
  pub room : Option Data
  pub posted : List Posted

unfoldable pub are_digits : Text → Bool
are_digits [] = true
are_digits (c ∷ cs) = is_digit c && are_digits cs

-- `re.compile(r"[0-9]{least,most}").fullmatch`
unfoldable pub digits_match : ℕ → ℕ → Text → Bool
digits_match least most text = are_digits text && leb least (length text) && leb (length text) most

unfoldable pub is_meeting_id : Text → Bool
is_meeting_id token = digits_match 4 30 token

unfoldable pub is_pin : Text → Bool
is_pin pin = digits_match 3 32 pin

abbrev pub is_bad_pin : Option Text → Bool
is_bad_pin none = false
is_bad_pin (some pin) = not (is_pin pin)

unfoldable pub dial_in_path : Text → Option Text → Text
dial_in_path token none = api ++ codes "/room/" ++ token ++ codes "/open-dial-in"
dial_in_path token (some pin) = api ++ codes "/room/" ++ token ++ codes "/verify-dialin"

unfoldable pub dial_in_form : Option Text → Dict Text
dial_in_form none = []
dial_in_form (some pin) = (codes "pin", pin) ∷ []

abbrev pub is_named : Option Text → Bool
is_named none = false
is_named (some []) = false
is_named (some (c ∷ cs)) = true

-- `data and data.get("token")`
unfoldable pub names_a_room : Option Data → Bool
names_a_room none = false
names_a_room (some found) = is_named (get (codes "token") found)

abbrev pub is_none : Option Text → Bool
is_none none = true
is_none (some pin) = false

-- What the status of the answer means to the caller.
unfoldable pub judge : Option Text → List Posted → ℕ × Option Data → Joined
judge pin sent (status, found) =
    if (status == 200) && names_a_room found
    then record { outcome = ok; room = found; posted = sent }
    else if (status == 400) && is_none pin
    then record { outcome = needs_pin; room = none; posted = sent }
    else if status == 401
    then record { outcome = refused; room = none; posted = sent }
    else record { outcome = unknown; room = none; posted = sent }

abbrev pub dial_in_request : Text → Option Text → Posted
dial_in_request token pin = record {
  path = dial_in_path token pin;
  signed_over = token;
  form = dial_in_form pin;
}

unfoldable pub join_by_meeting_id : Post → Text → Text → Option Text → Joined
join_by_meeting_id post [] token pin = record { outcome = refused; room = none; posted = [] }
join_by_meeting_id post secret token pin =
    if not (is_meeting_id token)
    then record { outcome = unknown; room = none; posted = [] }
    else if is_bad_pin pin
    then record { outcome = unknown; room = none; posted = [] }
    else judge pin (dial_in_request token pin ∷ []) (post (dial_in_request token pin))

unfoldable pub direct_dial_in_request : Text → Text → Posted
direct_dial_in_request dialled caller = record {
  path = api ++ codes "/room/direct-dial-in";
  signed_over = dialled;
  form = (codes "phoneNumber", dialled) ∷ (codes "caller", caller) ∷ [];
}

abbrev pub room_of : ℕ × Option Data → Option Data
room_of (status, found) =
    if not (status == 200) then none else if not (names_a_room found) then none else found

unfoldable pub direct_dial_in : Post → Text → Text → Text → Option Data
direct_dial_in post [] dialled caller = none
direct_dial_in post secret dialled caller = room_of (post (direct_dial_in_request dialled caller))

abbrev pub is_ok : Outcome → Bool
is_ok ok = true
is_ok _ = false

-- What may leave the bridge: the open door without a PIN, the other one with it, and nothing but
-- digits of the lengths allowed in either.
pub record IsAllowed (token : Text) (pin : Option Text) (p : Posted) : Type 0 where
  pub to_the_door : p.path ≡ dial_in_path token pin
  pub signed : p.signed_over ≡ token
  pub token_digits : is_meeting_id token ≡ true
  pub pin_digits : is_bad_pin pin ≡ false

judge_rooms :
    (pin : Option Text) (sent : List Posted) (answer : ℕ × Option Data)
    → let j = judge pin sent answer in (j.posted ≡ sent) × (names_a_room j.room ≡ is_ok j.outcome)
unfolding judge names_a_room
judge_rooms pin sent (status, found) = ground arith

pub join_posts_digits :
    (post : Post) (secret token : Text) (pin : Option Text)
    → let j = join_by_meeting_id post secret token pin in
      All (IsAllowed token pin) j.posted
      × (length j.posted ≤ 1)
      × (names_a_room j.room ≡ is_ok j.outcome)
unfolding join_by_meeting_id names_a_room
join_posts_digits post [] token pin = (tt, ground arith, refl)
join_posts_digits post (c ∷ cs) token pin = elim (Bool-cases (is_meeting_id token)) [
  | inr bad ↦ rw bad (tt, ground arith, refl)
  | inl good ↦ elim (Bool-cases (is_bad_pin pin)) [
    | inl bad_pin ↦ rw (good, bad_pin) (tt, ground arith, refl)
    | inr good_pin ↦
        let allowed : IsAllowed token pin (dial_in_request token pin) = record {
          to_the_door = refl;
          signed = refl;
          token_digits = good;
          pin_digits = good_pin;
        } in
        let (kept, rooms) =
          judge_rooms pin (dial_in_request token pin ∷ []) (post (dial_in_request token pin)) in
        rw (good, good_pin, kept) ((allowed, tt), ground arith, rooms)
  ]
]
