-- ===== src/Registrar.antt =====
-- `SipRegistrar` of bridge/sip_registrar.py: whether a line is registered, and whether it is meant to
-- be. Each method, and each round of the keepalive loop, is one step under the lock.
pub mod Wanted
use talk_sip_bridge.Base.{
  ℕ, zero, suc, ◌+◌, ◌-◌, ◌*◌, ◌/◌, ◌%◌, ◌^◌, ◌≤◌, ◌<◌, min, ◌≡◌, refl, sym, ap, ap₂, ◌∙◌, ◌≢◌, ◌↔◌,
  ◌⊎◌, inl, inr, Bool, true, false, not, ◌&&◌, ◌||◌, Option, none, some, List, [], ◌∷◌, ◌++◌, map,
  arith, ltb, leb, ◌==◌, if◌then◌else◌, ltb→lt, lt→ltb, leb→le, ==_iff, Bool-cases, Option-cases,
  length, get_or, set, take, drop, replicate, All, length-append, take-append-drop, length-take,
  length-drop, length-replicate, All-append, length_zero, take-append, drop-append,
}
use talk_sip_bridge.Base.Text.{Text, codes}
use talk_sip_bridge.Base.Str.{first_of, find?, split_lines, splitlines}
use talk_sip_bridge.Base.Dict.{Dict, get}
use talk_sip_bridge.Line.{Line}
use talk_sip_bridge.Messages.Headers.{parse_sip_headers, header, or_default}
use talk_sip_bridge.Messages.Fields.{parse_auth_challenge, digest_response}
use talk_sip_bridge.Requests.{build_register, authorization_header, new_branch, new_tag, concat}

-- `registered`, `wanted`, whether `stop_event` is set, whether the keepalive thread is alive, the
-- last error, and whether the marker file is there.
pub record Registrar : Type 0 where
  pub registered : Bool
  pub wanted : Bool
  pub stopped : Bool
  pub keepalive : Bool
  pub last_error : Option Text
  pub marker : Bool

-- What a registration takes from outside: the hash of the library, the line, `register_expires`, and
-- whether there is a state file.
pub record Setup : Type 0 where
  pub md5hex : Text → Text
  pub line : Line
  pub register_expires : ℕ
  pub has_state_file : Bool

-- One exchange: the random parts, and what `wait_response` gives for each request.
pub record Exchange : Type 0 where
  pub call_token : Text
  pub tag_token : Text
  pub branch_token : Text
  pub second_token : Text
  pub first : Option Text
  pub second : Option Text

-- How a registration went: `refused` with its error, or the IndexError of a challenge.
pub data Outcome : Type 0 where
  accepted : Option Text → Outcome  -- with `last_error` after it
  refused : Text → Outcome
  raised : Outcome

-- `part in text`
unfoldable pub contains : Text → Text → Bool
contains part text = elim (find? text part) [ none ↦ false | some at ↦ true ]

abbrev call_id_of : Setup → Exchange → Text
call_id_of e x = concat (codes "bridge-reg-" ∷ x.call_token ∷ codes "@" ∷ e.line.local_ip ∷ [])

-- `msg`
unfoldable pub first_register : Setup → Exchange → ℕ → Bool → Text
first_register e x expires wildcard =
    build_register e.line (call_id_of e x) (new_tag x.tag_token) (new_branch x.branch_token []) 1
      expires none wildcard

abbrev credentials : Setup → Dict Text → Text
credentials e challenge =
    let realm = or_default (get (codes "realm") challenge) [] in
    let nonce = or_default (get (codes "nonce") challenge) [] in
    let uri = codes "sip:" ++ e.line.gateway_host in
    authorization_header e.line.sip_user realm uri nonce
      (digest_response e.md5hex e.line.sip_user realm e.line.sip_pass (codes "REGISTER") uri nonce)

-- `msg2`
unfoldable pub second_register : Setup → Exchange → ℕ → Bool → Dict Text → Text
second_register e x expires wildcard challenge =
    build_register e.line (call_id_of e x) (new_tag x.tag_token)
      (new_branch x.second_token (codes "x2")) 2 expires (some (credentials e challenge)) wildcard

-- What the answer to the second request says.
unfoldable pub second_answer : Option Text → Outcome
second_answer none = refused (codes "Timeout on REGISTER #2 (with auth)")
second_answer (some resp2) =
    if contains (codes " 200 ") (first_of (split_lines resp2))
    then accepted none
    else refused (codes "Registration failed: " ++ first_of (splitlines resp2))

challenged : Setup → Exchange → ℕ → Bool → List Text → Option (Dict Text) → Outcome × List Text
challenged e x expires wildcard sent none = (raised, sent)
challenged e x expires wildcard sent (some challenge) =
    (second_answer x.second, sent ++ second_register e x expires wildcard challenge ∷ [])

first_answer :
    Setup → Registrar → Exchange → ℕ → Bool → List Text → Option Text → Outcome × List Text
unfolding challenged
first_answer e s x expires wildcard sent none = (refused (codes "Timeout on REGISTER #1"), sent)
first_answer e s x expires wildcard sent (some resp) =
    let status_line = first_of (split_lines resp) in
    if not (contains (codes " 401 ") status_line) && not (contains (codes " 407 ") status_line)
    then if contains (codes " 200 ") status_line
      then (accepted s.last_error, sent)
      else (refused (codes "Unexpected response: " ++ status_line), sent)
    else challenged e x expires wildcard sent
        (parse_auth_challenge (header (parse_sip_headers resp) (codes "www-authenticate") []))

-- `_do_register`: how it went, and the requests sent.
unfoldable pub do_register : Setup → Registrar → Exchange → ℕ → Bool → Outcome × List Text
unfolding first_answer
do_register e s x expires wildcard =
    first_answer e s x expires wildcard (first_register e x expires wildcard ∷ []) x.first

-- `_persist`; the removal of a marker that is not there is only reported.
abbrev pub persist : Setup → Bool → Registrar → Registrar
persist e on s = if e.has_state_file then record s { marker = on } else s

-- What a registration leaves in `last_error`; an exception leaves it as it was.
abbrev pub noted : Outcome → Registrar → Registrar
noted (accepted error) s = record s { last_error = error }
noted (refused error) s = record s { last_error = some error }
noted raised s = s

abbrev pub is_accepted : Outcome → Bool
is_accepted (accepted error) = true
is_accepted _ = false

-- The part of `turn_on` after the registration; the result is `none` for an exception.
unfoldable pub turned_on : Setup → Registrar → Outcome → Registrar × Option Bool
turned_on e s raised = (s, none)
turned_on e s o = (
  persist e true
      (record (noted o s) { registered = is_accepted o; stopped = false; keepalive = true }),
  some (is_accepted o),
)

unfoldable pub turn_on : Setup → Registrar → Exchange → Registrar × Option Bool
turn_on e s x =
    if s.registered
    then (s, some true)
    else turned_on e (record s { wanted = true })
        (do_register e (record s { wanted = true }) x e.register_expires false).0

abbrev pub unpersist : Setup → Bool → Registrar → Registrar
unpersist e persists s = if persists then persist e false s else s

-- The part of `turn_off` after the registration for no time at all.
unfoldable pub turned_off : Setup → Bool → Registrar → Outcome → Registrar × Option Bool
turned_off e persists s raised = (s, none)
turned_off e persists s o =
    (unpersist e persists (record (noted o s) { registered = false }), some (is_accepted o))

unfoldable pub turn_off : Setup → Bool → Registrar → Exchange → Registrar × Option Bool
turn_off e persists s x =
    let off = record s { wanted = false; stopped = true } in
    if s.registered
    then turned_off e persists off (do_register e off x 0 false).0
    else (unpersist e persists off, some true)

unfoldable pub wipe_all_bindings : Setup → Registrar → Exchange → Registrar
wipe_all_bindings e s x = noted (do_register e s x 0 true).0 s

-- `delay`, in tenths of seconds: 0.6 of the expiry while registered, else at most the interval.
unfoldable pub keepalive_delay : Setup → Registrar → ℕ
keepalive_delay e s =
    if s.registered then e.register_expires * 6 else min 300 (e.register_expires * 6)

-- `except Exception`: `error` is its representation.
unfoldable pub refreshed : Text → Registrar → Outcome → Registrar
refreshed error s raised = record s { registered = false; last_error = some error }
refreshed error s o = record (noted o s) { registered = is_accepted o }

-- One round of `_keepalive_loop` after its wait; a thread that has ended does nothing.
unfoldable pub keepalive_round : Setup → Text → Registrar → Exchange → Registrar
keepalive_round e error s x =
    if not s.keepalive
    then s
    else if s.stopped || not s.wanted
    then record s { keepalive = false }
    else refreshed error s (do_register e s x e.register_expires false).0

pub data Event : Type 0 where
  turns_on : Exchange → Event
  turns_off : Bool → Exchange → Event
  wipes : Exchange → Event
  wakes : Text → Exchange → Event

unfoldable pub happen : Setup → Registrar → Event → Registrar
happen e s (turns_on x) = (turn_on e s x).0
happen e s (turns_off persists x) = (turn_off e persists s x).0
happen e s (wipes x) = wipe_all_bindings e s x
happen e s (wakes error x) = keepalive_round e error s x

unfoldable pub happen_all : Setup → Registrar → List Event → Registrar
happen_all e s [] = s
happen_all e s (x ∷ xs) = happen_all e (happen e s x) xs
