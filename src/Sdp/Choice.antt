-- ===== src/Sdp/Choice.antt =====
-- The codec that is chosen, and that each has a name.
use talk_sip_bridge.Base.{
  ℕ, ◌≡◌, refl, ◌≢◌, inl, inr, true, false, Option, none, some, List, [], ◌∷◌, arith, Bool-cases,
  Option-cases,
}
use talk_sip_bridge.Line.{Line}
use talk_sip_bridge.Sdp.{
  num_elem, supported, pt_g722, codec_name, first_supported, choose_payload_type, answer_sdp,
  sdp_host_port,
}

-- What a choice promises: a codec that both sides speak, and `none` only where there is none.
abbrev pub IsFit : List ℕ → Option ℕ → Type 0
IsFit offered none = (pt : ℕ) → num_elem pt supported ≡ true → num_elem pt offered ≡ false
IsFit offered (some pt) =
    (num_elem pt supported ≡ true)
    × (num_elem pt offered ≡ true)
    × (num_elem pt_g722 offered ≡ true → pt ≡ pt_g722)

first_supported-some :
    (offered : List ℕ) (pt : ℕ)
    → first_supported offered ≡ some pt
    → (num_elem pt supported ≡ true) × (num_elem pt offered ≡ true)
unfolding first_supported num_elem
first_supported-some [] pt h = cc
first_supported-some (x ∷ xs) pt h = ground (arith, first_supported-some xs pt)

first_supported-none :
    (offered : List ℕ) (pt : ℕ)
    → first_supported offered ≡ none
    → num_elem pt supported ≡ true
    → num_elem pt offered ≡ false
unfolding first_supported num_elem
first_supported-none [] pt h k = refl
first_supported-none (x ∷ xs) pt h k = ground (arith, first_supported-none xs pt)

-- The codec chosen of an offer is one that the bridge speaks and that was offered, and it is
-- G.722 wherever that was offered; no codec is chosen only where the bridge speaks none of those
-- offered.
pub choose_payload_type-IsFit : (offered : List ℕ) → IsFit offered (choose_payload_type offered)
unfolding choose_payload_type num_elem
choose_payload_type-IsFit offered = elim (Bool-cases (num_elem pt_g722 offered)) [
  | inl e ↦ rw e (refl, e, λ h. refl)
  | inr e ↦ rw e (elim (Option-cases (first_supported offered)) [
    | inl none_fits ↦ rw none_fits (λ pt. first_supported-none offered pt none_fits)
    | inr (pt, fits) ↦
        rw fits (let (a, b) = first_supported-some offered pt fits in (a, b, λ h. cc))
  ])
]

-- The names are there for every codec of the bridge.
pub answer_sdp_total :
    (line : Line) (port pt : ℕ) (dtmf : Option ℕ)
    → num_elem pt supported ≡ true
    → answer_sdp line port pt dtmf ≢ none
unfolding answer_sdp codec_name num_elem sdp_host_port
answer_sdp_total line port pt dtmf h k = ground arith
