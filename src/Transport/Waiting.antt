-- ===== src/Transport/Waiting.antt =====
-- Who gets a response.
use talk_sip_bridge.Base.{
  ℕ, ◌≡◌, refl, ap, ◌∙◌, inl, inr, not, ◌&&◌, Option, none, some, List, [], ◌∷◌, ◌++◌, arith,
  if◌then◌else◌, Bool-cases, Option-cases,
}
use mathlib.Core.List.{append_assoc, append-nil}
use talk_sip_bridge.Base.Text.{Text, text_eq, text_eq_iff}
use talk_sip_bridge.Base.Dict.{get, get-put}
use talk_sip_bridge.Call.{Addr}
use talk_sip_bridge.Call.Operations.{Env, Operation}
use talk_sip_bridge.Transport.{
  Transport, open_waiter, received, call_id_of, is_response, is_blank, deliver, dispatch, handle,
  count_message, operation_of, handle_all,
}

abbrev pub first? : List Text → Option Text
first? [] = none
first? (x ∷ xs) = some x

-- The responses to one Call-ID.
unfoldable pub answers_to : Text → List Text → List Text
answers_to call_id [] = []
answers_to call_id (m ∷ ms) =
    let rest = answers_to call_id ms in
    if not (is_blank m) && is_response m && text_eq (call_id_of m) call_id then m ∷ rest else rest

dispatch_pending :
    (e : Env) (t : Transport) (o : Option Operation) → (dispatch e t o).0.pending ≡ t.pending
unfolding dispatch
dispatch_pending e t none = refl
dispatch_pending e t (some o) = refl

get-deliver :
    (t : Transport) (j m i : Text) (q : List Text)
    → get i t.pending ≡ some q
    → get i (deliver t j m).pending ≡ some (q ++ (if text_eq j i then m ∷ [] else []))
unfolding deliver
get-deliver t j m i q h = elim (Bool-cases (text_eq j i)) [
  | inl same ↦
      let found : get j t.pending ≡ some q = ground (arith, text_eq_iff j i) in
      rw (deliver, found, same, get-put j i (q ++ m ∷ []) t.pending) (rw same refl)
  | inr other ↦ elim (Option-cases (get j t.pending)) [
    | inl e ↦ rw (deliver, e, other, append-nil) h
    | inr (p, e) ↦
        rw (deliver, e, other, append-nil, get-put j i (p ++ m ∷ []) t.pending) (rw other h)
  ]
]

-- The responses of the first message, and of the others.
answers_to-cons :
    (i m : Text) (ms q : List Text)
    → (q ++ answers_to i (m ∷ [])) ++ answers_to i ms ≡ q ++ answers_to i (m ∷ ms)
unfolding answers_to
answers_to-cons i m ms q =
    elim (Bool-cases (not (is_blank m) && is_response m && text_eq (call_id_of m) i)) [
      | inl own ↦ rw own (append_assoc q (m ∷ []) (answers_to i ms))
      | inr not_own ↦ rw (not_own, append-nil) refl
    ]

-- What one message changes about the queue of a Call-ID that somebody waits on.
get-handle :
    (e : Env) (tags : ℕ → Text) (t : Transport) (m : Text) (a : Addr) (i : Text) (q : List Text)
    → get i t.pending ≡ some q
    → get i (handle e tags t m a).0.pending ≡ some (q ++ answers_to i (m ∷ []))
unfolding handle answers_to deliver dispatch
get-handle e tags t m a i q h = elim (Bool-cases (is_blank m)) [
  | inl blank ↦ rw (blank, append-nil) h
  | inr full ↦ elim (Bool-cases (is_response m)) [
    | inl answer ↦ rw (full, answer) (get-deliver (count_message t) (call_id_of m) m i q h)
    | inr asked ↦
        rw
          (
            full,
            asked,
            append-nil,
            dispatch_pending e (count_message t) (operation_of tags t.served m a),
          )
          h
  ]
]

get-handle_all :
    (e : Env) (tags : ℕ → Text) (t : Transport) (ms : List Text) (a : Addr) (i : Text)
    (q : List Text)
    → get i t.pending ≡ some q
    → get i (handle_all e tags t ms a).0.pending ≡ some (q ++ answers_to i ms)
unfolding handle_all answers_to
get-handle_all e tags t [] a i q h = rw append-nil h
get-handle_all e tags t (m ∷ ms) a i q h =
    get-handle_all e tags (handle e tags t m a).0 ms a i _ (get-handle e tags t m a i q h)
    ∙ ap some (answers_to-cons i m ms q)

waiter_opened : (t : Transport) (i : Text) → get i (open_waiter t i).pending ≡ some []
unfolding open_waiter
waiter_opened t i = get-put i i [] t.pending ∙ rw ((text_eq_iff i i).1 refl) refl

received_first :
    (q : List Text) (t : Transport) (i : Text) → get i t.pending ≡ some q → received t i ≡ first? q
unfolding received
received_first [] t i h = rw (received, h) refl
received_first (x ∷ xs) t i h = rw (received, h) refl

-- Between the opening of a waiter for a Call-ID and its closing, whatever messages arrive in
-- whatever order: its queue holds exactly the responses with that Call-ID, in the order in which
-- they came, and so the waiter is given the first of them, and nothing if there is none.
pub waiter_gets_responses :
    (e : Env) (tags : ℕ → Text) (t : Transport) (ms : List Text) (a : Addr) (i : Text)
    → let u = (handle_all e tags (open_waiter t i) ms a).0 in
      (get i u.pending ≡ some (answers_to i ms)) × (received u i ≡ first? (answers_to i ms))
waiter_gets_responses e tags t ms a i =
    let held = get-handle_all e tags (open_waiter t i) ms a i [] (waiter_opened t i) in
    (held, received_first (answers_to i ms) (handle_all e tags (open_waiter t i) ms a).0 i held)
