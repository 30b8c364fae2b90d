-- ===== src/Transport/Streams.antt =====
-- The line behind one TCP connection: from the reads of its stream to the replies.
use talk_sip_bridge.Base.{
  ℕ, ◌≡◌, refl, sym, ap, ap₂, ◌∙◌, inl, inr, Bool, true, false, not, ◌&&◌, ◌||◌, Option, none, some,
  List, [], ◌∷◌, ◌++◌, arith, if◌then◌else◌, Bool-cases,
}
use mathlib.Core.List.{append_assoc}
use talk_sip_bridge.Base.Text.{Text, codes, text_eq}
use talk_sip_bridge.Messages.{split_messages}
use talk_sip_bridge.Messages.Headers.{Headers, parse_sip_headers}
use talk_sip_bridge.Messages.Framing.{read_all, joined, read_all_lem}
use talk_sip_bridge.Call.{Addr, Effect, Manager, sent, response}
use talk_sip_bridge.Call.Operations.{Env, Request, Operation, operate}
use talk_sip_bridge.Call.Invariant.{IsValid, operate-IsValid}
use talk_sip_bridge.Call.Replies.{replies, request_of, IsReplied, request-IsReplied}
use talk_sip_bridge.Transport.{
  Transport, is_response, is_blank, method_of, request_in, handler, operation_of, deliver, dispatch,
  handle, handle_all, read_loop, count_message, call_id_of,
}

handle_all-append :
    (e : Env) (tags : ℕ → Text) (t : Transport) (ms ns : List Text) (a : Addr)
    → let (t1, es) = handle_all e tags t ms a in
      let (t2, fs) = handle_all e tags t1 ns a in handle_all e tags t (ms ++ ns) a ≡ (t2, es ++ fs)
unfolding handle_all
handle_all-append e tags t [] ns a = refl
handle_all-append e tags t (m ∷ ms) ns a =
    let (t1, es) = handle e tags t m a in
    let (t2, fs) = handle_all e tags t1 ms a in
    let (t3, gs) = handle_all e tags t2 ns a in
    rw (handle_all-append e tags t1 ms ns a) (ap (λ l. (t3, l)) (sym (append_assoc es fs gs)))

read_loop-read_all :
    (e : Env) (tags : ℕ → Text) (t : Transport) (buffer : Text) (chunks : List Text) (a : Addr)
    → let (ms, rest) = read_all buffer chunks in
      let (u, es) = handle_all e tags t ms a in read_loop e tags t buffer chunks a ≡ (u, rest, es)
unfolding read_loop read_all handle_all
read_loop-read_all e tags t buffer [] a = refl
read_loop-read_all e tags t buffer (c ∷ cs) a =
    let (ms, rest) = split_messages (buffer ++ c) in
    let (t1, es) = handle_all e tags t ms a in
    rw
      (read_loop-read_all e tags t1 rest cs a, handle_all-append e tags t ms (read_all rest cs).0 a)
      refl

-- However the stream of a connection is cut into reads, the line does with it what it does with the
-- messages of the whole stream, one after the other, and the bytes left over are the same.
reads_do_not_matter :
    (e : Env) (tags : ℕ → Text) (t : Transport) (chunks : List Text) (a : Addr)
    → let (ms, rest) = split_messages (joined chunks) in
      let (u, es) = handle_all e tags t ms a in read_loop e tags t [] chunks a ≡ (u, rest, es)
reads_do_not_matter e tags t chunks a =
    read_loop-read_all e tags t [] chunks a ∙ rw (read_all_lem chunks) refl

-- What a response echoes, and where it goes.
unfoldable pub answered : List (Text × Headers × Option Addr) → List (Headers × Option Addr)
answered [] = []
answered ((s, h, a) ∷ rs) = (h, a) ∷ answered rs

-- Whether the line has a handler for a message.
unfoldable pub is_known_request : Text → Bool
is_known_request m =
    not (is_blank m || is_response m)
    && (text_eq (method_of m) (codes "INVITE")
        || text_eq (method_of m) (codes "BYE")
        || text_eq (method_of m) (codes "CANCEL")
        || text_eq (method_of m) (codes "OPTIONS")
        || text_eq (method_of m) (codes "INFO"))

unfoldable pub requests_in : List Text → Addr → List (Headers × Option Addr)
requests_in [] a = []
requests_in (m ∷ ms) a =
    let rest = requests_in ms a in
    if is_known_request m then (parse_sip_headers m, some a) ∷ rest else rest

replies-append : (es fs : List Effect) → replies (es ++ fs) ≡ replies es ++ replies fs
unfolding replies
replies-append [] fs = refl
replies-append (sent (response s h x b t) a ∷ es) fs =
    ap (λ l. (s, h, a) ∷ l) (replies-append es fs)
replies-append (e ∷ es) fs = replies-append es fs

answered-append :
    (rs qs : List (Text × Headers × Option Addr)) → answered (rs ++ qs) ≡ answered rs ++ answered qs
unfolding answered
answered-append [] qs = refl
answered-append ((s, h, a) ∷ rs) qs = ap (λ l. (h, a) ∷ l) (answered-append rs qs)

-- The request of the operation that a message asks for is the message.
abbrev Asks : Option Operation → Request → Type 0
Asks none r = Unit
Asks (some o) r = request_of o ≡ some r

abbrev asked : Option Operation → Request → List (Headers × Option Addr)
asked none r = []
asked (some o) r = (r.headers, some r.remote_addr) ∷ []

handler-Asks : (tag method : Text) (r : Request) → Asks (handler tag method r) r
unfolding handler
handler-Asks tag method r = ground arith

operation_of-Asks :
    (tags : ℕ → Text) (n : ℕ) (m : Text) (a : Addr)
    → Asks (operation_of tags n m a) (request_in m a)
unfolding operation_of
operation_of-Asks tags n m a = elim (Bool-cases (is_blank m || is_response m)) [
  | inl no_request ↦ rw no_request tt
  | inr is_request ↦ rw is_request (handler-Asks (tags n) (method_of m) (request_in m a))
]

asked_operation :
    (tags : ℕ → Text) (n : ℕ) (m : Text) (a : Addr)
    → asked (operation_of tags n m a) (request_in m a)
      ≡ (if is_known_request m then (parse_sip_headers m, some a) ∷ [] else [])
unfolding operation_of handler is_known_request
asked_operation tags n m a = ground arith

abbrev or_request : Request → Option Request → Request
or_request r none = r
or_request r (some q) = q

abbrev echo : Request → List (Headers × Option Addr)
echo q = (q.headers, some q.remote_addr) ∷ []

one_answer :
    (m : Manager) (o : Operation) (es : List Effect) (q : Option Request) (r : Request)
    → q ≡ some r
    → IsReplied m o es q
    → answered (replies es) ≡ (r.headers, some r.remote_addr) ∷ []
unfolding answered
one_answer m o es none r e k = cc
one_answer m o es (some q) r e k = rw k (ap (λ x. echo (or_request q x)) e)

dispatch_answers :
    (e : Env) (t : Transport) (o : Option Operation) (r : Request)
    → IsValid t.manager
    → Asks o r
    → let (u, es) = dispatch e t o in IsValid u.manager × (answered (replies es) ≡ asked o r)
unfolding dispatch replies answered
dispatch_answers e t none r v h = (v, refl)
dispatch_answers e t (some o) r v h = (
  (operate-IsValid e t.manager o v).0,
  one_answer t.manager o (operate e t.manager o).1 (request_of o) r h
      (request-IsReplied e t.manager o v),
)

deliver_manager : (t : Transport) (i m : Text) → (deliver t i m).manager ≡ t.manager
unfolding deliver
deliver_manager t i m = ground arith

no_known_request : (m : Text) → (is_blank m || is_response m) ≡ true → is_known_request m ≡ false
unfolding is_known_request
no_known_request m e = rw e refl

-- A message after which the line is valid and has answered what it should have.
abbrev Answers : Transport × List Effect → List (Headers × Option Addr) → Type 0
Answers r due = IsValid r.0.manager × (answered (replies r.1) ≡ due)

silent :
    (t : Transport) (m : Text) (a : Addr)
    → IsValid t.manager
    → (is_blank m || is_response m) ≡ true
    → Answers (t, []) (requests_in (m ∷ []) a)
unfolding requests_in replies answered
silent t m a v e = rw (no_known_request m e) (v, refl)

request-Answers :
    (e : Env) (tags : ℕ → Text) (t : Transport) (m : Text) (a : Addr)
    → IsValid t.manager
    → Answers
        (dispatch e (count_message t) (operation_of tags t.served m a))
        (requests_in (m ∷ []) a)
unfolding requests_in
request-Answers e tags t m a v =
    let (valid, answers) =
      dispatch_answers e (count_message t) (operation_of tags t.served m a) (request_in m a) v
        (operation_of-Asks tags t.served m a) in
    (valid, answers ∙ asked_operation tags t.served m a)

handle-Answers :
    (e : Env) (tags : ℕ → Text) (t : Transport) (m : Text) (a : Addr)
    → IsValid t.manager
    → Answers (handle e tags t m a) (requests_in (m ∷ []) a)
unfolding handle
handle-Answers e tags t m a v = elim (Bool-cases (is_blank m)) [
  | inl blank ↦ rw blank (silent (count_message t) m a v (rw blank refl))
  | inr full ↦ elim (Bool-cases (is_response m)) [
    | inl is_answer ↦
        rw (full, is_answer)
          (silent (deliver (count_message t) (call_id_of m) m) m a
            (rw (deliver_manager (count_message t) (call_id_of m) m) v) (rw (full, is_answer) refl))
    | inr is_asked ↦ rw (full, is_asked) (request-Answers e tags t m a v)
  ]
]

requests_in-cons :
    (m : Text) (ms : List Text) (a : Addr)
    → requests_in (m ∷ []) a ++ requests_in ms a ≡ requests_in (m ∷ ms) a
unfolding requests_in
requests_in-cons m ms a = ground arith

handle_all_answers :
    (e : Env) (tags : ℕ → Text) (t : Transport) (ms : List Text) (a : Addr)
    → IsValid t.manager
    → let (u, es) = handle_all e tags t ms a in
      IsValid u.manager × (answered (replies es) ≡ requests_in ms a)
unfolding handle_all replies answered requests_in
handle_all_answers e tags t [] a v = (v, refl)
handle_all_answers e tags t (m ∷ ms) a v =
    let (valid, first) = handle-Answers e tags t m a v in
    let (still, rest) = handle_all_answers e tags (handle e tags t m a).0 ms a valid in
    let (t1, es) = handle e tags t m a in
    let (t2, fs) = handle_all e tags t1 ms a in
    (
      still,
      ap answered (replies-append es fs)
          ∙ answered-append (replies es) (replies fs)
          ∙ ap₂ (λ x y. x ++ y) first rest
          ∙ requests_in-cons m ms a,
    )

-- On a valid line, every request of a stream for which there is a handler is answered exactly once,
-- in order, on the connection on which it came and with its own headers; nothing else is answered;
-- and the line is valid after it.
pub stream_is_answered :
    (e : Env) (tags : ℕ → Text) (t : Transport) (chunks : List Text) (a : Addr)
    → IsValid t.manager
    → let (u, rest, es) = read_loop e tags t [] chunks a in
      IsValid u.manager × (answered (replies es) ≡ requests_in (split_messages (joined chunks)).0 a)
stream_is_answered e tags t chunks a v =
    rw (reads_do_not_matter e tags t chunks a)
      (handle_all_answers e tags t (split_messages (joined chunks)).0 a v)
