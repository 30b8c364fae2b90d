-- ===== src/Transport.antt =====
-- bridge/sip_transport.py: what becomes of a message that arrives on the socket of one line, and how
-- a message is sent. The state is the call manager and the queues of those who wait for responses.
pub mod Send
pub mod Waiting
pub mod Streams
use talk_sip_bridge.Base.{
  ℕ, zero, suc, ◌+◌, ◌-◌, ◌*◌, ◌/◌, ◌%◌, ◌^◌, ◌≤◌, ◌<◌, min, ◌≡◌, refl, sym, ap, ap₂, ◌∙◌, ◌≢◌, ◌↔◌,
  ◌⊎◌, inl, inr, Bool, true, false, not, ◌&&◌, ◌||◌, Option, none, some, List, [], ◌∷◌, ◌++◌, map,
  arith, ltb, leb, ◌==◌, if◌then◌else◌, ltb→lt, lt→ltb, leb→le, ==_iff, Bool-cases, Option-cases,
  length, get_or, set, take, drop, replicate, All, length-append, take-append-drop, length-take,
  length-drop, length-replicate, All-append, length_zero, take-append, drop-append,
}
use talk_sip_bridge.Base.Text.{Text, codes, text_eq}
use talk_sip_bridge.Base.Dict.{Dict, get, put, remove, is_empty}
use talk_sip_bridge.Base.Str.{strip, first_of, split_lines, before, starts_with}
use talk_sip_bridge.Messages.{split_messages}
use talk_sip_bridge.Messages.Headers.{Headers, parse_sip_headers, header}
use talk_sip_bridge.Call.{Addr, Manager, Effect}
use talk_sip_bridge.Call.Operations.{
  Env, Request, Operation, invite_op, info_op, bye_op, cancel_op, options_op, operate,
}

-- `pending` has the texts that wait in each queue, oldest first. `served` counts the messages
-- handled, and numbers the random tags.
pub record Transport : Type 0 where
  pub manager : Manager
  pub pending : Dict (List Text)
  pub served : ℕ

unfoldable pub open_waiter : Transport → Text → Transport
open_waiter t call_id = record t { pending = put call_id [] t.pending }

unfoldable pub close_waiter : Transport → Text → Transport
close_waiter t call_id = record t { pending = remove call_id t.pending }

-- What `q.get` gives before its timeout, if anything has arrived.
unfoldable pub received : Transport → Text → Option Text
received t call_id = elim (get call_id t.pending) [
  | none ↦ none
  | some [] ↦ none
  | some (x ∷ xs) ↦ some x
]

-- `headers.get("call-id", "")`
unfoldable pub call_id_of : Text → Text
call_id_of text = header (parse_sip_headers text) (codes "call-id") []

unfoldable pub first_line_of : Text → Text
first_line_of text = first_of (split_lines text)

unfoldable pub is_response : Text → Bool
is_response text = starts_with (first_line_of text) (codes "SIP/2.0")

unfoldable pub method_of : Text → Text
method_of text = before 32 (first_line_of text)

abbrev is_empty_text : Text → Bool
is_empty_text [] = true
is_empty_text (c ∷ cs) = false

-- `not text.strip()`
unfoldable pub is_blank : Text → Bool
is_blank text = is_empty_text (strip text)

-- `q.put(text)`, where somebody waits.
unfoldable pub deliver : Transport → Text → Text → Transport
deliver t call_id text = elim (get call_id t.pending) [
  | none ↦ t
  | some q ↦ record t { pending = put call_id (q ++ text ∷ []) t.pending }
]

abbrev pub request_in : Text → Addr → Request
request_in text reply_to = record {
  text = text;
  headers = parse_sip_headers text;
  call_id = call_id_of text;
  remote_addr = reply_to;
}

-- The table of handlers.
unfoldable pub handler : Text → Text → Request → Option Operation
handler tag method r =
    if text_eq method (codes "INVITE")
    then some (invite_op tag r)
    else if text_eq method (codes "BYE")
    then some (bye_op r)
    else if text_eq method (codes "CANCEL")
    then some (cancel_op r)
    else if text_eq method (codes "OPTIONS")
    then some (options_op r)
    else if text_eq method (codes "INFO")
    then some (info_op r)
    else none

-- The operation that a message asks of the call manager, if any.
unfoldable pub operation_of : (ℕ → Text) → ℕ → Text → Addr → Option Operation
operation_of tags n text reply_to =
    if is_blank text || is_response text
    then none
    else handler (tags n) (method_of text) (request_in text reply_to)

abbrev pub count_message : Transport → Transport
count_message t = record t { served = suc t.served }

unfoldable pub dispatch : Env → Transport → Option Operation → Transport × List Effect
dispatch e t none = (t, [])
dispatch e t (some o) = let (m, es) = operate e t.manager o in (record t { manager = m }, es)

-- `_handle`; an exception of a handler is among the effects, and only reported.
unfoldable pub handle : Env → (ℕ → Text) → Transport → Text → Addr → Transport × List Effect
handle e tags t text reply_to =
    let next = count_message t in
    if is_blank text
    then (next, [])
    else if is_response text
    then (deliver next (call_id_of text) text, [])
    else dispatch e next (operation_of tags t.served text reply_to)

unfoldable pub handle_all :
    Env → (ℕ → Text) → Transport → List Text → Addr → Transport × List Effect
handle_all e tags t [] reply_to = (t, [])
handle_all e tags t (m ∷ ms) reply_to =
    let (t1, es) = handle e tags t m reply_to in
    let (t2, fs) = handle_all e tags t1 ms reply_to in (t2, es ++ fs)

-- `_read_loop` of one connection: its reads, the last before the far end closes it, and what is left
-- of the buffer.
unfoldable pub read_loop :
    Env → (ℕ → Text) → Transport → Text → List Text → Addr → Transport × Text × List Effect
read_loop e tags t buffer [] sock = (t, buffer, [])
read_loop e tags t buffer (chunk ∷ chunks) sock =
    let (messages, rest) = split_messages (buffer ++ chunk) in
    let (t1, es) = handle_all e tags t messages sock in
    let (t2, left, fs) = read_loop e tags t1 rest chunks sock in (t2, left, es ++ fs)

-- One turn of `_listen_loop`: a datagram counts only if the line's proxy sent it.
unfoldable pub receive_datagram :
    Env → (ℕ → Text) → Transport → Text → Addr → Transport × List Effect
receive_datagram e tags t text addr =
    if text_eq addr.0 e.line.proxy_host then handle e tags t text addr else (t, [])
