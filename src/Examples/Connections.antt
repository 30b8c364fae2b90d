-- ===== src/Examples/Connections.antt =====
-- Streams, waiters and connections, and the theorems on bridge/sip_transport.py applied to them.
use talk_sip_bridge.Base.{ℕ, ◌≡◌, true, false, not, ◌||◌, some, List, [], ◌∷◌, ◌++◌}
use talk_sip_bridge.Base.Text.{Text, codes}
use talk_sip_bridge.Base.Dict.{get}
use talk_sip_bridge.Examples.Calls.{env, gateway, busy_line, busy_line-IsValid}
use talk_sip_bridge.Messages.{split_messages}
use talk_sip_bridge.Messages.Framing.{joined}
use talk_sip_bridge.Call.Invariant.{IsValid}
use talk_sip_bridge.Call.Replies.{replies}
use talk_sip_bridge.Transport.{Transport, read_loop, handle_all, open_waiter, received}
use talk_sip_bridge.Transport.Streams.{answered, requests_in, stream_is_answered}
use talk_sip_bridge.Transport.Waiting.{answers_to, first?, waiter_gets_responses}
use talk_sip_bridge.Transport.Send.{
  TcpOut, Round, send, is_on_request, own_of, is_taken, is_open, is_attribute_error, send_outcome,
}

abbrev busy : Transport
busy = record { manager = busy_line; pending = []; served = 0 }

abbrev tag : ℕ → Text
tag n = n ∷ []

-- A request in two reads.
abbrev reads : List Text
reads = codes "OPTIONS sip:bridge SIP/2.0" ∷ (13 ∷ 10 ∷ 13 ∷ 10 ∷ []) ∷ []

stream_is_answered_example :
    let (u, rest, es) = read_loop env tag busy [] reads gateway in
    IsValid u.manager
    × (answered (replies es) ≡ requests_in (split_messages (joined reads)).0 gateway)
stream_is_answered_example = stream_is_answered env tag busy reads gateway busy_line-IsValid

abbrev responses : List Text
responses =
    (codes "SIP/2.0 200 OK" ++ 13 ∷ 10 ∷ codes "Call-ID: a")
    ∷ (codes "SIP/2.0 180 Ringing" ++ 13 ∷ 10 ∷ codes "Call-ID: b")
    ∷ []

waiter_gets_responses_example :
    let u = (handle_all env tag (open_waiter busy (codes "b")) responses gateway).0 in
    (get (codes "b") u.pending ≡ some (answers_to (codes "b") responses))
    × (received u (codes "b") ≡ first? (answers_to (codes "b") responses))
waiter_gets_responses_example = waiter_gets_responses env tag busy responses gateway (codes "b")

abbrev went_stale : TcpOut
went_stale = record { out = some 0; connections = 1 }

abbrev reset : Round
reset = record { connects = true; sends = false }

abbrev taken : Round
taken = record { connects = true; sends = true }

send_outcome_example :
    let (u, sent) = send went_stale (some false) reset taken in
    (is_on_request sent ≡ false)
    × (own_of sent ≡ some 1)
    × (u.out ≡ own_of sent)
    × (is_taken sent ≡ true)
    × ((is_taken sent || not (is_open u)) ≡ true)
    × (is_attribute_error sent ≡ false)
send_outcome_example = send_outcome went_stale (some false) reset taken
