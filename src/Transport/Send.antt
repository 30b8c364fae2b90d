-- ===== src/Transport/Send.antt =====
-- `send` of the two transports of bridge/sip_transport.py. Whether a socket connects and takes the
-- data is the network's, and an input.
use talk_sip_bridge.Base.{
  ℕ, suc, ◌≡◌, Bool, true, false, not, ◌&&◌, ◌||◌, Option, none, some, arith, if◌then◌else◌,
}
use talk_sip_bridge.Line.{Line}
use talk_sip_bridge.Call.{Addr}

-- The line's own connection, if it is open, by the number of the connection.
pub record TcpOut : Type 0 where
  pub out : Option ℕ
  pub connections : ℕ

-- What the network does in one round: whether a new connection is made, and whether data is taken.
pub record Round : Type 0 where
  pub connects : Bool
  pub sends : Bool

-- Where the data went, or which exception leaves `send`.
pub data Sent : Type 0 where
  on_request : Sent  -- the connection that a request arrived on
  on_own : ℕ → Sent
  os_error : Sent
  attribute_error : Sent  -- `self._out.close()` where there is no connection

abbrev pub connected : TcpOut → Round → Option TcpOut
connected t r = elim t.out [
  | some c ↦ some t
  | none ↦
      if r.connects
      then some (record { out = some t.connections; connections = suc t.connections })
      else none
]

abbrev pub out_of : TcpOut → ℕ
out_of t = elim t.out [ none ↦ 0 | some c ↦ c ]

abbrev pub closed : TcpOut → TcpOut
closed t = record t { out = none }

-- One round: done, or what the next round begins with.
pub data Progress : Type 0 where
  done : TcpOut → Sent → Progress
  again : TcpOut → Progress

unfoldable pub write : TcpOut → Round → Progress
write t r = if r.sends then done t (on_own (out_of t)) else again (closed t)

unfoldable pub send_round : TcpOut → Round → Progress
send_round t r = elim (connected t r) [ none ↦ done t attribute_error | some u ↦ write u r ]

abbrev last_round : Progress → TcpOut × Sent
last_round (done t s) = (t, s)
last_round (again t) = (t, os_error)

abbrev next_round : Progress → Round → TcpOut × Sent
next_round (done t s) r = (t, s)
next_round (again t) r = last_round (send_round t r)

-- `TcpSipTransport.send`: `reply_takes` says whether the connection that a request arrived on takes
-- the data, and is `none` without one.
unfoldable pub send : TcpOut → Option Bool → Round → Round → TcpOut × Sent
send t (some true) first second = (t, on_request)
send t _ first second = next_round (send_round t first) second

-- Where `UdpSipTransport.send` sends: the address given, else the proxy.
unfoldable pub udp_target : Line → Option Addr → Addr
udp_target line none = (line.proxy_host, line.proxy_port)
udp_target line (some a) = a

-- `close` of the TCP transport.
unfoldable pub close : TcpOut → TcpOut
close t = closed t

abbrev pub is_open : TcpOut → Bool
is_open t = elim t.out [ none ↦ false | some c ↦ true ]

-- Whether the two rounds of the line's own connection get the data out.
abbrev pub goes_out : TcpOut → Round → Round → Bool
goes_out t first second =
    (is_open t || first.connects) && (first.sends || (second.connects && second.sends))

abbrev pub is_taken : Sent → Bool
is_taken on_request = true
is_taken (on_own c) = true
is_taken _ = false

abbrev pub is_taken_by : Option Bool → Bool
is_taken_by (some true) = true
is_taken_by _ = false

abbrev pub is_on_request : Sent → Bool
is_on_request on_request = true
is_on_request _ = false

-- The connection of the line that took the data.
abbrev pub own_of : Sent → Option ℕ
own_of (on_own c) = some c
own_of _ = none

-- The connection of the line that is to take the data: the open one, or the next new one, and the
-- one after that where it does not take them.
abbrev pub own_due : TcpOut → Round → ℕ
own_due t first =
    if is_open t
    then (if first.sends then out_of t else t.connections)
    else (if first.sends then t.connections else suc t.connections)

abbrev pub is_attribute_error : Sent → Bool
is_attribute_error attribute_error = true
is_attribute_error _ = false

-- A message sent over TCP goes out on the connection of its request exactly if that takes it, and
-- the line's own is then left as it was. Else it goes out on the line's own, exactly when that is
-- open or can be opened, and takes it or is opened again and takes it then: on the connection that
-- was open, or else the newest one made, and that is the one left open. Where it does not go out, no
-- connection is left open; the exception is AttributeError, and not OSError, whenever a connection
-- could not be made.
pub send_outcome :
    (t : TcpOut) (reply_takes : Option Bool) (first second : Round)
    → let (u, sent) = send t reply_takes first second in
      (is_on_request sent ≡ is_taken_by reply_takes)
      × (own_of sent ≡ (
          if not (is_taken_by reply_takes) && goes_out t first second
          then some (own_due t first)
          else none))
      × (u.out ≡ (if is_taken_by reply_takes then t.out else own_of sent))
      × (is_taken sent ≡ (is_taken_by reply_takes || goes_out t first second))
      × ((is_taken sent || not (is_open u)) ≡ true)
      × (is_attribute_error sent ≡ (
          not (is_taken_by reply_takes)
          && (not (is_open t || first.connects) || (not first.sends && not second.connects))))
unfolding send send_round write
send_outcome t (some true) first second = ground arith
send_outcome t (some false) first second = ground arith
send_outcome t none first second = ground arith
