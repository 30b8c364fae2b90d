-- ===== src/Lib.antt =====
-- A model of the bridge between a SIP telephone line and Nextcloud Talk (bridge/), with theorems.
--
-- The program's parts. On the SIP side, the transport reads the stream of one connection, splits
-- it into messages (bridge/sip_messages.py) and hands each request to the call manager of its line
-- (bridge/sip_call.py), which answers with the messages of bridge/sip_requests.py and the bodies
-- of bridge/sip_sdp.py, and owns the media session of its call; the registrar
-- (bridge/sip_registrar.py) keeps the line registered. A session (bridge/rtp.py) sends and takes
-- the packets of a call. Key presses come as events in it (bridge/dtmf.py), as tones in its audio
-- (bridge/dtmf_inband.py) or as INFO requests, and go to the dialogue with a caller who dialled a
-- conference line (bridge/dialin_ivr.py), which asks Nextcloud for the room
-- (bridge/talk_sip_bridge.py). On the Talk side, a client (bridge/talk_client.py) takes what the
-- signaling server sends, follows who is in the call of a room (bridge/room_state.py,
-- bridge/room_presence.py), answers and ends the phone call by it, subscribes to the audio of each
-- of them (bridge/subscription.py) and mixes it (bridge/mixer.py).
--
-- What models what. Base has the shared names: Boolean tests, lists over the native numbers, texts
-- as lists of code points with the methods of Python's str, dicts as association lists, integers.
-- Line: the settings of one line, `LineConfig` of bridge/config.py. Messages: framing, header and
-- field parsing of bridge/sip_messages.py. Requests: the builders of bridge/sip_requests.py, with
-- the random parts of tags and branches as arguments: a request is its bytes in UTF-8, a response
-- its text before it is encoded. Sdp: bridge/sip_sdp.py and bridge/payload_types.py. Call:
-- `CallManager`, with its call as a record, and each method as a function from the manager to the
-- new manager and the list of what it does outside (messages, media sessions, timers, callbacks);
-- Call.Incoming, Call.Ending and Call.Outgoing have the methods, and Call.Operations puts them
-- together: any operation, and any sequence of operations and of the responses that the thread of
-- an outbound call takes in between. Registrar: `SipRegistrar` of bridge/sip_registrar.py, whose
-- keepalive loop is one step for each round. Transport: the waiters and the dispatch of
-- bridge/sip_transport.py, with the call manager of the line in its state; Transport.Send has
-- `send` of its two transports. DialIn: the dialogue, DialIn.Meeting what it asks Nextcloud,
-- DialIn.Questions the attempts that a question belongs to; what other threads do to a dialogue is
-- a list of happenings for each point at which it looks at its queue or its stop event. Rtp:
-- `RtpSession`, with Rtp.Sending for what it sends, and Rtp.Receiving for what it makes of a
-- packet, the audio queue and the digits reported being parts of the result. Dtmf, Inband: the
-- detectors. Codec: bridge/g711.py. Room: `RoomCallState`, with Room.Flags for `as_flags`.
-- Subscription: the state machine of one subscription, with its methods as events. Mixer.Source:
-- `SourceBuffer`. Talk: the calls as the Talk side has them (bridge/call.py), with Talk.Presence
-- for bridge/room_presence.py, Talk.Callbacks for the messages of the room connection and the
-- callbacks of the call manager, Talk.Dialling for bridge/dialout.py with the call manager it
-- dials on, and Talk.Messages for bridge/talk_messages.py. Examples has concrete lines, calls,
-- rooms and messages.
--
-- Bounds and fuel. `split_rounds` runs on fuel, one unit for each byte and one more, and every
-- round takes bytes or ends, so that more fuel changes nothing (Messages.Framing); the numeral of
-- a number (Base.Decimal) has as much fuel as the number and one more, and takes a digit each
-- time; `collect` (DialIn) has one round for each item that can still come to its queue and one
-- more, and every round but the last takes one (DialIn.Keys); `chunks` (Base.Chunks) has one unit
-- for each sample. Times are natural numbers of one clock. Text is ASCII where a method of str
-- depends on more than that: white space, digits and letter case.
--
-- Not modelled. A method of the call manager or of the Talk client runs as one step, so `answer`
-- is not interrupted between its two uses of the lock. A send of the call manager that raises is
-- modelled in `answer` only; in its other methods every send is taken. `re.fullmatch` with the
-- pattern of the settings and `md5hex` are parameters. Which key a block of audio carries is
-- decided in floating point, and is an input. G.722, the waveforms of tones and the POST to
-- Nextcloud are parameters; whether a socket connects, takes data or gives some is an input.
-- Threads and asyncio, the HTTP interfaces and the connection to the signaling server are not
-- modelled.
pub mod Base
pub mod Subscription
pub mod Room
pub mod Messages
pub mod Line
pub mod Requests
pub mod Dtmf
pub mod Inband
pub mod Codec
pub mod Mixer
pub mod Sdp
pub mod Call
pub mod Registrar
pub mod Transport
pub mod DialIn
pub mod Rtp
pub mod Talk
pub mod Examples
