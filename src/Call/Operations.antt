-- ===== src/Call/Operations.antt =====
-- The operations of bridge/sip_call.py on one call manager, and any sequence of them that one
-- outbound worker runs between.
use talk_sip_bridge.Base.{Bool, List, [], ◌∷◌, ◌++◌, if◌then◌else◌}
use talk_sip_bridge.Base.Text.{Text}
use talk_sip_bridge.Line.{Line}
use talk_sip_bridge.Messages.Headers.{Headers}
use talk_sip_bridge.Call.{Addr, Manager, Effect}
use talk_sip_bridge.Call.Incoming.{
  handle_invite, handle_info, handle_options, Network, answer, decline,
}
use talk_sip_bridge.Call.Ending.{handle_bye, handle_cancel, hangup}
use talk_sip_bridge.Call.Outgoing.{dial, Worker, Response, take_response, reach_deadline}

-- What the operations read from outside: the library's functions and the line.
pub record Env : Type 0 where
  pub fullmatch : Text → Text → Bool
  pub md5hex : Text → Text
  pub line : Line

-- One request: its text, headers, Call-ID and sender.
pub record Request : Type 0 where
  pub text : Text
  pub headers : Headers
  pub call_id : Text
  pub remote_addr : Addr

pub data Operation : Type 0 where
  invite_op : Text → Request → Operation  -- with the random tag
  info_op : Request → Operation
  bye_op : Request → Operation
  cancel_op : Request → Operation
  options_op : Request → Operation
  answer_op : Network → Operation  -- with how its sends go
  decline_op : Operation
  hangup_op : Text → Operation  -- with the random branch
  dial_op : Text → Text → Text → Text → Operation  -- call id, tag, branch, number

abbrev without {ℓ} : {A : Type ℓ} → Manager × A × List Effect → Manager × List Effect
without (m, a, es) = (m, es)

unfoldable pub operate : Env → Manager → Operation → Manager × List Effect
operate e m (invite_op tag r) = handle_invite e.line tag m r.text r.headers r.call_id r.remote_addr
operate e m (info_op r) = handle_info m r.text r.headers r.call_id r.remote_addr
operate e m (bye_op r) = handle_bye m r.text r.headers r.call_id r.remote_addr
operate e m (cancel_op r) = handle_cancel m r.text r.headers r.call_id r.remote_addr
operate e m (options_op r) = handle_options m r.text r.headers r.call_id r.remote_addr
operate e m (answer_op net) = without (answer e.line net m)
operate e m decline_op = without (decline m)
operate e m (hangup_op branch) = hangup e.line branch m
operate e m (dial_op call_id tag branch number) =
    without (dial e.fullmatch e.line call_id tag branch m number)

pub data Event : Type 0 where
  operation : Operation → Event
  response : Text → Response → Event  -- with the random branch
  deadline : Event

abbrev pub beside : Worker → Manager × List Effect → Manager × Worker × List Effect
beside w (m, es) = (m, w, es)

-- One event; a worker that has ended takes nothing.
unfoldable pub happen : Env → Manager → Worker → Event → Manager × Worker × List Effect
happen e m w (operation o) = beside w (operate e m o)
happen e m w (response branch r) =
    if w.running then take_response e.md5hex e.line branch m w r else (m, w, [])
happen e m w deadline = if w.running then reach_deadline m w else (m, w, [])

unfoldable pub happen_all : Env → Manager → Worker → List Event → Manager × Worker × List Effect
happen_all e m w [] = (m, w, [])
happen_all e m w (x ∷ xs) =
    let (m1, w1, es) = happen e m w x in
    let (m2, w2, fs) = happen_all e m1 w1 xs in (m2, w2, es ++ fs)
