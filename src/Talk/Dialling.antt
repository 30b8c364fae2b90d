-- ===== src/Talk/Dialling.antt =====
-- bridge/dialout.py: a request of Talk to call a number, from the dialout connection to the call
-- manager and back. The texts of the call manager's errors are an argument.
use talk_sip_bridge.Base.{◌≡◌, Bool, Option, none, some, List, [], ◌∷◌, if◌then◌else◌, length, drop}
use talk_sip_bridge.Base.Text.{Text, codes}
use talk_sip_bridge.Base.Str.{starts_with}
use talk_sip_bridge.Base.Dict.{Dict, get}
use talk_sip_bridge.Line.{Line}
use talk_sip_bridge.Call.{Manager, Effect}
use talk_sip_bridge.Call.Outgoing.{DialResult, started, dial}
use talk_sip_bridge.Talk.Messages.{Members, dialout_actor, dialout_status, dialout_error}
use talk_sip_bridge.Talk.Presence.{join}
use talk_sip_bridge.Talk.{dialout, Call, new_call, TalkClient, Act, set_call}

-- A request, by the members that are read; one that is missing is [].
pub record DialoutRequest : Type 0 where
  pub id : Text
  pub roomid : Text
  pub number : Text
  pub options : Dict Text

-- What the request has to go through: the line and its pattern matcher, the prefix that is
-- stripped, and the tokens of a new call.
pub record Dialler : Type 0 where
  pub fullmatch : Text → Text → Bool
  pub line : Line
  pub strip_prefix : Text
  pub error_text : DialResult → Text
  pub call_id : Text
  pub from_tag : Text
  pub branch : Text

-- Both sides of a line, and whether there is a dialout connection.
pub record Sides : Type 0 where
  pub client : TalkClient
  pub manager : Manager
  pub dialout_connected : Bool

-- What a request leads to, in order: effects of the call manager, messages on the dialout
-- connection, acts on the room connection.
pub record Handled : Type 0 where
  pub sides : Sides
  pub effects : List Effect
  pub replies : List Members
  pub acts : List Act

unfoldable pub stripped : Text → Text → Text
stripped [] number = number
stripped (c ∷ cs) number =
    if starts_with number (c ∷ cs) then drop (length (c ∷ cs)) number else number

-- `reply`
unfoldable pub reply : Bool → Members → List Members
reply connected message = if connected then message ∷ [] else []

-- `report`
unfoldable pub report : Bool → Text → Text → Text → List Members
report connected call_id roomid status = reply connected (dialout_status roomid call_id status [])

abbrev pub placed : Text → Text → DialoutRequest → Call
placed call_id number r = record (new_call call_id dialout number) {
  roomid = r.roomid;
  actor = dialout_actor r.options;
}

abbrev pub dialled :
    Dialler → Sides → DialoutRequest → Text → Manager × DialResult × List Effect → Handled
dialled d s r number (m, started call_id, es) = record {
  sides = record s { client = set_call s.client call_id (placed call_id number r); manager = m };
  effects = es;
  replies = reply s.dialout_connected (dialout_status r.roomid call_id (codes "accepted") r.id);
  acts = join s.client r.roomid;
}
dialled d s r number (m, result, es) = record {
  sides = record s { manager = m };
  effects = es;
  replies =
      reply s.dialout_connected
        (dialout_error r.roomid (d.error_text result) r.id (codes "call_failed"));
  acts = [];
}

unfoldable pub requested : Dialler → Sides → DialoutRequest → Handled
requested d s r =
    let number = stripped d.strip_prefix r.number in
    dialled d s r number (dial d.fullmatch d.line d.call_id d.from_tag d.branch s.manager number)

abbrev pub map_id : Option talk_sip_bridge.Call.Call → Option Text
map_id none = none
map_id (some c) = some c.call_id

-- What a request leads to when the line takes the call: an "accepted" with the id of the call, and
-- that call on both sides, for the room and the number asked for.
pub record IsAccepted (d : Dialler) (s : Sides) (r : DialoutRequest) (h : Handled) : Type 0 where
  pub reply_accepts : h.replies ≡ dialout_status r.roomid d.call_id (codes "accepted") r.id ∷ []
  pub talk_side :
      get d.call_id h.sides.client.call_sessions
      ≡ some (placed d.call_id (stripped d.strip_prefix r.number) r)
  pub sip_side : map_id h.sides.manager.call ≡ some d.call_id
  pub was_free : s.manager.call ≡ none

-- And when it does not: an error, and nothing else.
pub record IsRefused (d : Dialler) (s : Sides) (r : DialoutRequest) (h : Handled) : Type 0 where
  pub reply_refuses :
      (result : DialResult) × (h.replies
        ≡ dialout_error r.roomid (d.error_text result) r.id (codes "call_failed") ∷ [])
  pub unchanged : h.sides ≡ s
  pub quiet : (h.effects ≡ []) × (h.acts ≡ [])
