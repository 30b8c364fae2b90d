-- ===== src/Talk/Messages.antt =====
-- bridge/talk_messages.py: the messages to the signaling server, as JSON values. Random texts and
-- the checksum over one are arguments.
use talk_sip_bridge.Base.{
  ℕ, ◌+◌, Bool, true, false, Option, none, some, List, [], ◌∷◌, ◌++◌, if◌then◌else◌,
}
use talk_sip_bridge.Base.Text.{Text, codes}
use talk_sip_bridge.Base.Dict.{Dict, get}

-- JSON, and the members of an object.
mutual
  pub data Json : Type 0 where
    string : Text → Json
    num : ℕ → Json
    texts : List Text → Json
    object : Members → Json

  pub data Members : Type 0 where
    no_members : Members
    member : Text → Json → Members → Members

abbrev no_more : Members
no_more = no_members

-- One member with a text.
abbrev text_member : Text → Text → Members → Members
text_member key value rest = member key (string value) rest

abbrev object_member : Text → Members → Members → Members
object_member key value rest = member key (object value) rest

-- The constants of the flags.
abbrev pub flag_in_call : ℕ
flag_in_call = 1

abbrev pub flag_with_audio : ℕ
flag_with_audio = 2

abbrev pub flag_with_phone : ℕ
flag_with_phone = 8

abbrev pub room_request_id : Text
room_request_id = codes "bridge-room"

abbrev auth_params : Text → Text → Text → Members
auth_params random token backend_url =
    text_member (codes "random") random
      (text_member (codes "token") token (text_member (codes "backend") backend_url no_more))

-- `hello`, of features that are given.
unfoldable pub hello : Text → Text → Text → List Text → Text → Members
hello random token backend_url features request_id = text_member (codes "id") request_id (
    text_member (codes "type") (codes "hello") (
      object_member (codes "hello")
        (text_member (codes "version") (codes "1.0") (
          member (codes "features") (texts features) (
            object_member (codes "auth")
              (text_member (codes "type") (codes "internal")
                (object_member (codes "params") (auth_params random token backend_url) no_more))
              no_more)))
        no_more))

unfoldable pub join_room : Text → Members
join_room roomid = text_member (codes "id") room_request_id (
    text_member (codes "type") (codes "room")
      (object_member (codes "room") (text_member (codes "roomid") roomid no_more) no_more))

unfoldable pub leave_room : Members
leave_room = join_room []

-- A message of type "internal".
abbrev internal : Text → Members → Members
internal kind value = text_member (codes "type") (codes "internal") (
    object_member (codes "internal")
      (text_member (codes "type") kind (object_member kind value no_more)) no_more)

unfoldable pub set_incall : ℕ → Members
set_incall flags = internal (codes "incall") (member (codes "incall") (num flags) no_more)

-- The sum of distinct bits, for `|`.
unfoldable pub incall_flags : Bool → Bool → ℕ
incall_flags with_audio has_actor =
    flag_in_call
    + (if has_actor then 0 else flag_with_phone)
    + (if with_audio then flag_with_audio else 0)

abbrev number_member : Text → Option ℕ → Members → Members
number_member key none rest = rest
number_member key (some n) rest = member key (num n) rest

unfoldable pub update_session : Text → Text → Option ℕ → Option ℕ → Members
update_session sessionid roomid incall flags = internal (codes "updatesession") (
    text_member (codes "sessionid") sessionid (
      text_member (codes "roomid") roomid
        (number_member (codes "incall") incall (number_member (codes "flags") flags no_more))))

-- `{"options": actor}`, where the actor is not falsy.
abbrev options_member : Option Members → Members
options_member none = no_more
options_member (some no_members) = no_more
options_member (some (member k v rest)) = object_member (codes "options") (member k v rest) no_more

abbrev is_actor : Option Members → Bool
is_actor none = false
is_actor (some no_members) = false
is_actor (some (member k v rest)) = true

abbrev incall_or : Option ℕ → ℕ → ℕ
incall_or none flags = flags
incall_or (some n) flags = n

abbrev phone_user : Text → Text → Text → Members
phone_user call_id number displayname = text_member (codes "type") (codes "phone") (
    text_member (codes "callid") call_id
      (text_member (codes "number") number (text_member (codes "displayname") displayname no_more)))

unfoldable pub add_session :
    Text → Text → Text → Text → Text → Bool → Option Members → Option ℕ → Members
add_session sessionid roomid call_id number displayname with_audio actor incall =
    internal (codes "addsession") (
      text_member (codes "sessionid") sessionid (
        text_member (codes "roomid") roomid (
          member (codes "incall")
            (num (incall_or incall (incall_flags with_audio (is_actor actor))))
            (object_member (codes "user") (phone_user call_id number displayname)
              (options_member actor)))))

unfoldable pub remove_session : Text → Text → Members
remove_session sessionid roomid =
    internal (codes "removesession")
      (text_member (codes "sessionid") sessionid (text_member (codes "roomid") roomid no_more))

-- A message to one session of the room.
abbrev to_session : Text → Text → Members → Members
to_session id sessionid value = text_member (codes "id") id (
    text_member (codes "type") (codes "message") (
      object_member (codes "message")
        (object_member (codes "recipient")
          (text_member (codes "type") (codes "session")
            (text_member (codes "sessionid") sessionid no_more))
          (object_member (codes "data") value no_more))
        no_more))

unfoldable pub publish_offer : Text → Text → Text → Text → Text → Members
publish_offer own_sessionid sip_call_id sdp nick sid =
    to_session (codes "bridge-offer-" ++ sip_call_id) own_sessionid (
      text_member (codes "to") own_sessionid (
        text_member (codes "type") (codes "offer") (
          text_member (codes "sid") sid (
            text_member (codes "roomType") (codes "video") (
              object_member (codes "payload")
                (text_member (codes "nick") nick (
                  text_member (codes "type") (codes "offer")
                    (text_member (codes "sdp") sdp no_more)))
                (text_member (codes "audiocodec") (codes "opus") no_more))))))

unfoldable pub request_offer : Text → Text → Members
request_offer sip_call_id human_sessionid =
    to_session (codes "bridge-reqoffer-" ++ sip_call_id) human_sessionid (
      text_member (codes "type") (codes "requestoffer")
        (text_member (codes "roomType") (codes "video") no_more))

-- `sip_call_id or token`
abbrev pub or_token : Text → Text → Text
or_token [] token = token
or_token (c ∷ cs) token = c ∷ cs

-- The id of an answer: the source and the call.
unfoldable pub answer_id : Text → Text → Text → Text
answer_id peer_sessionid sip_call_id token =
    codes "bridge-subanswer-" ++ peer_sessionid ++ codes "@@" ++ or_token sip_call_id token

unfoldable pub subscribe_answer : Text → Json → Text → Text → Text → Members
subscribe_answer peer_sessionid sid sdp sip_call_id token =
    to_session (answer_id peer_sessionid sip_call_id token) peer_sessionid (
      text_member (codes "to") peer_sessionid (
        text_member (codes "type") (codes "answer") (
          member (codes "sid") sid (
            text_member (codes "roomType") (codes "video") (
              object_member (codes "payload")
                (text_member (codes "type") (codes "answer")
                  (text_member (codes "sdp") sdp no_more))
                no_more)))))

unfoldable pub peer_state : Text → Text → Members → Text → Members
peer_state peer_sessionid state payload token =
    to_session (codes "bridge-state-" ++ token) peer_sessionid (
      text_member (codes "to") peer_sessionid (
        text_member (codes "roomType") (codes "video")
          (text_member (codes "type") state (object_member (codes "payload") payload no_more))))

abbrev actor_of : Option Text → Option Text → Option (Text × Text)
actor_of (some (t ∷ ts)) (some (i ∷ is)) = some (t ∷ ts, i ∷ is)
actor_of _ _ = none

-- `dialout_actor`: the type and the id, where neither is falsy.
unfoldable pub dialout_actor : Dict Text → Option (Text × Text)
dialout_actor options = actor_of (get (codes "actorType") options) (get (codes "actorId") options)

-- `envelope["id"] = request_id`, last as it is put last.
abbrev with_id : Text → Members → Members
with_id [] message = message
with_id (c ∷ cs) no_members = text_member (codes "id") (c ∷ cs) no_more
with_id (c ∷ cs) (member k v rest) = member k v (with_id (c ∷ cs) rest)

unfoldable pub dialout_envelope : Text → Members → Text → Members
dialout_envelope roomid payload request_id =
    with_id request_id (internal (codes "dialout") (text_member (codes "roomid") roomid payload))

unfoldable pub dialout_status : Text → Text → Text → Text → Members
dialout_status roomid call_id status request_id =
    dialout_envelope roomid
      (text_member (codes "type") (codes "status") (
        object_member (codes "status")
          (text_member (codes "callid") call_id (text_member (codes "status") status no_more))
          no_more))
      request_id

unfoldable pub dialout_error : Text → Text → Text → Text → Members
dialout_error roomid message request_id code =
    dialout_envelope roomid
      (text_member (codes "type") (codes "error") (
        object_member (codes "error")
          (text_member (codes "code") code (text_member (codes "message") message no_more))
          no_more))
      request_id
