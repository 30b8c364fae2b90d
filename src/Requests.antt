-- ===== src/Requests.antt =====
-- bridge/sip_requests.py: the text of every message that the bridge sends. The random parts of
-- branches and tags are arguments. A request is the bytes that are sent; a response is its text
-- before `.encode()`.
pub mod Lines
pub mod Framed
pub mod Built
pub mod Echo
use talk_sip_bridge.Base.{
  ℕ, zero, suc, ◌+◌, ◌-◌, ◌*◌, ◌/◌, ◌%◌, ◌^◌, ◌≤◌, ◌<◌, min, ◌≡◌, refl, sym, ap, ap₂, ◌∙◌, ◌≢◌, ◌↔◌,
  ◌⊎◌, inl, inr, Bool, true, false, not, ◌&&◌, ◌||◌, Option, none, some, List, [], ◌∷◌, ◌++◌, map,
  arith, ltb, leb, ◌==◌, if◌then◌else◌, ltb→lt, lt→ltb, leb→le, ==_iff, Bool-cases, Option-cases,
  length, get_or, set, take, drop, replicate, All, length-append, take-append-drop, length-take,
  length-drop, length-replicate, All-append, length_zero, take-append, drop-append,
}
use talk_sip_bridge.Base.Text.{Text, codes, text_eq}
use talk_sip_bridge.Base.Str.{lower, find?}
use talk_sip_bridge.Base.Decimal.{show}
use talk_sip_bridge.Line.{Line}
use talk_sip_bridge.Messages.Headers.{Headers, header}

-- An f-string: its parts in order.
unfoldable pub concat : List Text → Text
concat [] = []
concat (t ∷ ts) = t ++ concat ts

-- `"\r\n".join(lines)`
unfoldable pub join_lines : List Text → Text
join_lines [] = []
join_lines (l ∷ []) = l
join_lines (l ∷ m ∷ ls) = l ++ (13 ∷ 10 ∷ join_lines (m ∷ ls))

abbrev pub user_agent : Text
user_agent = codes "TalkSipBridge/0.1"

abbrev pub allowed_methods : Text
allowed_methods = codes "INVITE, ACK, BYE, CANCEL, OPTIONS"

-- `x or y` of two texts.
abbrev pub text_or : Text → Text → Text
text_or [] y = y
text_or (c ∷ cs) y = c ∷ cs

abbrev pub num_or : ℕ → ℕ → ℕ
num_or x y = if x == 0 then y else x

unfoldable pub upper : Text → Text
upper [] = []
upper (c ∷ cs) = (if leb 97 c && leb c 122 then c - 32 else c) ∷ upper cs

unfoldable pub via_transport : Line → Text
via_transport line = upper line.sip_transport

unfoldable pub contact_transport : Line → Text
contact_transport line = lower (text_or line.contact_transport line.sip_transport)

-- `token` is the random part.
unfoldable pub new_branch : Text → Text → Text
new_branch token suffix = codes "z9hG4bK" ++ token ++ suffix

unfoldable pub new_tag : Text → Text
new_tag token = codes "tag" ++ token

abbrev pub via_parts : Line → Text → List Text
via_parts line branch =
    codes "Via: SIP/2.0/"
    ∷ via_transport line
    ∷ codes " "
    ∷ line.local_ip
    ∷ codes ":"
    ∷ show line.local_sip_port
    ∷ codes ";rport;branch="
    ∷ branch
    ∷ []

unfoldable pub via_header : Line → Text → Text
via_header line branch = concat (via_parts line branch)

unfoldable pub contact_header : Line → Bool → Text
contact_header line with_transport = concat (
    codes "Contact: <sip:"
    ∷ line.sip_user
    ∷ codes "@"
    ∷ text_or line.contact_host line.local_ip
    ∷ codes ":"
    ∷ show (num_or line.contact_port line.local_sip_port)
    ∷ (if with_transport then codes ";transport=" ++ contact_transport line else [])
    ∷ codes ">"
    ∷ [])

unfoldable pub address : Line → Text → Text
address line user = concat (codes "<sip:" ∷ user ∷ codes "@" ∷ line.gateway_host ∷ codes ">" ∷ [])

-- The header line of a body's length.
abbrev pub length_line : Text → Text
length_line body = codes "Content-Length: " ++ show (length body)

-- The first line of a request, and the header lines between it and Content-Length.
abbrev pub request_line : Text → Text → Text
request_line method request_uri = method ++ (codes " " ++ (request_uri ++ codes " SIP/2.0"))

abbrev pub request_fields : Text → Line → Text → Text → Text → Text → ℕ → List Text → List Text
request_fields method line branch from_header to_header call_id cseq headers =
    via_header line branch
    ∷ codes "Max-Forwards: 70"
    ∷ (codes "From: " ++ from_header)
    ∷ (codes "To: " ++ to_header)
    ∷ (codes "Call-ID: " ++ call_id)
    ∷ (codes "CSeq: " ++ (show cseq ++ (codes " " ++ method)))
    ∷ headers

-- `str.encode` of one character, in UTF-8; the surrogates, at which it raises, are left out.
unfoldable encode_char : ℕ → Text
encode_char c =
    if ltb c 128
    then c ∷ []
    else if ltb c 2048
    then (192 + c / 64) ∷ (128 + c % 64) ∷ []
    else if ltb c 65536
    then (224 + c / 4096) ∷ (128 + c / 64 % 64) ∷ (128 + c % 64) ∷ []
    else (240 + c / 262144) ∷ (128 + c / 4096 % 64) ∷ (128 + c / 64 % 64) ∷ (128 + c % 64) ∷ []

unfoldable pub encode : Text → Text
unfolding encode_char
encode [] = []
encode (c ∷ cs) = encode_char c ++ encode cs

-- The text of a request.
unfoldable pub request_text :
    Text → Text → Line → Text → Text → Text → Text → ℕ → List Text → Text → Text
request_text method request_uri line branch from_header to_header call_id cseq headers body =
    join_lines (
      (request_line method request_uri
          ∷ request_fields method line branch from_header to_header call_id cseq headers
        ++ length_line body ∷ [])
      ++ [] ∷ body ∷ [])

unfoldable pub build_request :
    Text → Text → Line → Text → Text → Text → Text → ℕ → List Text → Text → Text
unfolding encode request_text
build_request method request_uri line branch from_header to_header call_id cseq headers body =
    encode
      (request_text method request_uri line branch from_header to_header call_id cseq headers body)

-- `if to_tag and "tag=" not in to_header`; a tag of `none` is Python's None.
unfoldable pub tagged_to : Text → Option Text → Text
tagged_to to_header none = to_header
tagged_to to_header (some []) = to_header
tagged_to to_header (some (c ∷ cs)) = elim (find? to_header (codes "tag=")) [
  | none ↦ to_header ++ codes ";tag=" ++ c ∷ cs
  | some at ↦ to_header
]

abbrev pub via_lines : List Text → List Text
via_lines [] = []
via_lines (v ∷ vs) = (codes "Via: " ++ v) ∷ via_lines vs

-- The header lines of a response between its status line and Content-Length.
abbrev pub echoed_fields : Headers → Option Text → List Text → List Text
echoed_fields h to_tag extra_headers =
    (codes "From: " ++ header h (codes "from") [])
    ∷ (codes "To: " ++ tagged_to (header h (codes "to") []) to_tag)
    ∷ (codes "Call-ID: " ++ header h (codes "call-id") [])
    ∷ (codes "CSeq: " ++ header h (codes "cseq") [])
    ∷ extra_headers

abbrev pub response_fields : Headers → Option Text → List Text → List Text
response_fields h to_tag extra_headers = via_lines h.via ++ echoed_fields h to_tag extra_headers

abbrev pub status_of : Text → Text
status_of status_line = codes "SIP/2.0 " ++ status_line

unfoldable pub build_response : Text → Headers → List Text → Text → Option Text → Text
build_response status_line h extra_headers body to_tag = join_lines (
    (status_of status_line ∷ response_fields h to_tag extra_headers ++ length_line body ∷ [])
    ++ [] ∷ body ∷ [])

unfoldable pub authorization_header : Text → Text → Text → Text → Text → Text
authorization_header username realm uri nonce response_digest = concat (
    codes "Authorization: Digest username="
    ∷ quoted username
    ∷ codes ", realm="
    ∷ quoted realm
    ∷ codes ", nonce="
    ∷ quoted nonce
    ∷ codes ", uri="
    ∷ quoted uri
    ∷ codes ", response="
    ∷ quoted response_digest
    ∷ codes ", algorithm=MD5"
    ∷ [])
  where
    quoted : Text → Text
    quoted s = 34 ∷ (s ++ 34 ∷ [])

-- `[h] if h else []`
abbrev optional : Option Text → List Text
optional none = []
optional (some []) = []
optional (some (c ∷ cs)) = (c ∷ cs) ∷ []

abbrev with_tag_of : Line → Text → Text
with_tag_of line tag = address line line.sip_user ++ codes ";tag=" ++ tag

unfoldable pub build_register : Line → Text → Text → Text → ℕ → ℕ → Option Text → Bool → Text
build_register line call_id tag branch cseq expires auth_header wildcard_contact =
    build_request (codes "REGISTER") (codes "sip:" ++ line.gateway_host) line branch
      (with_tag_of line tag) (address line line.sip_user) call_id cseq
      ((if wildcard_contact then codes "Contact: *" else contact_header line true)
        ∷ (codes "Expires: " ++ show expires)
        ∷ (codes "User-Agent: " ++ user_agent)
        ∷ (codes "Allow: " ++ allowed_methods)
        ∷ optional auth_header)
      []

abbrev sip_uri : Line → Text → Text
sip_uri line user = codes "sip:" ++ user ++ codes "@" ++ line.gateway_host

unfoldable pub build_invite : Line → Text → Text → Text → Text → ℕ → Text → Option Text → Text
build_invite line number call_id from_tag branch cseq sdp auth_header =
    build_request (codes "INVITE") (sip_uri line number) line branch (with_tag_of line from_tag)
      (address line number) call_id cseq
      (contact_header line true
        ∷ (codes "Allow: " ++ allowed_methods)
        ∷ codes "Content-Type: application/sdp"
        ∷ optional auth_header)
      sdp

abbrev pub uri_or : Option Text → Text → Text
uri_or none uri = uri
uri_or (some t) uri = text_or t uri

unfoldable pub build_ack : Line → Text → Text → Text → Text → ℕ → Text → Option Text → Text
build_ack line number call_id from_tag branch cseq to_header request_uri =
    build_request (codes "ACK") (uri_or request_uri (sip_uri line number)) line branch
      (with_tag_of line from_tag) to_header call_id cseq [] []

unfoldable pub build_cancel : Line → Text → Text → Text → Text → ℕ → Text
build_cancel line number call_id from_tag branch cseq =
    build_request (codes "CANCEL") (sip_uri line number) line branch (with_tag_of line from_tag)
      (address line number) call_id cseq [] []

-- Every call of `build_bye` leaves `cseq` at its default, 2.
unfoldable pub build_bye : Line → Text → Text → Text → Text → Text → Text
build_bye line request_uri call_id from_header to_header branch =
    build_request (codes "BYE") request_uri line branch from_header to_header call_id 2 [] []
