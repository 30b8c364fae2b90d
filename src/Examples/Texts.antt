-- ===== src/Examples/Texts.antt =====
-- Messages, and the theorems on bridge/sip_messages.py and bridge/sip_requests.py applied to them.
use talk_sip_bridge.Base.{
  ◌≡◌, refl, Bool, true, not, ◌&&◌, some, [], ◌∷◌, ◌++◌, arith, ltb, ◌==◌, All,
}
use talk_sip_bridge.Base.Text.{Text, codes, text_eq}
use talk_sip_bridge.Base.Str.{strip, lstrip, is_space, split_colon, lower, find?, starts_with}
use talk_sip_bridge.Base.Decimal.{show}
use talk_sip_bridge.Base.Dict.{get}
use talk_sip_bridge.Messages.{split_messages}
use talk_sip_bridge.Messages.Headers.{Headers, parse_sip_headers, header}
use talk_sip_bridge.Messages.Framing.{read_all, joined, read_all_lem}
use talk_sip_bridge.Requests.{
  concat, join_lines, via_header, via_transport, upper, request_text, build_request, build_response,
  tagged_to,
}
use talk_sip_bridge.Requests.Lines.{IsClean, IsLine}
use talk_sip_bridge.Requests.Framed.{IsOther}
use talk_sip_bridge.Requests.Built.{
  IsCleanLine, IsCleanHeaders, IsCleanTag, IsAscii, build_request_framed,
}
use talk_sip_bridge.Requests.Echo.{IsParsed, IsStripped, IsExtra, echoed, response_echoes}
use talk_sip_bridge.Examples.{line}

-- Two messages and a keep-alive between them, cut in two.
abbrev first_read : Text
first_read = codes "OPTIONS a" ++ 13 ∷ 10 ∷ codes "l: 2" ++ 13 ∷ 10 ∷ 13 ∷ 10 ∷ codes "h"

abbrev second_read : Text
second_read = codes "i" ++ 13 ∷ 10 ∷ codes "BYE" ++ 13 ∷ 10 ∷ 13 ∷ 10 ∷ []

read_all_lem_example :
    read_all [] (first_read ∷ second_read ∷ [])
    ≡ split_messages (joined (first_read ∷ second_read ∷ []))
read_all_lem_example = read_all_lem (first_read ∷ second_read ∷ [])

-- Whether a text is ASCII.
unfoldable is_ascii : Text → Bool
is_ascii [] = true
is_ascii (c ∷ cs) = ltb c 128 && is_ascii cs

ascii : (t : Text) → is_ascii t ≡ true → IsAscii t
unfolding is_ascii
ascii [] h = tt
ascii (c ∷ cs) h = ground (arith, ascii cs)

-- Whether a text holds no carriage return.
unfoldable no_return : Text → Bool
no_return [] = true
no_return (c ∷ cs) = not (c == 13) && no_return cs

clean : (t : Text) → no_return t ≡ true → IsClean t
unfolding no_return
clean [] h = tt
clean (c ∷ cs) h = ground (arith, clean cs)

abbrev contact_line : Text
contact_line = codes "Expires: 60"

contact_line-IsLine : IsLine contact_line
unfolding no_return
contact_line-IsLine = clean contact_line refl

contact_line-IsOther : IsOther contact_line
unfolding split_colon lower strip lstrip text_eq is_space
contact_line-IsOther = refl

contact_line-IsExtra : IsExtra contact_line
unfolding split_colon lower strip lstrip text_eq is_space
contact_line-IsExtra = refl

line-IsCleanLine : IsCleanLine line
unfolding no_return
line-IsCleanLine = (clean line.local_ip refl, clean line.sip_transport refl)

parts-IsClean :
    All IsClean
      (codes "OPTIONS" ∷ codes "z1" ∷ codes "<sip:b@gw>" ∷ codes "<sip:c@gw>" ∷ codes "a1" ∷ [])
unfolding no_return
parts-IsClean = (
  clean (codes "OPTIONS") refl,
  (
    clean (codes "z1") refl,
    (
      clean (codes "<sip:b@gw>") refl,
      (clean (codes "<sip:c@gw>") refl, (clean (codes "a1") refl, tt)),
    ),
  ),
)

uri-IsClean : IsClean (codes "sip:gw")
unfolding no_return
uri-IsClean = clean (codes "sip:gw") refl

build_request_framed_example :
    let request =
      build_request
        (codes "OPTIONS")
        (codes "sip:gw")
        line
        (codes "z1")
        (codes "<sip:b@gw>")
        (codes "<sip:c@gw>")
        (codes "a1")
        7
        (contact_line ∷ [])
        (codes "hi") in
    split_messages (request ++ second_read)
    ≡ (request ∷ (split_messages second_read).0, (split_messages second_read).1)
unfolding is_ascii request_text concat join_lines via_header via_transport upper show
build_request_framed_example =
    build_request_framed (codes "OPTIONS") (codes "sip:gw") line (codes "z1") (codes "<sip:b@gw>")
      (codes "<sip:c@gw>") (codes "a1") 7 (contact_line ∷ []) (codes "hi") second_read
      line-IsCleanLine uri-IsClean parts-IsClean (contact_line-IsLine, tt)
      (contact_line-IsOther, tt)
      (ascii
        (request_text (codes "OPTIONS") (codes "sip:gw") line (codes "z1") (codes "<sip:b@gw>")
          (codes "<sip:c@gw>") (codes "a1") 7 (contact_line ∷ []) (codes "hi"))
        refl)

abbrev asked : Headers
asked = record {
  named =
      (codes "from", codes "<sip:b@gw>")
      ∷ (codes "to", codes "<sip:c@gw>")
      ∷ (codes "call-id", codes "a1")
      ∷ (codes "cseq", codes "7 INVITE")
      ∷ [];
  via = codes "SIP/2.0/UDP gw" ∷ codes "SIP/2.0/UDP relay" ∷ [];
}

ringing_status-IsClean : IsClean (codes "180 Ringing")
unfolding no_return
ringing_status-IsClean = clean (codes "180 Ringing") refl

tag-IsCleanTag : IsCleanTag (some (codes "b7"))
unfolding no_return
tag-IsCleanTag = clean (codes "b7") refl

asked-IsCleanHeaders : IsCleanHeaders asked
unfolding no_return header get text_eq
asked-IsCleanHeaders = record {
  via = (clean (codes "SIP/2.0/UDP gw") refl, (clean (codes "SIP/2.0/UDP relay") refl, tt));
  from = clean (codes "<sip:b@gw>") refl;
  to = clean (codes "<sip:c@gw>") refl;
  call_id = clean (codes "a1") refl;
  cseq = clean (codes "7 INVITE") refl;
}

asked-IsParsed : IsParsed asked
unfolding header get text_eq strip lstrip is_space
asked-IsParsed = record {
  clean = asked-IsCleanHeaders;
  via = (refl, (refl, tt));
  from = refl;
  call_id = refl;
  cseq = refl;
}

tagged-IsStripped : IsStripped (tagged_to (header asked (codes "to") []) (some (codes "b7")))
unfolding tagged_to header get text_eq strip lstrip is_space find? starts_with
tagged-IsStripped = refl

response_echoes_example :
    echoed (
      parse_sip_headers
        (build_response (codes "180 Ringing") asked (contact_line ∷ []) [] (some (codes "b7"))))
    ≡ (
      asked.via,
      some (header asked (codes "from") []),
      some (tagged_to (header asked (codes "to") []) (some (codes "b7"))),
      some (header asked (codes "call-id") []),
      some (header asked (codes "cseq") []),
    )
response_echoes_example =
    response_echoes (codes "180 Ringing") asked (contact_line ∷ []) [] (some (codes "b7"))
      ringing_status-IsClean asked-IsParsed tag-IsCleanTag tagged-IsStripped
      (contact_line-IsLine, tt) (contact_line-IsExtra, tt)
