-- ===== src/Requests/Built.antt =====
-- Every request and every response that the bridge builds is framed as one message.
use talk_sip_bridge.Base.{
  ℕ, ◌<◌, ◌≡◌, refl, ◌≢◌, Option, none, some, List, [], ◌∷◌, ◌++◌, arith, length, All,
  length-append, All-append,
}
use talk_sip_bridge.Base.Text.{Text, codes, text_eq}
use talk_sip_bridge.Base.Decimal.{show, show-IsDigit}
use talk_sip_bridge.Base.Str.{strip, lower, split_colon, find?}
use talk_sip_bridge.Line.{Line}
use talk_sip_bridge.Messages.{split_messages}
use talk_sip_bridge.Messages.Headers.{Headers, header}
use talk_sip_bridge.Requests.{
  concat, upper, via_transport, via_parts, via_header, request_line, request_fields, status_of,
  echoed_fields, response_fields, tagged_to, via_lines, encode, request_text, build_request,
  build_response,
}
use talk_sip_bridge.Requests.Lines.{IsClean, IsLine}
use talk_sip_bridge.Requests.Framed.{IsOther, message_framed, digits-IsClean}

pub IsClean-append : (s t : Text) → IsClean s → IsClean t → IsClean (s ++ t)
IsClean-append = All-append (λ c. c ≢ 13)

nonempty-IsLine : (l : Text) → IsClean l → 0 < length l → IsLine l
nonempty-IsLine [] h n = absurd (omega arith)
nonempty-IsLine (c ∷ cs) h n = h

concat-IsClean : (ts : List Text) → All IsClean ts → IsClean (concat ts)
unfolding concat
concat-IsClean [] h = tt
concat-IsClean (t ∷ ts) h = IsClean-append t (concat ts) h.0 (concat-IsClean ts h.1)

upper-IsClean : (s : Text) → IsClean s → IsClean (upper s)
unfolding upper
upper-IsClean [] h = tt
upper-IsClean (c ∷ cs) h = (ground arith, upper-IsClean cs h.1)

pub show-IsClean : (n : ℕ) → IsClean (show n)
show-IsClean n = digits-IsClean (show n) (show-IsDigit n)

-- The settings that a Via line names hold no carriage return.
abbrev pub IsCleanLine : Line → Type 0
IsCleanLine line = IsClean line.local_ip × IsClean line.sip_transport

via_header-IsLine :
    (line : Line) (branch : Text)
    → IsCleanLine line
    → IsClean branch
    → IsLine (via_header line branch)
unfolding via_header via_transport concat
via_header-IsLine line branch h k =
    let ip = upper-IsClean line.sip_transport h.1 in
    let port = show-IsClean line.local_sip_port in
    concat-IsClean (via_parts line branch) (parts ip port)
  where
    parts :
        IsClean (via_transport line)
        → IsClean (show line.local_sip_port)
        → All IsClean (via_parts line branch)
    parts transport port = (
      omega arith,
      (transport, (omega arith, (h.0, (omega arith, (port, (omega arith, (k, tt))))))),
    )

via_header-IsOther : (line : Line) (branch : Text) → IsOther (via_header line branch)
unfolding via_header concat split_colon lower strip text_eq
via_header-IsOther line branch = refl

request_line-IsLine : (m u : Text) → IsClean m → IsClean u → IsLine (request_line m u)
request_line-IsLine m u h k =
    nonempty-IsLine (request_line m u)
      (IsClean-append m _ h
        (IsClean-append (codes " ") _ (omega arith) (IsClean-append u _ k (omega arith))))
      (omega (arith, length-append m (codes " " ++ (u ++ codes " SIP/2.0"))))

module _ (m : Text) (line : Line) (b f t c : Text) (n : ℕ) (hs : List Text) where
  request_fields-IsLine :
      IsCleanLine line
      → All IsClean (m ∷ b ∷ f ∷ t ∷ c ∷ [])
      → All IsLine hs
      → All IsLine (request_fields m line b f t c n hs)
  request_fields-IsLine cl (cm, (cb, (cf, (ct, (cc, z))))) h = (
    via_header-IsLine line b cl cb,
    (
      omega arith,
      (
        IsClean-append (codes "From: ") f (omega arith) cf,
        (
          IsClean-append (codes "To: ") t (omega arith) ct,
          (
            IsClean-append (codes "Call-ID: ") c (omega arith) cc,
            (
              IsClean-append (codes "CSeq: ") _ (omega arith) (
                  IsClean-append (show n) _ (show-IsClean n)
                    (IsClean-append (codes " ") m (omega arith) cm)),
              h,
            ),
          ),
        ),
      ),
    ),
  )

  request_fields-IsOther : All IsOther hs → All IsOther (request_fields m line b f t c n hs)
  unfolding split_colon lower strip text_eq
  request_fields-IsOther h = (via_header-IsOther line b, (refl, (refl, (refl, (refl, (refl, h))))))

abbrev pub IsAscii : Text → Type 0
IsAscii = All (λ c. c < 128)

encode_ascii : (s : Text) → IsAscii s → encode s ≡ s
unfolding encode
encode_ascii [] h = refl
encode_ascii (c ∷ cs) h = ground (arith, h.0, encode_ascii cs h.1)

-- Every request whose text is ASCII is framed as one message: if the parts it is given hold no
-- carriage return, and its own header lines are lines that announce no length, then a stream that starts with it is split into
-- that request, unchanged, and what the rest is split into.
pub build_request_framed :
    (method request_uri : Text) (line : Line) (branch from_header to_header call_id : Text)
    (cseq : ℕ) (headers : List Text) (body rest : Text)
    → IsCleanLine line
    → IsClean request_uri
    → All IsClean (method ∷ branch ∷ from_header ∷ to_header ∷ call_id ∷ [])
    → All IsLine headers
    → All IsOther headers
    → IsAscii (
        request_text method request_uri line branch from_header to_header call_id cseq headers body)
    → let request =
        build_request method request_uri line branch from_header to_header call_id cseq headers
          body in
      split_messages (request ++ rest)
      ≡ (request ∷ (split_messages rest).0, (split_messages rest).1)
unfolding build_request request_text
build_request_framed m u line b f t c n hs body rest cl cu cs h o ascii =
    let text = request_text m u line b f t c n hs body in
    rw (encode_ascii text ascii) (
      message_framed (request_line m u) (request_fields m line b f t c n hs) body rest
        (request_line-IsLine m u cs.0 cu) (request_fields-IsLine m line b f t c n hs cl cs h)
        (request_fields-IsOther m line b f t c n hs o))

-- The headers of a request whose echoed values hold no carriage return.
pub record IsCleanHeaders (h : Headers) : Type 0 where
  pub via : All IsClean h.via
  pub from : IsClean (header h (codes "from") [])
  pub to : IsClean (header h (codes "to") [])
  pub call_id : IsClean (header h (codes "call-id") [])
  pub cseq : IsClean (header h (codes "cseq") [])

abbrev pub IsCleanTag : Option Text → Type 0
IsCleanTag none = Unit
IsCleanTag (some t) = IsClean t

pub tagged_to-IsClean :
    (t : Text) (g : Option Text) → IsClean t → IsCleanTag g → IsClean (tagged_to t g)
unfolding tagged_to
tagged_to-IsClean t none h k = h
tagged_to-IsClean t (some []) h k = h
tagged_to-IsClean t (some (c ∷ cs)) h k =
    let tagged =
      IsClean-append (t ++ codes ";tag=") (c ∷ cs)
        (IsClean-append t (codes ";tag=") h (omega arith)) k in
    elim (find? t (codes "tag="))
      as (λ o. IsClean (elim o [ none ↦ t ++ codes ";tag=" ++ c ∷ cs | some at ↦ t ])) [
        | none ↦ tagged
        | some at ↦ h
      ]

pub via_lines-IsLine : (vs : List Text) → All IsClean vs → All IsLine (via_lines vs)
via_lines-IsLine [] h = tt
via_lines-IsLine (v ∷ vs) h =
    (IsClean-append (codes "Via: ") v (omega arith) h.0, via_lines-IsLine vs h.1)

via_lines-IsOther : (vs : List Text) → All IsOther (via_lines vs)
unfolding split_colon lower strip text_eq
via_lines-IsOther [] = tt
via_lines-IsOther (v ∷ vs) = (refl, via_lines-IsOther vs)

module _ (h : Headers) (g : Option Text) (extra : List Text) where
  pub echoed_fields-IsLine :
      IsCleanHeaders h → IsCleanTag g → All IsLine extra → All IsLine (echoed_fields h g extra)
  echoed_fields-IsLine c k e = (
    IsClean-append (codes "From: ") _ (omega arith) c.from,
    (
      IsClean-append (codes "To: ") _ (omega arith) (tagged_to-IsClean _ g c.to k),
      (
        IsClean-append (codes "Call-ID: ") _ (omega arith) c.call_id,
        (IsClean-append (codes "CSeq: ") _ (omega arith) c.cseq, e),
      ),
    ),
  )

  echoed_fields-IsOther : All IsOther extra → All IsOther (echoed_fields h g extra)
  unfolding split_colon lower strip text_eq
  echoed_fields-IsOther e = (refl, (refl, (refl, (refl, e))))

-- Every response is framed as one message, if the values that it echoes and its tag hold no carriage
-- return and its own header lines are lines that announce no length.
build_response_framed :
    (status_line : Text) (h : Headers) (extra_headers : List Text) (body : Text)
    (to_tag : Option Text) (rest : Text)
    → IsClean status_line
    → IsCleanHeaders h
    → IsCleanTag to_tag
    → All IsLine extra_headers
    → All IsOther extra_headers
    → let response = build_response status_line h extra_headers body to_tag in
      split_messages (response ++ rest)
      ≡ (response ∷ (split_messages rest).0, (split_messages rest).1)
unfolding build_response
build_response_framed st h extra body g rest cs ch cg e o =
    message_framed (status_of st) (response_fields h g extra) body rest
      (IsClean-append (codes "SIP/2.0 ") st (omega arith) cs)
      (All-append IsLine (via_lines h.via) _ (via_lines-IsLine h.via ch.via)
        (echoed_fields-IsLine h g extra ch cg e))
      (All-append IsOther (via_lines h.via) _ (via_lines-IsOther h.via)
        (echoed_fields-IsOther h g extra o))
