-- ===== src/Requests/Echo.antt =====
-- A response carries back what its request said.
use talk_sip_bridge.Base.{
  ◌≡◌, refl, sym, ap, ◌∙◌, Bool, false, ◌||◌, Option, none, some, List, [], ◌∷◌, ◌++◌, arith, All,
  All-append,
}
use mathlib.Core.List.{append_assoc, append-nil}
use talk_sip_bridge.Base.Text.{Text, codes, text_eq}
use talk_sip_bridge.Base.Dict.{get, put, get-put}
use talk_sip_bridge.Base.Str.{strip, lstrip, lower, split_colon, split_lines}
use talk_sip_bridge.Messages.{tail}
use talk_sip_bridge.Messages.Headers.{
  Headers, no_headers, is_via, add_header, add_line, parse_lines, parse_sip_headers, header,
}
use talk_sip_bridge.Requests.{
  length_line, status_of, via_lines, echoed_fields, response_fields, tagged_to, build_response,
  join_lines,
}
use talk_sip_bridge.Requests.Lines.{IsClean, IsLine, IsLine-IsClean, split_lines-first}
use talk_sip_bridge.Requests.Framed.{below_first, below_first-IsLine}
use talk_sip_bridge.Requests.Built.{
  IsClean-append, IsCleanHeaders, IsCleanTag, via_lines-IsLine, echoed_fields-IsLine,
}

-- The lines of a message come back, up to the empty one, whatever its body.
split_lines-message :
    (l : Text) (ls : List Text) (body : Text)
    → IsClean l
    → All IsLine ls
    → split_lines (join_lines ((l ∷ ls) ++ [] ∷ body ∷ [])) ≡ (l ∷ ls) ++ [] ∷ split_lines body
unfolding join_lines
split_lines-message l [] body h k =
    split_lines-first l (13 ∷ 10 ∷ body) h ∙ ap (λ r. l ∷ r) (split_lines-first [] body tt)
split_lines-message l (m ∷ ls) body h k =
    split_lines-first l (join_lines ((m ∷ ls) ++ [] ∷ body ∷ [])) h
    ∙ ap (λ r. l ∷ r) (split_lines-message m ls body (IsLine-IsClean m k.0) k.1)

parse_lines-end :
    (ls rest : List Text) (h : Headers)
    → All IsLine ls
    → parse_lines (ls ++ [] ∷ rest) h ≡ parse_lines ls h
unfolding parse_lines
parse_lines-end [] rest h k = refl
parse_lines-end ([] ∷ ls) rest h k = absurd k.0
parse_lines-end ((c ∷ cs) ∷ ls) rest h k = parse_lines-end ls rest _ k.1

-- A value as `strip` leaves it.
abbrev pub IsStripped : Text → Type 0
IsStripped v = strip v ≡ v

parse_lines-via :
    (vs rest : List Text) (h : Headers)
    → All IsStripped vs
    → parse_lines (via_lines vs ++ rest) h ≡ parse_lines rest (record h { via = h.via ++ vs })
unfolding parse_lines strip split_colon lower lstrip text_eq
parse_lines-via [] rest h k =
    ap (λ vs. parse_lines rest (record h { via = vs })) (sym (append-nil h.via))
parse_lines-via (v ∷ vs) rest h k =
    parse_lines-via vs rest _ k.1
    ∙ ap (λ (us : List Text). parse_lines rest (record h { via = us }))
        (append_assoc h.via _ vs ∙ ap (λ u. h.via ++ u ∷ vs) k.0)

-- The values that a response echoes, the four of `named` as they are looked up.
abbrev pub echoed : Headers → List Text × Option Text × Option Text × Option Text × Option Text
echoed h = (
  h.via,
  get (codes "from") h.named,
  get (codes "to") h.named,
  get (codes "call-id") h.named,
  get (codes "cseq") h.named,
)

-- Whether a header line has one of the echoed names.
abbrev is_echoed_key : Text → Bool
is_echoed_key key =
    is_via key
    || (text_eq key (codes "from")
        || (text_eq key (codes "to")
            || (text_eq key (codes "call-id") || text_eq key (codes "cseq"))))

abbrev pub is_echoed : Text → Bool
is_echoed l = elim (split_colon l) [ none ↦ false | some (k, v) ↦ is_echoed_key (lower (strip k)) ]

abbrev pub IsExtra : Text → Type 0
IsExtra l = is_echoed l ≡ false

add_header-echoed :
    (key value : Text) (h : Headers)
    → is_echoed_key key ≡ false
    → echoed (add_header key value h) ≡ echoed h
unfolding add_header
add_header-echoed key value h e = ground (
  arith,
  get-put key (codes "from") value h.named,
  get-put key (codes "to") value h.named,
  get-put key (codes "call-id") value h.named,
  get-put key (codes "cseq") value h.named,
)

add_line-echoed :
    (o : Option (Text × Text)) (h : Headers)
    → elim o [ none ↦ false | some (k, v) ↦ is_echoed_key (lower (strip k)) ] ≡ false
    → echoed (add_line o h) ≡ echoed h
add_line-echoed none h e = refl
add_line-echoed (some (k, v)) h e = add_header-echoed (lower (strip k)) (strip v) h e

parse_lines-extra :
    (ls : List Text) (h : Headers) → All IsExtra ls → echoed (parse_lines ls h) ≡ echoed h
unfolding parse_lines
parse_lines-extra [] h k = refl
parse_lines-extra ([] ∷ ls) h k = refl
parse_lines-extra ((c ∷ cs) ∷ ls) h k =
    parse_lines-extra ls _ k.1 ∙ add_line-echoed (split_colon (c ∷ cs)) h k.0

put_four :
    (f t c q : Text) (h : Headers)
    → echoed (record h {
      named =
          put
            (codes "cseq")
            q
            (put (codes "call-id") c (put (codes "to") t (put (codes "from") f h.named)));
    })
      ≡ (h.via, some f, some t, some c, some q)
unfolding text_eq
put_four f t c q h = simp get-put

-- The response's own header lines that carry the four values.
parse_lines-fields :
    (f t c q : Text) (rest : List Text) (h : Headers)
    → All IsStripped (f ∷ t ∷ c ∷ q ∷ [])
    → All IsExtra rest
    → echoed (
        parse_lines
          ((codes "From: " ++ f)
            ∷ (codes "To: " ++ t)
            ∷ (codes "Call-ID: " ++ c)
            ∷ (codes "CSeq: " ++ q)
            ∷ rest)
          h)
      ≡ (h.via, some f, some t, some c, some q)
unfolding parse_lines strip split_colon lower lstrip text_eq
parse_lines-fields f t c q rest h k e =
    parse_lines-extra rest _ e ∙ put_four (strip f) (strip t) (strip c) (strip q) h ∙ λ i.
    (h.via, some (k.0 i), some (k.1.0 i), some (k.1.1.0 i), some (k.1.1.1.0 i))

length_line-IsExtra : (body : Text) → IsExtra (length_line body)
unfolding strip split_colon lower text_eq
length_line-IsExtra body = refl

-- The headers of a request as its parser leaves them: no carriage return, no white space around.
pub record IsParsed (h : Headers) : Type 0 where
  pub clean : IsCleanHeaders h
  pub via : All IsStripped h.via
  pub from : IsStripped (header h (codes "from") [])
  pub call_id : IsStripped (header h (codes "call-id") [])
  pub cseq : IsStripped (header h (codes "cseq") [])

-- Whoever reads a response finds in it every Via of the request, in order, and its From, Call-ID and
-- CSeq, and the To with the tag added that was asked for, whatever the status, the other header
-- lines and the body. The request's headers are as the parser leaves them, and so is the tagged To;
-- the other header lines have none of these names.
pub response_echoes :
    (status_line : Text) (h : Headers) (extra_headers : List Text) (body : Text)
    (to_tag : Option Text)
    → IsClean status_line
    → IsParsed h
    → IsCleanTag to_tag
    → IsStripped (tagged_to (header h (codes "to") []) to_tag)
    → All IsLine extra_headers
    → All IsExtra extra_headers
    → echoed (parse_sip_headers (build_response status_line h extra_headers body to_tag)) ≡ (
      h.via,
      some (header h (codes "from") []),
      some (tagged_to (header h (codes "to") []) to_tag),
      some (header h (codes "call-id") []),
      some (header h (codes "cseq") []),
    )
unfolding build_response parse_sip_headers
response_echoes st h extra body g cs p cg sg le ee =
    let fields = echoed_fields h g extra in
    let lines = response_fields h g extra in
    let are_lines = below_first-IsLine lines body (
      All-append IsLine (via_lines h.via) fields (via_lines-IsLine h.via p.clean.via)
        (echoed_fields-IsLine h g extra p.clean cg le)) in
    ap (λ ls. echoed (parse_lines (tail ls) no_headers))
      (split_lines-message (status_of st) (below_first lines body) body
        (IsClean-append (codes "SIP/2.0 ") st (omega arith) cs) are_lines)
    ∙ ap echoed (parse_lines-end (below_first lines body) (split_lines body) no_headers are_lines)
    ∙ ap (λ ls. echoed (parse_lines ls no_headers))
        (append_assoc (via_lines h.via) fields (length_line body ∷ []))
    ∙ ap echoed (parse_lines-via h.via (fields ++ length_line body ∷ []) no_headers p.via)
    ∙ parse_lines-fields (header h (codes "from") []) (tagged_to (header h (codes "to") []) g)
        (header h (codes "call-id") []) (header h (codes "cseq") [])
        (extra ++ length_line body ∷ []) (record { named = []; via = h.via })
        (p.from, (sg, (p.call_id, (p.cseq, tt))))
        (All-append IsExtra extra (length_line body ∷ []) ee (length_line-IsExtra body, tt))
