-- ===== src/Messages/Headers.antt =====
-- `parse_sip_headers` and the functions of bridge/sip_messages.py that read one header.
use talk_sip_bridge.Base.{Bool, ◌||◌, Option, none, some, List, [], ◌∷◌, ◌++◌, if◌then◌else◌}
use talk_sip_bridge.Base.Text.{Text, codes, text_eq}
use talk_sip_bridge.Base.Dict.{Dict, get, put}
use talk_sip_bridge.Base.Str.{strip, lower, split_colon, split_lines}
use talk_sip_bridge.Messages.{tail}

-- The dict that `parse_sip_headers` returns: `via` stands for its key "via", and is [] where the
-- key is missing.
pub record Headers : Type 0 where
  pub named : Dict Text
  pub via : List Text

abbrev pub no_headers : Headers
no_headers = record { named = []; via = [] }

abbrev pub is_via : Text → Bool
is_via key = text_eq key (codes "via") || text_eq key (codes "v")

-- One header line: every Via is kept, of any other name the last.
unfoldable pub add_header : Text → Text → Headers → Headers
add_header key value h =
    if is_via key
    then record h { via = h.via ++ value ∷ [] }
    else record h { named = put key value h.named }

abbrev pub add_line : Option (Text × Text) → Headers → Headers
add_line none h = h
add_line (some (k, v)) h = add_header (lower (strip k)) (strip v) h

-- The loop over the lines, which an empty line ends.
unfoldable pub parse_lines : List Text → Headers → Headers
unfolding add_header
parse_lines [] h = h
parse_lines ([] ∷ ls) h = h
parse_lines ((c ∷ cs) ∷ ls) h = parse_lines ls (add_line (split_colon (c ∷ cs)) h)

unfoldable pub parse_sip_headers : Text → Headers
unfolding parse_lines
parse_sip_headers text = parse_lines (tail (split_lines text)) no_headers

abbrev pub or_default : Option Text → Text → Text
or_default none d = d
or_default (some t) d = t

-- `headers.get(name, default)`, of a name other than "via".
unfoldable pub header : Headers → Text → Text → Text
header h name default = or_default (get name h.named) default
