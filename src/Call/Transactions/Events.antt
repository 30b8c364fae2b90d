-- ===== src/Call/Transactions/Events.antt =====
-- The transactions of an outbound worker, whatever else happens between its responses.
use talk_sip_bridge.Base.{◌≡◌, List}
use talk_sip_bridge.Base.Text.{Text}
use talk_sip_bridge.Line.{Line}
use talk_sip_bridge.Messages.Headers.{Headers}
use talk_sip_bridge.Call.{Attempt, Call, Manager, Effect}
use talk_sip_bridge.Call.Transactions.{IsTransaction, last_of, IsCoherent}

-- The same of an operation, which sends no INVITE.
abbrev Keeps : Attempt → Manager × List Effect → Type 0
Keeps a (m, es) = IsTransaction a es × (last_of a es ≡ a) × IsCoherent m.call a
