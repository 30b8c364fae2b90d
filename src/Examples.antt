-- ===== src/Examples.antt =====
-- Concrete lines, calls, rooms and messages, and what the theorems say of them.
mod Calls
mod Texts
mod Rooms
mod Media
mod Registrations
mod Connections
mod Sessions
mod Presence
use talk_sip_bridge.Base.{false, []}
use talk_sip_bridge.Base.Text.{codes}
use talk_sip_bridge.Line.{Line}

abbrev pub line : Line
line = record {
  sip_user = codes "bridge";
  sip_pass = codes "secret";
  gateway_host = codes "gw";
  proxy_host = codes "gw";
  proxy_port = 5060;
  sip_transport = codes "udp";
  contact_transport = [];
  local_ip = codes "10.0.0.2";
  local_sip_port = 5060;
  local_rtp_port = 4000;
  contact_host = [];
  contact_port = 0;
  media_relay_enabled = false;
  relay_overlay_host = [];
  relay_overlay_port = 0;
  relay_lan_host = [];
  relay_lan_port = 0;
  dialout_internal_dial_prefix = [];
  dialout_number_allowlist = [];
}
