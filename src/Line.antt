-- ===== src/Line.antt =====
-- `LineConfig` of bridge/config.py: what the SIP side reads of one line's settings. How they are
-- read from the environment is not modelled.
use talk_sip_bridge.Base.{ℕ, Bool}
use talk_sip_bridge.Base.Text.{Text}

pub record Line : Type 0 where
  pub sip_user : Text
  pub sip_pass : Text
  pub gateway_host : Text
  pub proxy_host : Text
  pub proxy_port : ℕ
  pub sip_transport : Text
  pub contact_transport : Text
  pub local_ip : Text
  pub local_sip_port : ℕ
  pub local_rtp_port : ℕ
  pub contact_host : Text
  pub contact_port : ℕ
  pub media_relay_enabled : Bool
  pub relay_overlay_host : Text
  pub relay_overlay_port : ℕ
  pub relay_lan_host : Text
  pub relay_lan_port : ℕ
  pub dialout_internal_dial_prefix : Text
  pub dialout_number_allowlist : Text
