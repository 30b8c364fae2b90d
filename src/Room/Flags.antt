-- ===== src/Room/Flags.antt =====
-- `as_flags` and the flag tests of bridge/room_state.py.
use talk_sip_bridge.Base.{◌/◌, ◌%◌, Bool, true, false, Option, none, some, ◌==◌}
use talk_sip_bridge.Base.Text.{Text}
use talk_sip_bridge.Base.Int.{ℤ, pos, negsuc}
use talk_sip_bridge.Base.Str.{parse_int}

-- A value of the `inCall` field as JSON gives it; `other` is a list or an object, at which `int`
-- raises TypeError.
pub data Raw : Type 0 where
  null other : Raw
  bool : Bool → Raw
  num : ℤ → Raw
  str : Text → Raw

abbrev or_zero : Option ℤ → ℤ
or_zero none = pos 0
or_zero (some n) = n

unfoldable pub as_flags : Raw → ℤ
unfolding parse_int
as_flags null = pos 0
as_flags other = pos 0
as_flags (bool true) = pos 1
as_flags (bool false) = pos 0
as_flags (num n) = n
as_flags (str s) = or_zero (parse_int s)

-- Bit 0 and bit 1 of an integer of Python, in two's complement.
unfoldable pub in_call_bit : ℤ → Bool
in_call_bit (pos n) = n % 2 == 1
in_call_bit (negsuc n) = n % 2 == 0

unfoldable pub audio_bit : ℤ → Bool
audio_bit (pos n) = n / 2 % 2 == 1
audio_bit (negsuc n) = n / 2 % 2 == 0

unfoldable pub has_in_call_flag : Raw → Bool
unfolding as_flags in_call_bit
has_in_call_flag raw = in_call_bit (as_flags raw)
