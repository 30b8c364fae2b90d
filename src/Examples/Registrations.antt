-- ===== src/Examples/Registrations.antt =====
-- A line whose gateway stops answering, and the theorems on bridge/sip_registrar.py applied to it.
use talk_sip_bridge.Base.{◌≡◌, refl, ◌≢◌, true, false, none, some, List, [], ◌∷◌}
use talk_sip_bridge.Base.Text.{codes}
use talk_sip_bridge.Registrar.{
  Registrar, Setup, Exchange, do_register, is_accepted, turn_off, turned_off, keepalive_round,
  wakes, Event, happen_all,
}
use talk_sip_bridge.Registrar.Wanted.{IsOn, IsOff, wanted_line_comes_back, unwanted_line_is_left}
use talk_sip_bridge.Examples.{line}

abbrev setup : Setup
setup = record { md5hex = λ t. t; line = line; register_expires = 300; has_state_file = true }

abbrev silence : Exchange
silence = record {
  call_token = codes "c";
  tag_token = codes "t";
  branch_token = codes "b";
  second_token = codes "d";
  first = none;
  second = none;
}

abbrev answered : Exchange
answered = record silence { first = some (codes "SIP/2.0 200 OK") }

abbrev registered_line : Registrar
registered_line = record {
  registered = true;
  wanted = true;
  stopped = false;
  keepalive = true;
  last_error = none;
  marker = true;
}

registered_line-IsOn : IsOn registered_line
registered_line-IsOn = record { wanted = refl; alive = refl; running = refl }

abbrev outage : List Event
outage = wakes [] silence ∷ wakes [] silence ∷ []

wanted_line_comes_back_example :
    let t = happen_all setup registered_line outage in
    IsOn t
    × ((keepalive_round setup [] t answered).registered
        ≡ is_accepted (do_register setup t answered 300 false).0)
wanted_line_comes_back_example =
    wanted_line_comes_back setup registered_line outage [] answered registered_line-IsOn
      (tt, (tt, tt))

turned_off_quietly : (turn_off setup true registered_line silence).1 ≢ none
unfolding turn_off turned_off do_register
turned_off_quietly h = cc

unwanted_line_is_left_example :
    IsOff (happen_all setup (turn_off setup true registered_line silence).0 outage)
unwanted_line_is_left_example =
    unwanted_line_is_left setup true registered_line silence outage turned_off_quietly
      (tt, (tt, tt))
