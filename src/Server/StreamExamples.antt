-- ===== src/Server/StreamExamples.antt =====
-- A frame in two pieces, two commands in three, and three lines that the operator types.
use cofi_ty_home.Common.{
  take, drop, ◌≡◌, refl, true, false, some, [], ◌∷◌, ◌++◌, arith, Text, codes,
}
use cofi_ty_home.Common.Int.{pos}
use cofi_ty_home.Server.Sensors.{temperature, contact, Sensor, Conversion, House}
use cofi_ty_home.Server.SensorsNetwork.{c_text, Incoming, sensors_msg_rec}
use cofi_ty_home.Server.SensorsNetwork.Framing.{IsCut, sensors_msg_rec-IsCut}
use cofi_ty_home.Server.GuiNetwork.{gui_msg_rec}
use cofi_ty_home.Server.GuiNetwork.Commands.{gui_msg_rec-AreObjects}
use cofi_ty_home.Server.Console.{Calls, main_loop, Console, main}
use cofi_ty_home.Server.Console.Polling.{line, interrupted, poll_loop, poll_loop-main_loop}
use cofi_ty_home.Server.Console.Pipes.{AllClosed, Going, main-AllClosed}

-- A contact that is open and a thermometer at 25 degrees.
abbrev door : Sensor
door = record {
  type = contact;
  id = codes "0001B595";
  name = codes "door";
  first = pos 0;
  second = pos 0;
  decode = contact;
}

abbrev room : Sensor
room = record {
  type = temperature;
  id = codes "0089337F";
  name = codes "room";
  first = pos 25;
  second = pos 0;
  decode = temperature;
}

abbrev house : House
house = record { sensors = room ∷ door ∷ []; log = []; check_rules = 0 }

abbrev conversion : Conversion
conversion = record {
  strtol = λ t. elim t [ [] ↦ pos 0 | c ∷ cs ↦ pos c ];
  to_temperature = λ v. v;
  to_luminosity = λ v. v;
  stack = [];
}

-- The frame of the door, closed.
abbrev door_frame : Text
door_frame = codes "A55A0B06000000090001B5950034"

sensors_msg_rec-IsCut_example :
    (r : Incoming) × (sensors_msg_rec conversion
        (take 20 door_frame ∷ (drop 20 door_frame ++ codes "A55A") ∷ [])
        (record { pending = []; house = house })
      ≡ some r)
    × IsCut conversion (door_frame ++ codes "A55A") house r
unfolding c_text
sensors_msg_rec-IsCut_example =
    sensors_msg_rec-IsCut conversion
      (take 20 door_frame ∷ (drop 20 door_frame ++ codes "A55A") ∷ []) house
      ((refl, omega arith), ((refl, omega arith), tt))

gui_msg_rec-AreObjects_example :
    gui_msg_rec
      (codes "{a{" ∷ codes "b}}{c" ∷ codes "}" ∷ [])
      (record { traite = []; blocs = pos 0; commands = [] })
    ≡ some (record { traite = []; blocs = pos 0; commands = codes "{a{b}}" ∷ codes "{c}" ∷ [] })
unfolding c_text
gui_msg_rec-AreObjects_example =
    gui_msg_rec-AreObjects (codes "{a{" ∷ codes "b}}{c" ∷ codes "}" ∷ [])
      (codes "{a{b}}" ∷ codes "{c}" ∷ [])
      ((refl, omega arith), ((refl, omega arith), ((refl, omega arith), tt)))
      (omega arith, (omega arith, (omega arith, tt)))
      (
        (refl, (omega arith, (omega arith, (omega arith, (omega arith, refl)))), omega arith),
        ((refl, (omega arith, refl), omega arith), tt),
      )
      refl

abbrev console : Console
console = record {
  effects = [];
  done = false;
  on_going_r = false;
  on_going_s = false;
  sleep_time = 60;
}

abbrev calls : Calls
calls = record { popen = λ k l. true; parse_all = λ k. true }

main-AllClosed_example :
    Going AllClosed (main calls (codes "logR\n" ∷ codes "ls\n" ∷ codes "q\n" ∷ []) console)
main-AllClosed_example =
    main-AllClosed calls (codes "logR\n" ∷ codes "ls\n" ∷ codes "q\n" ∷ []) console
      (record { rules = refl; sensors = refl })

poll_loop-main_loop_example :
    poll_loop calls (line (codes "ls\n") ∷ interrupted ∷ line (codes "q\n") ∷ []) false console
    ≡ main_loop calls (codes "ls\n" ∷ []) console
poll_loop-main_loop_example =
    poll_loop-main_loop calls (line (codes "ls\n") ∷ interrupted ∷ line (codes "q\n") ∷ []) console
      tt
