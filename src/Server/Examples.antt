-- ===== src/Server/Examples.antt =====
-- A small house: an outlet and a keyboard, a contact and a thermometer, two rules.
use cofi_ty_home.Common.{◌≡◌, ◌↔◌, refl, true, false, inl, some, List, [], ◌∷◌, Text, codes, length}
use cofi_ty_home.Common.Int.{ℤ, pos}
use cofi_ty_home.Server.Hex.{one_char_hex_to_int, hex_to_int}
use cofi_ty_home.Server.Frame.{Trame, trame_of, frame_sum, byte_at, sum_bytes}
use cofi_ty_home.Server.World.{World, Env}
use cofi_ty_home.Server.Actuators.{courrant, Actionneur, open_courrant}
use cofi_ty_home.Server.Actuators.Effects.{IsSettled}
use cofi_ty_home.Server.Actions.{Action}
use cofi_ty_home.Server.Sensors.{temperature, contact, Sensor, Conversion, House}
use cofi_ty_home.Server.Sensors.Decoding.{AllLoaded}
use cofi_ty_home.Server.Rules.{
  test_greater, first_cell, Condition, Rule, read, run_test, condition_holds, apply_rules,
}
use cofi_ty_home.Server.Rules.Firing.{
  Says, firing, fire_all, AllReadable, run_test_iff, apply_rules-firing,
}

abbrev pub env : Env
env = record { keysym_to_keycode = λ k. 71; popen = λ w p. true; beyond = λ w. codes "?" }

abbrev pub quiet : World
quiet = record { events = []; on_going = false; on_going_jeu = false }

pub quiet-IsSettled : IsSettled quiet
quiet-IsSettled = record { player = refl; game = refl; keys = λ k. refl; keyboard = refl }

abbrev pub outlet_id : Text
outlet_id = codes "FF9F1E05"

abbrev pub outlet : Actionneur
outlet = record { type = courrant; id = outlet_id; name = codes "lamp" }

abbrev pub light : Action
light = record {
  nom = codes "light";
  action_fcts = record { fct = some open_courrant; actionneur = some outlet } ∷ [];
}

-- A contact that is open and a thermometer at 25 degrees.
abbrev pub door : Sensor
door = record {
  type = contact;
  id = codes "0001B595";
  name = codes "door";
  first = pos 0;
  second = pos 0;
  decode = contact;
}

abbrev pub room : Sensor
room = record {
  type = temperature;
  id = codes "0089337F";
  name = codes "room";
  first = pos 25;
  second = pos 0;
  decode = temperature;
}

abbrev pub house : House
house = record { sensors = room ∷ door ∷ []; log = []; check_rules = 0 }

abbrev pub conversion : Conversion
conversion = record {
  strtol = λ t. elim t [ [] ↦ pos 0 | c ∷ cs ↦ pos c ];
  to_temperature = λ v. v;
  to_luminosity = λ v. v;
  stack = [];
}

-- The frame of the door, closed, and one of a stranger.
abbrev pub door_frame : Text
door_frame = codes "A55A0B06000000090001B5950034"

abbrev strange_frame : Text
strange_frame = codes "A55A0B06000000090001B5960034"

abbrev pub warm : ℤ → Condition
warm v = record {
  condition_ok = some test_greater;
  at = some (record { sensor = 0; cell = first_cell });
  value = v;
}

abbrev pub rules : List Rule
rules =
    record { name = codes "warm"; conditions = warm (pos 20) ∷ []; action = some light }
    ∷ record {
      name = codes "hot";
      conditions = warm (pos 20) ∷ warm (pos 30) ∷ [];
      action = some light;
    }
    ∷ []

abbrev pub now : ℤ
now = pos 1300000000

rules-AllReadable : AllReadable house.sensors now rules
unfolding condition_holds run_test read
rules-AllReadable = (((true, refl), tt), (((true, refl), ((false, refl), tt)), tt))

one_fires : length (firing house.sensors now rules) ≡ 1
unfolding firing condition_holds run_test read
one_fires = refl

apply_rules-firing_example :
    apply_rules env house.sensors now rules quiet
    ≡ fire_all env (firing house.sensors now rules) quiet
apply_rules-firing_example = apply_rules-firing house.sensors now env rules quiet rules-AllReadable

room_reads : read house.sensors (some (record { sensor = 0; cell = first_cell })) ≡ some (pos 25)
unfolding read
room_reads = refl

run_test_iff_example :
    (run_test house.sensors now test_greater
        (some (record { sensor = 0; cell = first_cell }))
        (pos 20)
      ≡ some true)
    ↔ Says test_greater (pos 25) now (pos 20)
run_test_iff_example =
    run_test_iff house.sensors now test_greater (some (record { sensor = 0; cell = first_cell }))
      (pos 25) (pos 20) room_reads

abbrev open_trame : Trame
open_trame = trame_of (codes "50000000") outlet_id

open_trame_sum : frame_sum open_trame ≡ some 657
unfolding frame_sum sum_bytes byte_at trame_of hex_to_int one_char_hex_to_int
open_trame_sum = refl

house-AllLoaded : AllLoaded house.sensors
house-AllLoaded = ((refl, tt), ((refl, inl refl), tt))
