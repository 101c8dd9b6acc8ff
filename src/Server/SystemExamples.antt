-- ===== src/Server/SystemExamples.antt =====
-- The house of the other examples as a whole server.
use cofi_ty_home.Common.{◌≡◌, refl, true, false, none, some, List, [], ◌∷◌, codes, str_eq}
use cofi_ty_home.Common.Int.{pos}
use cofi_ty_home.Server.World.{undefined}
use cofi_ty_home.Server.Sensors.{horloge, Sensor, frame_id, decoded, logged}
use cofi_ty_home.Server.Rules.{
  Condition, test_equal, locate_sensor, set, set_condition_name, apply_rules, condition_holds,
  run_test, read,
}
use cofi_ty_home.Server.Rules.Pointers.{set_condition_name-clock}
use cofi_ty_home.Server.Configuration.Reducing.{blank_condition}
use cofi_ty_home.Server.Rules.Firing.{AllReadable, fire_all, firing}
use cofi_ty_home.Server.Configuration.{Config}
use cofi_ty_home.Server.Configuration.Files.{rules_path}
use cofi_ty_home.Server.GuiInterface.Desk.{Outside}
use cofi_ty_home.Server.System.{
  System, Event, framed, alarmed, woken, commanded, cleaned, flagged, parsed, after_run, run,
}
use cofi_ty_home.Server.System.Safety.{started_with}
use cofi_ty_home.Server.System.Reacting.{heard, run-fire_all}
use cofi_ty_home.Server.Examples.{env, quiet, room, door, conversion, door_frame, rules, now}
use cofi_ty_home.Server.GuiExamples.{flat}
use cofi_ty_home.Server.ConfigurationExamples.{parser, all_read}

abbrev config : Config
config = record {
  sensors = room ∷ door ∷ [];
  actionneurs = [];
  actions = [];
  rules = rules;
  untyped = false;
  flag_time = false;
  parsed_flag = true;
}

abbrev server : System
server = record {
  desk = record { config = config; world = quiet; effects = [] };
  log = [];
  check_rules = 0;
}

abbrev outside : Outside
outside = record {
  env = env;
  name_log_sensors = codes "sensors.log";
  fopen_read = λ d n. none;
  fopen_write = λ d n. true;
  g_malloc = λ d n. true;
  popen_read = λ d c. some [];
  parser = λ d. parser;
}

abbrev day : List Event
day =
    alarmed
    ∷ framed door_frame
    ∷ woken now
    ∷ commanded (codes "1")
    ∷ cleaned
    ∷ framed door_frame
    ∷ flagged
    ∷ parsed rules_path
    ∷ woken now
    ∷ []

abbrev closed_door : List Sensor
closed_door = room ∷ decoded conversion door_frame door.decode door ∷ []

closed_door-AllReadable : AllReadable closed_door now rules
unfolding condition_holds run_test read
closed_door-AllReadable = (((true, refl), tt), (((true, refl), ((false, refl), tt)), tt))

run-fire_all_example :
    run flat outside conversion (framed door_frame ∷ woken now ∷ []) server
    ≡ after_run
        (heard closed_door
          (logged door.decode (decoded conversion door_frame door.decode door))
          server)
        (fire_all env (firing closed_door now rules) quiet)
unfolding frame_id str_eq
run-fire_all_example =
    run-fire_all flat outside conversion door_frame now server (room ∷ []) door [] refl (refl, tt)
      refl closed_door-AllReadable

-- The clock that the file of the sensors shows, and a rule on its property.
abbrev clock : Sensor
clock = record {
  type = horloge;
  id = codes "42424242";
  name = codes "now";
  first = pos 0;
  second = pos 0;
  decode = horloge;
}

set_condition_name-clock_example :
    (cnd' : Condition) × (set_condition_name
        (clock ∷ [])
        blank_condition
        (codes "now")
        (codes "currentTime")
      ≡ set cnd')
    × (apply_rules outside.env
          (clock ∷ [])
          now
          (record {
            name = codes "noon";
            conditions = record cnd' { condition_ok = some test_equal; value = pos 12 } ∷ [];
            action = none;
          }
            ∷ [])
          (started_with all_read).desk.world
        ≡ undefined)
unfolding locate_sensor str_eq
set_condition_name-clock_example =
    set_condition_name-clock (clock ∷ []) (clock ∷ []) 0 clock blank_condition (codes "now")
      (codes "currentTime") test_equal (pos 12) now outside.env
      (record { name = codes "noon"; conditions = []; action = none }) [] []
      (started_with all_read).desk.world refl refl refl refl tt
