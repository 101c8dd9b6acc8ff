-- ===== src/Server/ConfigurationExamples.antt =====
-- A thermometer, a door and two rules in the files of the configuration, and a wrong new file.
use cofi_ty_home.Common.{
  ◌+◌, ◌*◌, ◌-◌, ◌≡◌, refl, true, false, Option, none, some, List, [], ◌∷◌, arith, Text, codes,
  str_eq, if◌then◌else◌, map, Each,
}
use cofi_ty_home.Common.Int.{ℤ, pos, pos_part}
use cofi_ty_home.Server.Sensors.{temperature, contact}
use cofi_ty_home.Common.Search.{find_first}
use cofi_ty_home.Server.Actuators.{courrant, Actionneur, get_actionneur}
use cofi_ty_home.Server.Actions.{get_action}
use cofi_ty_home.Server.Configuration.ActionBuilding.{action_of, reduce_all-actions}
use cofi_ty_home.Server.Rules.{
  test_greater, test_equal, test_time_more, locate_sensor, property_cell, first_cell,
  set_condition_name,
}
use cofi_ty_home.Server.Configuration.{Config, Reduction, Derivation, Parser, reduced, split_last}
use cofi_ty_home.Server.Configuration.Clock.{split_time, time_value}
use cofi_ty_home.Server.Configuration.Reducing.{reduce, reduce_all}
use cofi_ty_home.Server.Configuration.Sentences.{
  OneAction, actions_reductions, OneSensor, OneCondition, OneRule, sensors_reductions,
  rules_reductions, sensor_reductions, rule_reductions, conditions_reductions, id_reduction,
}
use cofi_ty_home.Server.Configuration.Files.{
  sensors_path, actionneurs_path, actions_path, rules_path, parse_file, parse_next, parse_four,
  parse_all,
}
use cofi_ty_home.Server.Configuration.Reloading.{blank}
use cofi_ty_home.Server.Configuration.Building.{sensor_of, with_sensors, reduce_all-sensors}
use cofi_ty_home.Server.Configuration.RuleBuilding.{rule_of, RuleFits, reduce_all-rules}

-- The digits of a word of two characters at most.
abbrev pub small_number : Text → ℤ
small_number [] = pos 0
small_number (a ∷ []) = pos (a - b'0')
small_number (a ∷ b ∷ t) = pos (10 * (a - b'0') + (b - b'0'))

abbrev pub sensor_sentences : List OneSensor
sensor_sentences =
    record { type = temperature; id = codes "0089337F"; name = some (codes "room") }
    ∷ record { type = contact; id = codes "0001B595"; name = none }
    ∷ []

abbrev pub hot : OneCondition
hot = record {
  sensor = codes "room";
  property = some (codes "temp");
  test = test_greater;
  value = codes "25";
}

abbrev pub late : OneCondition
late = record {
  sensor = codes "room";
  property = none;
  test = test_time_more;
  value = codes "7h30";
}

abbrev pub shut : OneCondition
shut = record { sensor = codes "0001B595"; property = none; test = test_equal; value = codes "1" }

abbrev pub rule_sentences : List OneRule
rule_sentences =
    record {
      name = codes "warm";
      conditions = hot ∷ late ∷ [];
      actions = codes "fan" ∷ [];
      last_action = codes "light";
    }
    ∷ record {
      name = codes "closed";
      conditions = shut ∷ [];
      actions = [];
      last_action = codes "fan";
    }
    ∷ []

abbrev pub right : List Reduction → Option Derivation
right rs = some (record { reductions = rs; accepted = true })

-- A new file of rules stops behind a test.
abbrev pub files : Text → Option Derivation
files name =
    if str_eq name sensors_path
    then right (sensors_reductions sensor_sentences)
    else if str_eq name rules_path
    then right (rules_reductions rule_sentences)
    else if str_eq name actionneurs_path
    then right []
    else if str_eq name actions_path
    then right []
    else some (record { reductions = []; accepted = false })

abbrev pub parser : Parser
parser = record {
  g_malloc = λ c. true;
  atoi = small_number;
  mktime = λ h m. pos (60 * pos_part h + pos_part m);
  fopen = files;
}

abbrev pub sensors_read : Config
sensors_read = with_sensors (blank false) (map sensor_of sensor_sentences)

reduce_all-sensors_example :
    reduce_all parser (sensors_reductions sensor_sentences) (blank false) ≡ reduced sensors_read
reduce_all-sensors_example =
    reduce_all-sensors parser (λ c. refl) sensor_sentences (blank false)
      ((omega arith, omega arith), ((omega arith, omega arith), tt)) refl

rules-fit : Each (RuleFits parser sensors_read.sensors) rule_sentences
unfolding locate_sensor str_eq property_cell split_time
rules-fit = (
  (
    omega arith,
    (
      (0, _, refl, (omega arith, first_cell, refl), (λ e. cc e)),
      ((0, _, refl, omega arith, (λ e. (omega arith, refl))), tt),
    ),
  ),
  ((omega arith, ((1, _, refl, omega arith, (λ e. cc e)), tt)), tt),
)

abbrev pub all_read : Config
all_read = record sensors_read { rules = map (rule_of parser sensors_read) rule_sentences }

reduce_all-rules_example :
    reduce_all parser (rules_reductions rule_sentences) sensors_read ≡ reduced all_read
reduce_all-rules_example =
    reduce_all-rules parser (λ c. refl) rule_sentences sensors_read rules-fit refl

-- What `parse_all` leaves of the files on the disk.
pub disk : parse_all parser (blank false) ≡ reduced all_read
unfolding parse_all parse_four parse_next parse_file reduce_all reduce time_value split_time
    split_last locate_sensor property_cell set_condition_name get_action find_first str_eq
    sensors_reductions sensor_reductions rules_reductions rule_reductions conditions_reductions
    id_reduction
disk = refl

rejected :
    parse_four parser sensors_path actionneurs_path actions_path (codes "new") (blank false)
    ≡ reduced (record sensors_read { parsed_flag = false })
unfolding parse_four parse_next parse_file reduce_all reduce time_value split_time split_last
    locate_sensor property_cell set_condition_name get_action find_first str_eq sensors_reductions
    sensor_reductions rules_reductions rule_reductions conditions_reductions id_reduction
rejected = refl

abbrev lamp : Actionneur
lamp = record { type = courrant; id = codes "FF9F1E05"; name = codes "lamp" }

abbrev with_lamp : Config
with_lamp = record sensors_read { actionneurs = lamp ∷ [] }

abbrev action_sentences : List OneAction
action_sentences =
    record {
      nom = codes "light";
      functions = (codes "lamp", codes "open") ∷ (codes "lamp", codes "jump") ∷ [];
    }
    ∷ []

reduce_all-actions_example :
    reduce_all parser (actions_reductions action_sentences) with_lamp
    ≡ reduced (record with_lamp { actions = map (action_of with_lamp) action_sentences })
unfolding get_actionneur find_first str_eq
reduce_all-actions_example =
    reduce_all-actions parser (λ c. refl) action_sentences with_lamp
      ((omega arith, ((lamp, refl), ((lamp, refl), tt))), tt)
