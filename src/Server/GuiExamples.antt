-- ===== src/Server/GuiExamples.antt =====
-- A thermometer, a sensor of presence and a clock, and a JSON library that writes flat lists of words.
use cofi_ty_home.Common.{
  ℕ, ◌-◌, ◌≡◌, refl, true, false, Option, none, some, List, [], ◌∷◌, ◌++◌, Text, codes, length,
  get_elem?, arith, str_eq,
}
use cofi_ty_home.Common.Int.{ℤ, pos, negsuc}
use cofi_ty_home.Server.Sensors.{Sensor, temperature, presence, horloge, get_sensor, LogValue}
use cofi_ty_home.Server.GuiInterface.Desk.{Json, sends, Desk, done, add_effect, Outside}
use cofi_ty_home.Server.GuiInterface.Initialise.{
  process_type_initialise, configuration_of, process_type_initialise-configuration_of, added,
}
use cofi_ty_home.Server.GuiInterface.Update.{
  process_type_update, told, process_type_update-told, Asks,
}
use cofi_ty_home.Common.Printing.{decimal}
use cofi_ty_home.Server.GuiInterface.History.{four_tokens}
use cofi_ty_home.Server.GuiInterface.Logs.{log_line, four_tokens-log_line}

abbrev pub flat_words : List Text → Text
flat_words [] = []
flat_words (t ∷ ts) = t ++ flat_words ts

abbrev pub first_text : List Text → Option Text
first_text [] = none
first_text (t ∷ ts) = some t

abbrev pub digit_of : List Text → ℤ
digit_of [] = pos 0
digit_of ([] ∷ ts) = pos 0
digit_of ((b ∷ t) ∷ ts) = pos (b - b'0')

abbrev pub word_at : List Text → ℕ → List Text
word_at ts i = elim (get_elem? ts i) [ none ↦ [] | some t ↦ t ∷ [] ]

abbrev pub flat : Json (List Text)
flat = record {
  parse = λ t. t ∷ [];
  new_object = [];
  new_array = [];
  new_int = λ z. decimal z ∷ [];
  new_string = λ t. t ∷ [];
  object_add = λ m k v. m ++ k ∷ v;
  array_add = λ m v. m ++ v;
  to_json_string = flat_words;
  object_get = λ m k. m;
  get_int = digit_of;
  get_string = first_text;
  array_length = length;
  array_get_idx = word_at;
}

abbrev thermometer : Sensor
thermometer = record {
  type = temperature;
  id = codes "0001";
  name = codes "kitchen";
  first = pos 21;
  second = pos 0;
  decode = temperature;
}

abbrev watcher : Sensor
watcher = record {
  type = presence;
  id = codes "0002";
  name = [];
  first = pos 1;
  second = pos 40;
  decode = presence;
}

abbrev clock : Sensor
clock = record {
  type = horloge;
  id = codes "0003";
  name = codes "clock";
  first = pos 900;
  second = pos 0;
  decode = horloge;
}

abbrev desk : Desk
desk = record {
  config = record {
    sensors = thermometer ∷ watcher ∷ clock ∷ [];
    actionneurs = [];
    actions = record { nom = codes "lights"; action_fcts = [] } ∷ [];
    rules = [];
    untyped = false;
    flag_time = false;
    parsed_flag = true;
  };
  world = record { events = []; on_going = false; on_going_jeu = false };
  effects = [];
}

abbrev outside : Outside
outside = record {
  env = record { keysym_to_keycode = λ k. 0; popen = λ v p. true; beyond = λ v. [] };
  name_log_sensors = codes "sensors.log";
  fopen_read = λ d n. none;
  fopen_write = λ d n. true;
  g_malloc = λ d n. true;
  popen_read = λ d c. some [];
  parser = λ d. record {
    g_malloc = λ c. true;
    atoi = λ t. pos 0;
    mktime = λ h m. pos 0;
    fopen = λ t. none;
  };
}

process_type_initialise-configuration_of_example :
    process_type_initialise flat desk
    ≡ done (add_effect (sends (flat.to_json_string (configuration_of flat desk))) desk)
process_type_initialise-configuration_of_example =
    process_type_initialise-configuration_of flat desk (_, refl)

abbrev asked : List Text
asked = codes "0002" ∷ codes "kitchen" ∷ []

asked-Asks : Asks flat desk.config.sensors asked 0 (watcher ∷ thermometer ∷ [])
unfolding get_sensor str_eq
asked-Asks =
    ((codes "0002", refl, refl, (λ e. cc e)), ((codes "kitchen", refl, refl, (λ e. cc e)), tt))

process_type_update-told_example :
    process_type_update flat asked desk
    ≡ done (
        add_effect
          (sends (
            flat.to_json_string (
              flat.object_add
                (flat.object_add flat.new_object (codes "type") (flat.new_int (pos 5)))
                (codes "message")
                (added flat (told flat asked 0 (watcher ∷ thermometer ∷ [])) flat.new_array))))
          desk)
process_type_update-told_example =
    process_type_update-told flat asked desk (watcher ∷ thermometer ∷ []) refl asked-Asks

abbrev logged_value : LogValue
logged_value = record { id = codes "0002"; name = codes "luminosite"; value = negsuc 41 }

four_tokens-log_line_example :
    four_tokens (log_line (pos 1234567) logged_value)
    ≡ some (decimal (pos 1234567), (codes "0002", (codes "luminosite", decimal (negsuc 41))))
four_tokens-log_line_example =
    four_tokens-log_line (pos 1234567) logged_value (ground arith) (ground arith)
