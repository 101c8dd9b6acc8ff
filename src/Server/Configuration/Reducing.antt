-- ===== src/Server/Configuration/Reducing.antt =====
-- server/parse/rules.y: what each rule of the grammar does.
use cofi_ty_home.Common.{
  ℕ, Bool, true, false, Option, none, some, List, [], ◌∷◌, ◌++◌, if◌then◌else◌, ltb, Text, length,
}
use cofi_ty_home.Common.Int.{ℤ, pos}
use cofi_ty_home.Common.Printing.{decimal}
use cofi_ty_home.Server.Sensors.{TypeCapteur, Sensor}
use cofi_ty_home.Server.Actuators.{
  courrant, Actionneur, ActionFct, get_actionneur, set_actionneur_fct,
}
use cofi_ty_home.Server.World.{Event}
use cofi_ty_home.Server.Actions.{Action, get_action}
use cofi_ty_home.Server.Rules.{
  Test, test_time_less, test_time_more, first_cell, Condition, SetName, set, refused, corrupts,
  locate_sensor, set_condition_name,
}
use cofi_ty_home.Server.Configuration.{
  Config, Reduction, init_sensor, type_sensor, id_sensor, id_sensor_number, name_sensor,
  init_actionneur, type_actionneur, id_actionneur, id_actionneur_number, name_actionneur, action_id,
  one_actionneur_fct, rule_id, condition_id, condition_id_property, operator, number_id,
  number_id_number, some_actions, Parser, Parse, reduced, ended, corrupted, ◌then_parse◌,
  split_last, current,
}
use cofi_ty_home.Server.Configuration.Clock.{time_value}

-- `strcpy` to an array of `size` characters.
abbrev copy : ℕ → Text → (Text → Parse) → Parse
copy size t f = if ltb (length t) size then f t else corrupted

-- `SIZE_ID`, `SIZE_NAME`.
abbrev pub size_id : ℕ
size_id = 9

abbrev pub size_name : ℕ
size_name = 20

abbrev pub blank_sensor : TypeCapteur → Sensor
blank_sensor t = record { type = t; id = []; name = []; first = pos 0; second = pos 0; decode = t }

abbrev blank_actionneur : Actionneur
blank_actionneur = record { type = courrant; id = []; name = [] }

abbrev pub blank_condition : Condition
blank_condition = record { condition_ok = none; at = none; value = pos 0 }

abbrev pub is_time : Test → Bool
is_time test_time_less = true
is_time test_time_more = true
is_time _ = false

abbrev pub last_is : {A : Type 0} → List A → A → List A
last_is before x = before ++ x ∷ []

abbrev pub reduce_id_sensor : Text → Config → Parse
reduce_id_sensor id c = current c.sensors (λ before s.
    copy size_id id (λ t. reduced (record c { sensors = last_is before (record s { id = t }) })))

abbrev reduce_name_sensor : Option Text → Config → Parse
reduce_name_sensor none c = reduced c
reduce_name_sensor (some name) c = current c.sensors (λ before s.
    copy size_name name
      (λ t. reduced (record c { sensors = last_is before (record s { name = t }) })))

abbrev pub change_actionneur : (Actionneur → Actionneur) → Config → Parse
change_actionneur f c =
    current c.actionneurs (λ before a. reduced (record c { actionneurs = last_is before (f a) }))

abbrev pub reduce_id_actionneur : Text → Config → Parse
reduce_id_actionneur id c = copy size_id id (λ t. change_actionneur (λ a. record a { id = t }) c)

abbrev reduce_name_actionneur : Option Text → Config → Parse
reduce_name_actionneur none c = reduced c
reduce_name_actionneur (some name) c =
    copy size_name name (λ t. change_actionneur (λ a. record a { name = t }) c)

abbrev pub add_condition : Condition → Config → Parse
add_condition cnd c = current c.rules (λ before r.
    reduced
      (record c { rules = last_is before (record r { conditions = last_is r.conditions cnd }) }))

abbrev pub change_condition : (Condition → Condition) → Config → Parse
change_condition f c = current c.rules (λ before r. current r.conditions (λ earlier cnd.
    reduced
      (record c { rules = last_is before (record r { conditions = last_is earlier (f cnd) }) })))

abbrev reduce_operator : Test → Config → Parse
reduce_operator t c =
    change_condition (λ cnd. record cnd { condition_ok = some t })
      (if is_time t then record c { flag_time = true } else c)

abbrev pub set_value : Config × ℤ → Parse
set_value (c, v) = change_condition (λ cnd. record cnd { value = v }) c

abbrev reduce_some_actions : Text → Config → Parse
reduce_some_actions nom c = current c.rules (λ before r.
    reduced (record c { rules = last_is before (record r { action = get_action c.actions nom }) }))

-- An actuator that is not found is a null pointer, which `setActionneurFct` reads.
abbrev pub with_fct : Config → List Action → Action → Option (ActionFct × List Event) → Parse
with_fct c before a none = corrupted
with_fct c before a (some (f, said)) =
    reduced
      (record c { actions = last_is before (record a { action_fcts = last_is a.action_fcts f }) })

-- A sensor that is not found is a null pointer, whose data is read.
abbrev pub with_located : Config → Option (ℕ × Sensor) → Parse
with_located c none = corrupted
with_located c (some (i, s)) =
    add_condition (record blank_condition { at = some (record { sensor = i; cell = first_cell }) })
      c

abbrev pub with_set_name : Config → SetName → Parse
with_set_name c (set cnd) = add_condition cnd c
with_set_name c refused = ended
with_set_name c corrupts = corrupted

module _ (p : Parser) where
  -- A node that `gMalloc` gives.
  abbrev allocated : Config → Parse → Parse
  allocated c r = if p.g_malloc c then r else ended

  -- The type of a sensor is read before the next one begins.
  abbrev reduce_init_sensor : Config → Parse
  reduce_init_sensor c =
      allocated c (if c.untyped then corrupted else reduced (record c { untyped = true }))

  abbrev reduce_type_sensor : TypeCapteur → Config → Parse
  reduce_type_sensor t c =
      if c.untyped
      then allocated c
          (reduced (record c { sensors = last_is c.sensors (blank_sensor t); untyped = false }))
      else corrupted

  abbrev reduce_init_actionneur : Config → Parse
  reduce_init_actionneur c =
      allocated c (reduced (record c { actionneurs = last_is c.actionneurs blank_actionneur }))

  abbrev reduce_action_id : Text → Config → Parse
  reduce_action_id nom c = allocated c (
      copy size_name nom (λ t.
        reduced (record c { actions = last_is c.actions (record { nom = t; action_fcts = [] }) })))

  abbrev pub reduce_one_actionneur_fct : Text → Text → Config → Parse
  reduce_one_actionneur_fct id fct c = current c.actions (λ before a. allocated c (
      with_fct c before a (
        set_actionneur_fct (record { fct = none; actionneur = get_actionneur c.actionneurs id })
          fct)))

  abbrev reduce_rule_id : Text → Config → Parse
  reduce_rule_id name c = allocated c (
      copy size_name name (λ t. reduced (record c {
        rules = last_is c.rules (record { name = t; conditions = []; action = none });
      })))

  abbrev pub reduce_condition_id : Text → Config → Parse
  reduce_condition_id sensor_id c =
      allocated c (copy size_name sensor_id (λ t. with_located c (locate_sensor 0 c.sensors t)))

  abbrev pub reduce_condition_id_property : Text → Text → Config → Parse
  reduce_condition_id_property sensor_id cnd_name c =
      allocated c
        (with_set_name c (set_condition_name c.sensors blank_condition sensor_id cnd_name))

  abbrev pub value_of : Text → Bool → Config → Config × ℤ
  value_of text true c = time_value p text c
  value_of text false c = (c, p.atoi text)

  abbrev pub reduce_number_id : Text → Config → Parse
  reduce_number_id text c =
      set_value (value_of text c.flag_time c)
      then_parse (λ c'. reduced (record c' { flag_time = false }))

  unfoldable pub reduce : Reduction → Config → Parse
  unfolding split_last time_value decimal get_actionneur set_actionneur_fct get_action locate_sensor
      set_condition_name
  reduce init_sensor c = reduce_init_sensor c
  reduce (type_sensor t) c = reduce_type_sensor t c
  reduce (id_sensor id) c = reduce_id_sensor id c
  reduce (id_sensor_number n) c = reduce_id_sensor (decimal n) c
  reduce (name_sensor name) c = reduce_name_sensor name c
  reduce init_actionneur c = reduce_init_actionneur c
  reduce (type_actionneur t) c = change_actionneur (λ a. record a { type = t }) c
  reduce (id_actionneur id) c = reduce_id_actionneur id c
  reduce (id_actionneur_number n) c = reduce_id_actionneur (decimal n) c
  reduce (name_actionneur name) c = reduce_name_actionneur name c
  reduce (action_id nom) c = reduce_action_id nom c
  reduce (one_actionneur_fct id fct) c = reduce_one_actionneur_fct id fct c
  reduce (rule_id name) c = reduce_rule_id name c
  reduce (condition_id sensor_id) c = reduce_condition_id sensor_id c
  reduce (condition_id_property sensor_id cnd_name) c =
      reduce_condition_id_property sensor_id cnd_name c
  reduce (operator t) c = reduce_operator t c
  reduce (number_id text) c = reduce_number_id text c
  reduce (number_id_number n) c = change_condition (λ cnd. record cnd { value = n }) c
  reduce (some_actions nom) c = reduce_some_actions nom c

  -- The reductions of a file, in their order.
  unfoldable pub reduce_all : List Reduction → Config → Parse
  unfolding reduce
  reduce_all [] c = reduced c
  reduce_all (r ∷ rs) c = reduce r c then_parse reduce_all rs
