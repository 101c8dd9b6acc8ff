-- ===== src/Server/Configuration/Sentences.antt =====
-- server/parse/rules.y: the sentences of the grammar for the files of sensors and of rules, and the
-- order in which bison reduces them.
use cofi_ty_home.Common.{Option, none, some, List, [], ◌∷◌, ◌++◌, Text}
use cofi_ty_home.Server.Sensors.{TypeCapteur}
use cofi_ty_home.Server.Rules.{Test}
use cofi_ty_home.Server.Configuration.{
  Reduction, action_id, one_actionneur_fct, init_sensor, type_sensor, id_sensor, name_sensor,
  rule_id, condition_id, condition_id_property, operator, number_id, some_actions,
}

-- `oneSensor`. The scanner takes a number for an identifier.
pub record OneSensor : Type 0 where
  pub type : TypeCapteur
  pub id : Text
  pub name : Option Text

-- `onecondition`: a sensor, maybe one of its properties, and what they are compared with.
pub record OneCondition : Type 0 where
  pub sensor : Text
  pub property : Option Text
  pub test : Test
  pub value : Text

-- `onerule`: `someactions` is one action or more.
pub record OneRule : Type 0 where
  pub name : Text
  pub conditions : List OneCondition
  pub actions : List Text
  pub last_action : Text

unfoldable pub sensor_reductions : OneSensor → List Reduction
sensor_reductions s = init_sensor ∷ type_sensor s.type ∷ id_sensor s.id ∷ name_sensor s.name ∷ []

unfoldable pub sensors_reductions : List OneSensor → List Reduction
unfolding sensor_reductions
sensors_reductions [] = []
sensors_reductions (s ∷ ss) = sensor_reductions s ++ sensors_reductions ss

unfoldable pub id_reduction : Text → Option Text → Reduction
id_reduction sensor none = condition_id sensor
id_reduction sensor (some property) = condition_id_property sensor property

unfoldable pub conditions_reductions : List OneCondition → List Reduction
unfolding id_reduction
conditions_reductions [] = []
conditions_reductions (c ∷ cs) =
    id_reduction c.sensor c.property
    ∷ operator c.test
    ∷ number_id c.value
    ∷ conditions_reductions cs

-- The rule of the grammar with more actions behind has no statement, so that only the last
-- identifier has an effect.
unfoldable pub rule_reductions : OneRule → List Reduction
unfolding conditions_reductions
rule_reductions r =
    rule_id r.name ∷ (conditions_reductions r.conditions ++ some_actions r.last_action ∷ [])

unfoldable pub rules_reductions : List OneRule → List Reduction
unfolding rule_reductions
rules_reductions [] = []
rules_reductions (r ∷ rs) = rule_reductions r ++ rules_reductions rs

-- `oneAction`: a name, and the functions of actuators, each with the actuator first.
pub record OneAction : Type 0 where
  pub nom : Text
  pub functions : List (Text × Text)

unfoldable pub functions_reductions : List (Text × Text) → List Reduction
functions_reductions [] = []
functions_reductions ((id, fct) ∷ fs) = one_actionneur_fct id fct ∷ functions_reductions fs

unfoldable pub actions_reductions : List OneAction → List Reduction
unfolding functions_reductions
actions_reductions [] = []
actions_reductions (a ∷ as') =
    (action_id a.nom ∷ functions_reductions a.functions) ++ actions_reductions as'
