-- ===== src/Server/Rules.antt =====
-- server/src/rules.c, rules.h: the conditions on the sensors' data and the rules.
pub mod Firing
pub mod Pointers
use cofi_ty_home.Common.{
  ℕ, ◌<◌, ◌≡◌, Bool, true, false, Option, none, some, List, [], ◌∷◌, ◌++◌, if◌then◌else◌, ltb,
  length, Text, codes, str_eq, get_elem?,
}
use cofi_ty_home.Common.Int.{ℤ, leb_ℤ, ltb_ℤ, eq_ℤ}
use cofi_ty_home.Server.World.{World, Env, Run, ok, undefined, ◌then_run◌, logs, emit}
use cofi_ty_home.Server.Actions.{Action, apply_action}
use cofi_ty_home.Server.Sensors.{
  TypeCapteur, temperature, contact, interrupteur, presence, horloge, Sensor, has_key,
}

pub data Test : Type 0 where
  test_equal test_greater_or_equal test_less_or_equal test_greater test_less : Test
  test_time_less test_time_more : Test

-- A pointer to the first or to the second `int` of the data of the sensor at a position of the list.
pub data Cell : Type 0 where
  first_cell second_cell : Cell

pub record DataPtr : Type 0 where
  pub sensor : ℕ
  pub cell : Cell

-- Null pointers are `none`.
pub record Condition : Type 0 where
  pub condition_ok : Option Test
  pub at : Option DataPtr
  pub value : ℤ

pub record Rule : Type 0 where
  pub name : Text
  pub conditions : List Condition
  pub action : Option Action

abbrev pub cell_of : Cell → Sensor → ℤ
cell_of first_cell s = s.first
cell_of second_cell s = s.second

-- `*data`.
unfoldable pub read : List Sensor → Option DataPtr → Option ℤ
read sensors none = none
read sensors (some p) = elim (get_elem? sensors p.sensor) [
  | none ↦ none
  | some s ↦ some (cell_of p.cell s)
]

abbrev if_read : Option ℤ → (ℤ → Bool) → Option Bool
if_read none f = none
if_read (some v) f = some (f v)

-- `now` is `time (NULL)`; the time tests do not read the data.
unfoldable pub run_test : List Sensor → ℤ → Test → Option DataPtr → ℤ → Option Bool
unfolding read
run_test ss now test_equal p value = if_read (read ss p) λ v. eq_ℤ v value
run_test ss now test_greater_or_equal p value = if_read (read ss p) λ v. leb_ℤ value v
run_test ss now test_less_or_equal p value = if_read (read ss p) λ v. leb_ℤ v value
run_test ss now test_greater p value = if_read (read ss p) λ v. ltb_ℤ value v
run_test ss now test_less p value = if_read (read ss p) λ v. ltb_ℤ v value
run_test ss now test_time_less p value = some (ltb_ℤ now value)
run_test ss now test_time_more p value = some (ltb_ℤ value now)

unfoldable pub condition_holds : List Sensor → ℤ → Condition → Option Bool
unfolding run_test
condition_holds ss now c = elim c.condition_ok [
  | none ↦ none
  | some t ↦ run_test ss now t c.at c.value
]

-- The inner loop: it stops at the first condition that does not hold.
unfoldable pub check_conditions : List Sensor → ℤ → List Condition → Option Bool
check_conditions ss now [] = some true
check_conditions ss now (c ∷ cs) = elim (condition_holds ss now c) [
  | none ↦ none
  | some true ↦ check_conditions ss now cs
  | some false ↦ some false
]

-- `logRule`, for a log that can be opened, and `applyAction`.
unfoldable pub fire : Env → Rule → World → Run
fire env r w = apply_action env r.action (emit (logs r.name) w)

-- The outer loop. The sensors do not change under it, which the mutex sees to.
unfoldable pub apply_rules : Env → List Sensor → ℤ → List Rule → World → Run
apply_rules env ss now [] w = ok w
apply_rules env ss now (r ∷ rs) w = elim (check_conditions ss now r.conditions) [
  | none ↦ undefined
  | some true ↦ fire env r w then_run apply_rules env ss now rs
  | some false ↦ apply_rules env ss now rs w
]

-- `set` is the condition with its pointer, `refused` the end of the program, `corrupts` a text that
-- overruns the buffer or a null sensor.
pub data SetName : Type 0 where
  set : Condition → SetName
  refused corrupts : SetName

-- The property `cnd_name` of a type of sensor; a clock has none, and no name is refused for it.
unfoldable pub property_cell : TypeCapteur → Text → Option (Option Cell)
property_cell temperature n = if str_eq n (codes "temp") then some (some first_cell) else none
property_cell contact n = if str_eq n (codes "contact") then some (some first_cell) else none
property_cell interrupteur n =
    if str_eq n (codes "switchButton") then some (some first_cell) else none
property_cell presence n =
    if str_eq n (codes "presence")
    then some (some first_cell)
    else if str_eq n (codes "luminosite")
    then some (some second_cell)
    else none
property_cell horloge n = some none

-- The first sensor with that id or name, and its position.
unfoldable pub locate_sensor : ℕ → List Sensor → Text → Option (ℕ × Sensor)
locate_sensor i [] k = none
locate_sensor i (s ∷ ss) k = if has_key k s then some (i, s) else locate_sensor (ℕ.suc i) ss k

abbrev pub with_property : ℕ → Option (Option Cell) → Condition → SetName
with_property i none c = refused
with_property i (some none) c = set c
with_property i (some (some cell)) c =
    set (record c { at = some (record { sensor = i; cell = cell }) })

-- `t` has room for eight characters and the zero.
unfoldable pub set_condition_name : List Sensor → Condition → Text → Text → SetName
set_condition_name ss c sensor_id cnd_name =
    if ltb (length sensor_id) 9
    then (elim (locate_sensor 0 ss sensor_id) [
      | none ↦ corrupts
      | some (i, s) ↦ with_property i (property_cell s.type cnd_name) c
    ])
    else corrupts
