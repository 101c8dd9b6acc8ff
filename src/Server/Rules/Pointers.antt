-- ===== src/Server/Rules/Pointers.antt =====
-- server/src/rules.c: a condition points at the data that the frames of its sensor change, unless its
-- sensor is a clock.
use cofi_ty_home.Common.{
  ℕ, ◌+◌, ◌≡◌, refl, true, none, some, List, [], ◌∷◌, ◌++◌, arith, length, get_elem?-append,
  length-take-le, drop, Text, ltb, lt→ltb,
}
use cofi_ty_home.Common.Search.{NoneOf}
use cofi_ty_home.Server.Sensors.{
  horloge, Sensor, Conversion, House, has_key, frame_id, decoded, decode_trame,
}
use cofi_ty_home.Server.Sensors.Decoding.{decode_trame-known}
use cofi_ty_home.Common.Int.{ℤ}
use cofi_ty_home.Server.World.{World, Env, undefined}
use cofi_ty_home.Server.Rules.{
  Test, test_equal, test_greater_or_equal, test_less_or_equal, test_greater, test_less,
  test_time_less, test_time_more, Cell, Condition, Rule, cell_of, read, run_test, condition_holds,
  check_conditions, apply_rules, property_cell, locate_sensor, set, set_condition_name,
}

locate_sensor-append :
    (i : ℕ) (before : List Sensor) (s : Sensor) (after : List Sensor) (k : Text)
    → NoneOf (has_key k) before
    → has_key k s ≡ true
    → locate_sensor i (before ++ s ∷ after) k ≡ some (i + length before, s)
unfolding locate_sensor
locate_sensor-append i [] s after k clear hit = ground arith
locate_sensor-append i (b ∷ before) s after k clear hit =
    ground (arith, locate_sensor-append (ℕ.suc i) before s after k clear.1)

frame_id_short : (trame : Text) → ltb (length (frame_id trame)) 9 ≡ true
unfolding frame_id
frame_id_short trame = lt→ltb _ _ (omega (arith, length-take-le 8 (drop 16 trame)))

read-append :
    (before : List Sensor) (s : Sensor) (after : List Sensor) (i : ℕ) (cell : Cell)
    → i ≡ length before
    → read (before ++ s ∷ after) (some (record { sensor = i; cell = cell })) ≡ some (cell_of cell s)
unfolding read
read-append before s after i cell e = rw (e, read, get_elem?-append before s after)

-- A condition on a property of the sensor that sends a frame is set to a pointer through which,
-- after the frame, the rules read the value that was decoded from it.
pub set_condition_name-decode_trame :
    (c : Conversion) (trame : Text) (h : House) (before : List Sensor) (s : Sensor)
    (after : List Sensor) (cnd : Condition) (cnd_name : Text) (cell : Cell)
    → h.sensors ≡ before ++ s ∷ after
    → NoneOf (has_key (frame_id trame)) before
    → has_key (frame_id trame) s ≡ true
    → property_cell s.type cnd_name ≡ some (some cell)
    → (cnd' : Condition) × (set_condition_name h.sensors cnd (frame_id trame) cnd_name ≡ set cnd')
      × (read (decode_trame c trame h).sensors cnd'.at
          ≡ some (cell_of cell (decoded c trame s.decode s)))
unfolding set_condition_name
set_condition_name-decode_trame c trame h before s after cnd cnd_name cell e clear hit p = (
  record cnd { at = some (record { sensor = 0 + length before; cell = cell }) },
  rw (e, frame_id_short trame, locate_sensor-append 0 before s after (frame_id trame) clear hit, p),
  rw (decode_trame-known c trame h before s after e clear hit) (
      read-append before (decoded c trame s.decode s) after (0 + length before) cell (omega arith)),
)

-- Every test but those of the time.
abbrev pub ReadsData : Test → Type 0
ReadsData test_time_less = ⊥
ReadsData test_time_more = ⊥
ReadsData _ = Unit

run_test-null :
    (ss : List Sensor) (now : ℤ) (t : Test) (v : ℤ) → ReadsData t → run_test ss now t none v ≡ none
unfolding run_test read
run_test-null ss now test_equal v h = refl
run_test-null ss now test_greater_or_equal v h = refl
run_test-null ss now test_less_or_equal v h = refl
run_test-null ss now test_greater v h = refl
run_test-null ss now test_less v h = refl
run_test-null ss now test_time_less v h = absurd h
run_test-null ss now test_time_more v h = absurd h

-- If the sensor that a condition names by eight characters or less is a clock, and nothing has set the
-- pointer of the condition yet, then setConditionName accepts any property and leaves the pointer null:
-- with any test but those of the time, applyRules comes to the first rule with this condition in front
-- and reads through the null pointer, whatever the sensors are then.
pub set_condition_name-clock :
    (ss then_ss : List Sensor) (i : ℕ) (s : Sensor) (cnd : Condition) (sensor_id cnd_name : Text)
    (t : Test) (v now : ℤ) (env : Env) (r : Rule) (rest : List Condition) (rs : List Rule)
    (w : World)
    → ltb (length sensor_id) 9 ≡ true
    → locate_sensor 0 ss sensor_id ≡ some (i, s)
    → s.type ≡ horloge
    → cnd.at ≡ none
    → ReadsData t
    → (cnd' : Condition) × (set_condition_name ss cnd sensor_id cnd_name ≡ set cnd')
      × (apply_rules env then_ss now
            (record r { conditions = record cnd' { condition_ok = some t; value = v } ∷ rest } ∷ rs)
            w
          ≡ undefined)
unfolding set_condition_name apply_rules check_conditions condition_holds property_cell
set_condition_name-clock ss then_ss i s cnd sensor_id cnd_name t v now env r rest rs w short found
      clock blank reads =
    (cnd, rw (short, found, clock) refl, rw (null_read, apply_rules) refl)
  where
    null_read :
        check_conditions then_ss now (record cnd { condition_ok = some t; value = v } ∷ rest) ≡ none
    null_read =
        rw (blank, condition_holds, run_test-null then_ss now t v reads, check_conditions) refl
