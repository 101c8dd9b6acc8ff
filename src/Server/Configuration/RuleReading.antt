-- ===== src/Server/Configuration/RuleReading.antt =====
-- The conditions of a right file can be read.
use cofi_ty_home.Common.{
  ℕ, zero, suc, ◌<◌, ◌≡◌, refl, Bool, Option, some, List, [], ◌∷◌, arith, length, get_elem?, Each,
  map,
}
use cofi_ty_home.Common.Int.{ℤ, eq_ℤ, leb_ℤ, ltb_ℤ}
use cofi_ty_home.Server.Sensors.{Sensor}
use cofi_ty_home.Server.Rules.{
  Test, test_equal, test_greater_or_equal, test_less_or_equal, test_greater, test_less,
  test_time_less, test_time_more, Cell, DataPtr, cell_of, read, run_test, condition_holds,
  locate_sensor,
}
use cofi_ty_home.Server.Rules.Firing.{AreReadable, AllReadable}
use cofi_ty_home.Server.Configuration.{Config, Parser}
use cofi_ty_home.Server.Configuration.Wiring.{located_below}
use cofi_ty_home.Server.Configuration.Sentences.{OneCondition, OneRule}
use cofi_ty_home.Server.Configuration.RuleBuilding.{
  condition_of, rule_of, pointer_at, cell_named, ConditionFits, RuleFits,
}

get_elem?-some :
    {A : Type 0} (xs : List A) (i : ℕ) → i < length xs → (x : A) × (get_elem? xs i ≡ some x)
get_elem?-some [] i lt = elim lt [ ]
get_elem?-some (x ∷ xs) zero lt = (x, refl)
get_elem?-some (x ∷ xs) (suc i) lt = get_elem?-some xs i (omega arith)

read-some :
    (ss : List Sensor) (i : ℕ) (cell : Cell)
    → i < length ss
    → (v : ℤ) × (read ss (some (record { sensor = i; cell = cell })) ≡ some v)
unfolding read
read-some ss i cell lt =
    let s = (get_elem?-some ss i lt).0 in (cell_of cell s, rw (read, (get_elem?-some ss i lt).1))

run_test-some :
    (ss : List Sensor) (now : ℤ) (t : Test) (p : Option DataPtr) (v value : ℤ)
    → read ss p ≡ some v
    → (b : Bool) × (run_test ss now t p value ≡ some b)
unfolding run_test
run_test-some ss now test_equal p v value e = (eq_ℤ v value, rw e refl)
run_test-some ss now test_greater_or_equal p v value e = (leb_ℤ value v, rw e refl)
run_test-some ss now test_less_or_equal p v value e = (leb_ℤ v value, rw e refl)
run_test-some ss now test_greater p v value e = (ltb_ℤ value v, rw e refl)
run_test-some ss now test_less p v value e = (ltb_ℤ v value, rw e refl)
run_test-some ss now test_time_less p v value e = (ltb_ℤ now value, refl)
run_test-some ss now test_time_more p v value e = (ltb_ℤ value now, refl)

module _ (p : Parser) (old ss : List Sensor) (now : ℤ) (same : length ss ≡ length old) where
  one_readable :
      (c : OneCondition) (i : ℕ) (s : Sensor)
      → locate_sensor 0 old c.sensor ≡ some (i, s)
      → (b : Bool) × (condition_holds ss now (condition_of p old c) ≡ some b)
  unfolding condition_holds
  one_readable c i s found =
      let cell : Cell = cell_named s.type c.property in
      let below : i < length ss = omega (arith, located_below 0 old c.sensor i s found) in
      let found_read = read-some ss i cell below in
      run_test-some ss now c.test (pointer_at c.property (locate_sensor 0 old c.sensor))
        found_read.0 (condition_of p old c).value (rw found found_read.1)

  conditions-AreReadable :
      (cs : List OneCondition)
      → Each (ConditionFits p old) cs
      → AreReadable ss now (map (condition_of p old) cs)
  conditions-AreReadable [] fits = tt
  conditions-AreReadable (c ∷ cs) ((i, s, found, named, time), fits) =
      (one_readable c i s found, conditions-AreReadable cs fits)

module _ (p : Parser) (c : Config) (ss : List Sensor) (now : ℤ) where
  -- If a file of rules fits to the sensors, then every condition of its rules can be read, at any
  -- time and with any data in as many sensors.
  pub rules-AllReadable :
      (rs : List OneRule)
      → length ss ≡ length c.sensors
      → Each (RuleFits p c.sensors) rs
      → AllReadable ss now (map (rule_of p c) rs)
  rules-AllReadable [] same fits = tt
  rules-AllReadable (r ∷ rs) same ((name, fit), fits) = (
    conditions-AreReadable p c.sensors ss now same r.conditions fit,
    rules-AllReadable rs same fits,
  )
