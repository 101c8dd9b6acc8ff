-- ===== src/Server/Configuration/RuleBuilding.antt =====
-- The rules that a right file gives.
use cofi_ty_home.Common.{
  ℕ, ◌<◌, ◌≤◌, ◌≡◌, refl, ◌∙◌, ap, Bool, true, false, Option, none, some, List, [], ◌∷◌, ◌++◌,
  if◌then◌else◌, lt→ltb, le→ltb, Text, length, Each, map, Bool-cases, inl, inr,
}
use mathlib.Core.List.{append_assoc, append-nil}
use cofi_ty_home.Common.Int.{ℤ}
use cofi_ty_home.Server.Sensors.{Sensor, TypeCapteur}
use cofi_ty_home.Server.Actions.{get_action}
use cofi_ty_home.Server.Rules.{
  Test, Cell, first_cell, DataPtr, Condition, Rule, property_cell, locate_sensor,
  set_condition_name,
}
use cofi_ty_home.Server.Configuration.{
  Config, Reduction, rule_id, operator, number_id, some_actions, Parser, reduced,
}
use cofi_ty_home.Server.Configuration.Clock.{split_time, out_of_day, time_value}
use cofi_ty_home.Server.Configuration.Reducing.{reduce, reduce_all, blank_condition, is_time}
use cofi_ty_home.Server.Configuration.Building.{split_last_self}
use cofi_ty_home.Server.Configuration.Sentences.{
  OneCondition, OneRule, id_reduction, conditions_reductions, rule_reductions, rules_reductions,
}

-- The first `int` of a sensor's data, or the one of the property.
abbrev pub cell_or_first : Option (Option Cell) → Cell
cell_or_first (some (some cell)) = cell
cell_or_first _ = first_cell

abbrev pub cell_named : TypeCapteur → Option Text → Cell
cell_named t none = first_cell
cell_named t (some n) = cell_or_first (property_cell t n)

abbrev pub pointer_at : Option Text → Option (ℕ × Sensor) → Option DataPtr
pointer_at property none = none
pointer_at property (some (i, s)) = some (record { sensor = i; cell = cell_named s.type property })

abbrev pub time_of : Parser → Text → ℤ
time_of p text = let hm = split_time text 0 [] 0 [] in p.mktime (p.atoi hm.0) (p.atoi hm.1)

-- What a sentence says: the data of the first sensor with that id or name, the test, and a number or
-- a time of today.
abbrev pub condition_of : Parser → List Sensor → OneCondition → Condition
condition_of p ss c = record {
  condition_ok = some c.test;
  at = pointer_at c.property (locate_sensor 0 ss c.sensor);
  value = if is_time c.test then time_of p c.value else p.atoi c.value;
}

abbrev pub rule_of : Parser → Config → OneRule → Rule
rule_of p c r = record {
  name = r.name;
  conditions = map (condition_of p c.sensors) r.conditions;
  action = get_action c.actions r.last_action;
}

-- The sensor exists, has the property, if one is named, and the words fit into their arrays.
abbrev pub NamesCell : Option Text → Text → TypeCapteur → Type 0
NamesCell none sensor t = length sensor < 20
NamesCell (some n) sensor t =
    (length sensor < 9) × (cell : Cell) × (property_cell t n ≡ some (some cell))

-- A time of five characters at most, between 0:00 and 23:59.
abbrev pub IsTime : Parser → Text → Type 0
IsTime p text =
    (length text ≤ 5)
    × (out_of_day (p.atoi (split_time text 0 [] 0 []).0) (p.atoi (split_time text 0 [] 0 []).1)
        ≡ false)

abbrev pub ConditionFits : Parser → List Sensor → OneCondition → Type 0
ConditionFits p ss c =
    (i : ℕ) × (s : Sensor) × (locate_sensor 0 ss c.sensor ≡ some (i, s))
    × NamesCell c.property c.sensor s.type
    × (is_time c.test ≡ true → IsTime p c.value)

abbrev pub RuleFits : Parser → List Sensor → OneRule → Type 0
RuleFits p ss r = (length r.name < 20) × Each (ConditionFits p ss) r.conditions

-- A configuration whose current rule is `r`.
abbrev at_rule : Config → List Rule → Rule → Bool → Config
at_rule c before r timed = record c { rules = before ++ r ∷ []; flag_time = timed }

abbrev with_condition : Rule → Condition → Rule
with_condition r cnd = record r { conditions = r.conditions ++ cnd ∷ [] }

module _ (p : Parser) (memory : (c : Config) → p.g_malloc c ≡ true) where
  reduce-id_reduction :
      (c : Config) (before : List Rule) (r : Rule) (sensor : Text) (property : Option Text) (i : ℕ)
      (s : Sensor)
      → locate_sensor 0 c.sensors sensor ≡ some (i, s)
      → NamesCell property sensor s.type
      → reduce p (id_reduction sensor property) (at_rule c before r false)
        ≡ reduced (
            at_rule c before
              (with_condition r (record blank_condition {
                at = pointer_at property (locate_sensor 0 c.sensors sensor);
              }))
              false)
  unfolding reduce id_reduction set_condition_name
  reduce-id_reduction c before r sensor none i s found fits = rw (
    memory (at_rule c before r false),
    lt→ltb (length sensor) 20 fits,
    found,
    split_last_self before r,
  )
  reduce-id_reduction c before r sensor (some n) i s found (fits, cell, named) = rw (
    memory (at_rule c before r false),
    lt→ltb (length sensor) 9 fits,
    found,
    named,
    split_last_self before r,
  )

  reduce-operator :
      (c : Config) (before : List Rule) (r : Rule) (cnd : Condition) (t : Test)
      → reduce p (operator t) (at_rule c before (with_condition r cnd) false)
        ≡ reduced
            (at_rule c before (with_condition r (record cnd { condition_ok = some t })) (is_time t))
  unfolding reduce
  reduce-operator c before r cnd t = elim (Bool-cases (is_time t)) [
    | inl timed ↦
        rw (timed, split_last_self before (with_condition r cnd), split_last_self r.conditions cnd)
    | inr plain ↦
        rw (plain, split_last_self before (with_condition r cnd), split_last_self r.conditions cnd)
  ]

  reduce-number_id :
      (c : Config) (before : List Rule) (r : Rule) (cnd : Condition) (timed : Bool) (text : Text)
      → (timed ≡ true → IsTime p text)
      → reduce p (number_id text) (at_rule c before (with_condition r cnd) timed)
        ≡ reduced (
            at_rule c before
              (with_condition r
                (record cnd { value = if timed then time_of p text else p.atoi text }))
              false)
  unfolding reduce time_value
  reduce-number_id c before r cnd true text fits = rw (
    le→ltb 5 (length text) (fits refl).0,
    (fits refl).1,
    split_last_self before (with_condition r cnd),
    split_last_self r.conditions cnd,
  )
  reduce-number_id c before r cnd false text fits =
      rw (split_last_self before (with_condition r cnd), split_last_self r.conditions cnd)

  reduce-some_actions :
      (c : Config) (before : List Rule) (r : Rule) (nom : Text)
      → reduce p (some_actions nom) (at_rule c before r false)
        ≡ reduced (at_rule c before (record r { action = get_action c.actions nom }) false)
  unfolding reduce
  reduce-some_actions c before r nom = rw (split_last_self before r)

  reduce-rule_id :
      (c : Config) (name : Text)
      → length name < 20
      → c.flag_time ≡ false
      → reduce p (rule_id name) c
        ≡ reduced (at_rule c c.rules (record { name = name; conditions = []; action = none }) false)
  unfolding reduce
  reduce-rule_id c name fits plain = rw (memory c, lt→ltb (length name) 20 fits, plain)

  conditions-map :
      (cs : List OneCondition) (c : Config) (before : List Rule) (r : Rule) (rs : List Reduction)
      → Each (ConditionFits p c.sensors) cs
      → reduce_all p (conditions_reductions cs ++ rs) (at_rule c before r false)
        ≡ reduce_all p rs (
            at_rule c before
              (record r { conditions = r.conditions ++ map (condition_of p c.sensors) cs })
              false)
  unfolding reduce_all conditions_reductions
  conditions-map [] c before r rs fits = rw (append-nil r.conditions)
  conditions-map (x ∷ cs) c before r rs ((i, s, found, named, time), fits) =
      rw
        (
          reduce-id_reduction c before r x.sensor x.property i s found named,
          reduce-operator c before r _ x.test,
          reduce-number_id c before r _ (is_time x.test) x.value time,
        )
        (conditions-map cs c before (with_condition r (condition_of p c.sensors x)) rs fits
          ∙ ap (λ cs'. reduce_all p rs (at_rule c before (record r { conditions = cs' }) false))
              (append_assoc r.conditions (condition_of p c.sensors x ∷ []) _))

  one_rule :
      (r : OneRule) (c : Config) (rs : List Reduction)
      → RuleFits p c.sensors r
      → c.flag_time ≡ false
      → reduce_all p (rule_reductions r ++ rs) c
        ≡ reduce_all p rs (at_rule c c.rules (rule_of p c r) false)
  unfolding reduce_all rule_reductions
  one_rule r c rs (name, fits) plain = rw (
    reduce-rule_id c r.name name plain,
    append_assoc (conditions_reductions r.conditions) (some_actions r.last_action ∷ []) rs,
    conditions-map r.conditions c c.rules (record { name = r.name; conditions = []; action = none })
        (some_actions r.last_action ∷ rs) fits,
    reduce_all,
    reduce-some_actions c c.rules _ r.last_action,
  )

  -- If there is memory for all nodes, and every rule fits (its name is short, its conditions name
  -- sensors that are there and properties that they have, times are times of a day), and no time is
  -- expected at the start, then a file of rules adds a rule for each of its sentences, in their
  -- order: with its name, a condition for each of its conditions, on the data of the first sensor
  -- with that id or name, and the last one of its actions; nothing else changes.
  pub reduce_all-rules :
      (rs : List OneRule) (c : Config)
      → Each (RuleFits p c.sensors) rs
      → c.flag_time ≡ false
      → reduce_all p (rules_reductions rs) c
        ≡ reduced (record c { rules = c.rules ++ map (rule_of p c) rs; flag_time = false })
  unfolding reduce_all rules_reductions
  reduce_all-rules [] c fits plain = rw (append-nil c.rules, plain)
  reduce_all-rules (r ∷ rs) c (fit, fits) plain =
      one_rule r c (rules_reductions rs) fit plain
      ∙ reduce_all-rules rs (at_rule c c.rules (rule_of p c r) false) fits refl
      ∙ ap (λ l. reduced (record c { rules = l; flag_time = false }))
          (append_assoc c.rules (rule_of p c r ∷ []) _)
