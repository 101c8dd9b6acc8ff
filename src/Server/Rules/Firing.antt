-- ===== src/Server/Rules/Firing.antt =====
-- Which rules fire, and in what order.
use mathlib.Core.Path.{fun_ext}
use cofi_ty_home.Common.{
  Option-cases, ap, ◌≡◌, refl, ◌↔◌, Bool, true, false, ◌&&◌, Option, none, some, List, [], ◌∷◌,
  arith, if◌then◌else◌, Bool-cases, inl, inr,
}
use cofi_ty_home.Common.Int.{ℤ, ◌≤ℤ◌, ◌<ℤ◌, eq_of_eq_ℤ, eq_ℤ_refl}
use cofi_ty_home.Server.World.{World, Env, Run, ok, ◌then_run◌, emit, logs}
use cofi_ty_home.Server.Actuators.Effects.{IsSettled, Ends}
use cofi_ty_home.Server.Actions.Laws.{Ends-then_run, apply_action-IsSettled}
use cofi_ty_home.Server.Sensors.{Sensor}
use cofi_ty_home.Server.Rules.{
  Test, test_equal, test_greater_or_equal, test_less_or_equal, test_greater, test_less,
  test_time_less, test_time_more, DataPtr, Condition, Rule, read, run_test, condition_holds,
  check_conditions, fire, apply_rules,
}

-- What a test says of the data `v`, the time and the value of the condition.
abbrev pub Says : Test → ℤ → ℤ → ℤ → Type 0
Says test_equal v now value = v ≡ value
Says test_greater_or_equal v now value = value ≤ℤ v
Says test_less_or_equal v now value = v ≤ℤ value
Says test_greater v now value = value <ℤ v
Says test_less v now value = v <ℤ value
Says test_time_less v now value = now <ℤ value
Says test_time_more v now value = value <ℤ now

-- A test of readable data passes exactly when its relation holds.
pub run_test_iff :
    (ss : List Sensor) (now : ℤ) (t : Test) (p : Option DataPtr) (v value : ℤ)
    → read ss p ≡ some v
    → (run_test ss now t p value ≡ some true) ↔ Says t v now value
unfolding run_test
run_test_iff ss now test_equal p v value r =
    rw r ((λ e. eq_of_eq_ℤ v value (ground arith)), λ e. rw e (ground (arith, eq_ℤ_refl value)))
run_test_iff ss now test_greater_or_equal p v value r = rw r (ground arith)
run_test_iff ss now test_less_or_equal p v value r = rw r (ground arith)
run_test_iff ss now test_greater p v value r = rw r (ground arith)
run_test_iff ss now test_less p v value r = rw r (ground arith)
run_test_iff ss now test_time_less p v value r = ground arith
run_test_iff ss now test_time_more p v value r = ground arith

module _ (ss : List Sensor) (now : ℤ) where
  -- Every condition has a test, and data that its test can read.
  abbrev pub AreReadable : List Condition → Type 0
  AreReadable [] = Unit
  AreReadable (c ∷ cs) = ((b : Bool) × (condition_holds ss now c ≡ some b)) × AreReadable cs

  abbrev pub AllReadable : List Rule → Type 0
  AllReadable [] = Unit
  AllReadable (r ∷ rs) = AreReadable r.conditions × AllReadable rs

  abbrev is_true : Option Bool → Bool
  is_true none = false
  is_true (some b) = b

  -- All conditions hold.
  unfoldable pub fires : List Condition → Bool
  fires [] = true
  fires (c ∷ cs) = is_true (condition_holds ss now c) && fires cs

  unfoldable pub firing : List Rule → List Rule
  unfolding fires
  firing [] = []
  firing (r ∷ rs) = if fires r.conditions then r ∷ firing rs else firing rs

  check_conditions-fires :
      (cs : List Condition) → AreReadable cs → check_conditions ss now cs ≡ some (fires cs)
  unfolding check_conditions fires
  check_conditions-fires [] h = refl
  check_conditions-fires (c ∷ cs) ((true, e), h) =
      rw (e, check_conditions) (check_conditions-fires cs h)
  check_conditions-fires (c ∷ cs) ((false, e), h) = rw (e, check_conditions)

-- Rules that all fire.
unfoldable pub fire_all : Env → List Rule → World → Run
fire_all env [] w = ok w
fire_all env (r ∷ rs) w = fire env r w then_run fire_all env rs

-- If the conditions of the rules are readable, then applying the rules is logging and applying, in
-- their order, those rules all of whose conditions hold, and no other.
pub apply_rules-firing :
    (ss : List Sensor) (now : ℤ) (env : Env) (rs : List Rule) (w : World)
    → AllReadable ss now rs
    → apply_rules env ss now rs w ≡ fire_all env (firing ss now rs) w
unfolding apply_rules fire_all firing
apply_rules-firing ss now env [] w h = refl
apply_rules-firing ss now env (r ∷ rs) w (h, hs) = elim (Bool-cases (fires ss now r.conditions)) [
  | inl yes_fires ↦
      rw (check_conditions-fires ss now r.conditions h, yes_fires, apply_rules)
        (ap (◌then_run◌ (fire env r w)) (fun_ext λ w'. apply_rules-firing ss now env rs w' hs))
  | inr not_fires ↦
      rw (check_conditions-fires ss now r.conditions h, not_fires, apply_rules)
        (apply_rules-firing ss now env rs w hs)
]

fire-IsSettled : (env : Env) (r : Rule) (w : World) → IsSettled w → Ends IsSettled (fire env r w)
unfolding fire
fire-IsSettled env r w s =
    apply_action-IsSettled env r.action (emit (logs r.name) w)
      (record { player = s.player; game = s.game; keys = s.keys; keyboard = s.keyboard })

-- If every open pipe is remembered, no key is down and the keyboard is free, then this holds after
-- the rules have been applied too, if the program goes on.
pub apply_rules-IsSettled :
    (env : Env) (ss : List Sensor) (now : ℤ) (rs : List Rule) (w : World)
    → IsSettled w
    → Ends IsSettled (apply_rules env ss now rs w)
unfolding apply_rules
apply_rules-IsSettled env ss now [] w s = s
apply_rules-IsSettled env ss now (r ∷ rs) w s =
    elim (Option-cases (check_conditions ss now r.conditions)) [
      | inl e ↦ rw (e, apply_rules) tt
      | inr (true, e) ↦
          rw (e, apply_rules)
            (Ends-then_run IsSettled (fire env r w) (apply_rules env ss now rs)
              (fire-IsSettled env r w s) λ w' s'. apply_rules-IsSettled env ss now rs w' s')
      | inr (false, e) ↦ rw (e, apply_rules) (apply_rules-IsSettled env ss now rs w s)
    ]
