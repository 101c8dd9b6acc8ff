-- ===== src/Server/Configuration.antt =====
-- server/parse/rules.y: the configuration that the parser builds, and what its rules do when they are
-- reduced. The automaton that bison makes of the grammar is outside: it gives the reductions.
pub mod Clock
pub mod Reducing
pub mod Files
pub mod Sentences
pub mod Wiring
pub mod Keeping
pub mod Building
pub mod RuleBuilding
pub mod RuleReading
pub mod ActionBuilding
pub mod Reloading
use cofi_ty_home.Common.{ℕ, Bool, Option, none, some, List, [], ◌∷◌, Text}
use cofi_ty_home.Common.Int.{ℤ}
use cofi_ty_home.Server.Sensors.{TypeCapteur, Sensor}
use cofi_ty_home.Server.Actuators.{TypeActionneur, Actionneur}
use cofi_ty_home.Server.Actions.{Action}
use cofi_ty_home.Server.Rules.{Test, Rule}

pub data ProgState : Type 0 where
  init reloading : ProgState

-- The four lists in their order, so that the last node of each is the current one; whether one more
-- sensor, behind the listed ones, is still without a type: in the program it is in the list, with no
-- id, name, decoder or data, so that no frame and no rule finds it; `flagTime` and `parsedFlag`. `progState` is an argument of the
-- only function that reads it.
pub record Config : Type 0 where
  pub sensors : List Sensor
  pub actionneurs : List Actionneur
  pub actions : List Action
  pub rules : List Rule
  pub untyped : Bool
  pub flag_time : Bool
  pub parsed_flag : Bool

-- The rules of the grammar that do something, with the values of their tokens.
pub data Reduction : Type 0 where
  init_sensor : Reduction
  type_sensor : TypeCapteur → Reduction
  id_sensor : Text → Reduction
  id_sensor_number : ℤ → Reduction
  name_sensor : Option Text → Reduction
  init_actionneur : Reduction
  type_actionneur : TypeActionneur → Reduction
  id_actionneur : Text → Reduction
  id_actionneur_number : ℤ → Reduction
  name_actionneur : Option Text → Reduction
  action_id : Text → Reduction
  one_actionneur_fct : Text → Text → Reduction
  rule_id : Text → Reduction
  condition_id : Text → Reduction
  condition_id_property : Text → Text → Reduction
  operator : Test → Reduction
  number_id : Text → Reduction
  number_id_number : ℤ → Reduction
  some_actions : Text → Reduction

-- What `yyparse` makes of a file: its reductions, and whether it comes to the end without an error.
pub record Derivation : Type 0 where
  pub reductions : List Reduction
  pub accepted : Bool

-- Whether `gMalloc` gives a node, the C library's `atoi`, the time of today at an hour and a minute,
-- and what can be read under a name.
pub record Parser : Type 0 where
  pub g_malloc : Config → Bool
  pub atoi : Text → ℤ
  pub mktime : ℤ → ℤ → ℤ
  pub fopen : Text → Option Derivation

-- The parsing goes on, `exit` has been called, or memory has been overrun or a null pointer read.
pub data Parse : Type 0 where
  reduced : Config → Parse
  ended : Parse
  corrupted : Parse

infixl 5 ◌then_parse◌
abbrev pub ◌then_parse◌ : Parse → (Config → Parse) → Parse
reduced c then_parse f = f c
ended then_parse f = ended
corrupted then_parse f = corrupted

abbrev pub behind : {A : Type 0} → A → Option (List A × A) → Option (List A × A)
behind x none = none
behind x (some (before, last)) = some (x ∷ before, last)

-- The nodes before the last one, and the last one.
unfoldable pub split_last : {A : Type 0} → List A → Option (List A × A)
split_last [] = none
split_last (x ∷ []) = some ([], x)
split_last (x ∷ y ∷ ys) = behind x (split_last (y ∷ ys))

-- The use of the current node of a list; there is none at the start of a file.
abbrev pub use_current : {A : Type 0} → Option (List A × A) → (List A → A → Parse) → Parse
use_current none f = corrupted
use_current (some (before, x)) f = f before x

abbrev pub current : {A : Type 0} → List A → (List A → A → Parse) → Parse
unfolding split_last
current xs f = use_current (split_last xs) f
