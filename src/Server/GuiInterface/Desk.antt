-- ===== src/Server/GuiInterface/Desk.antt =====
-- server/src/guiInterface.c: what the commands work on. The JSON library, the files, `popen`, the
-- memory and the automaton of the parser are parameters.
use cofi_ty_home.Common.{ℕ, Bool, Option, none, some, List, ◌∷◌, Text, codes}
use cofi_ty_home.Common.Int.{ℤ}
use cofi_ty_home.Server.World.{World, Env}
use cofi_ty_home.Server.Sensors.{TypeCapteur, temperature, contact, interrupteur, presence, horloge}
use cofi_ty_home.Server.Configuration.{Config, Parser}

-- The functions `json_object_…` and `json_tokener_parse` over objects `J`, among which is the null
-- pointer. The text of an object may be a null pointer.
pub record Json (J : Type 0) : Type 0 where
  pub parse : Text → J
  pub new_object : J
  pub new_array : J
  pub new_int : ℤ → J
  pub new_string : Text → J
  pub object_add : J → Text → J → J
  pub array_add : J → J → J
  pub to_json_string : J → Text
  pub object_get : J → Text → J
  pub get_int : J → ℤ
  pub get_string : J → Option Text
  pub array_length : J → ℕ
  pub array_get_idx : J → ℕ → J

pub data Effect : Type 0 where
  -- `guiNetworkSend`, `puts`, `system`
  sends says shell : Text → Effect
  -- `fprintf` of a text to a file that has been emptied
  writes : Text → Text → Effect
  -- `gMalloc`, `gFree` of such a block, `gFree` of a text of the JSON library
  allocates : ℕ → Effect
  frees : Effect
  frees_string : Text → Effect

-- The configuration, what the actions have done, and the other effects, the newest first.
pub record Desk : Type 0 where
  pub config : Config
  pub world : World
  pub effects : List Effect

-- The command goes on with a value, `exit` has been called, or a null or indeterminate pointer used.
pub data Outcome (A : Type 0) : Type 0 where
  done : A → Outcome A
  exits : Desk → Outcome A
  undefined : Outcome A

abbrev pub and_then : {A B : Type 0} → Outcome A → (A → Outcome B) → Outcome B
and_then (done a) f = f a
and_then (exits d) f = exits d
and_then undefined f = undefined

-- The use of a pointer.
abbrev pub use_of : {A B : Type 0} → Option A → (A → Outcome B) → Outcome B
use_of none f = undefined
use_of (some a) f = f a

-- What the commands get from outside.
pub record Outside : Type 0 where
  pub env : Env
  pub name_log_sensors : Text
  pub fopen_read : Desk → Text → Option Text
  pub fopen_write : Desk → Text → Bool
  pub g_malloc : Desk → ℕ → Bool
  -- the lines that `fgets (…, 80, …)` gives
  pub popen_read : Desk → Text → Option (List Text)
  -- what the parser finds when it is called
  pub parser : Desk → Parser

abbrev pub add_effect : Effect → Desk → Desk
add_effect e d = record d { effects = e ∷ d.effects }

-- The string for each type of sensor.
abbrev pub type_name : TypeCapteur → Option Text
type_name temperature = some (codes "Temperature")
type_name contact = some (codes "Contact")
type_name interrupteur = some (codes "Interrupteur")
type_name presence = some (codes "Presence")
type_name horloge = none

-- The variable `type` behind the `switch`: it keeps its value at a clock.
abbrev pub type_after : {J : Type 0} → Json J → TypeCapteur → Option J → Option J
type_after o t type = elim (type_name t) [ none ↦ type | some n ↦ some (o.new_string n) ]
