-- ===== src/Server/Cleaning.antt =====
-- server/src/init.c, actions.c, rules.c, actionneurs.c, sensors.c: the functions that give the memory of
-- the configuration back to the allocator.
pub mod Returning
use cofi_ty_home.Common.{ℕ, ◌≡◌, Option, none, some, ◌>>=◌, List, [], ◌∷◌}
use cofi_ty_home.Kernel.Memory.{Memory, Layout, g_free, destroy_memory}

-- The addresses of the nodes: an action with its functions, a rule with its conditions, an actuator,
-- a sensor with its data, each list in its order; and the text `nameLogRules`.
pub record Nodes : Type 0 where
  pub actions : List (ℕ × List ℕ)
  pub start_rule : List (ℕ × List ℕ)
  pub actionneurs : List ℕ
  pub sensors : List (ℕ × ℕ)

pub record Server : Type 0 where
  pub nodes : Nodes
  pub memory : Memory

module _ (l : Layout) (fuel : ℕ) where
  abbrev pub free_one : ℕ → Memory → Option Memory
  free_one p m = g_free l fuel (some p) m

  -- The loop over the functions of an action, over the conditions of a rule, or over the actuators.
  unfoldable pub free_list : List ℕ → Memory → Option Memory
  free_list [] m = some m
  free_list (p ∷ ps) m = do m' ← free_one p m; free_list ps m'

  -- The loop over the actions or over the rules.
  unfoldable pub free_nested : List (ℕ × List ℕ) → Memory → Option Memory
  unfolding free_list
  free_nested [] m = some m
  free_nested (n ∷ ns) m = do m1 ← free_list n.1 m; m2 ← free_one n.0 m1; free_nested ns m2

  unfoldable pub free_sensors : List (ℕ × ℕ) → Memory → Option Memory
  free_sensors [] m = some m
  free_sensors (s ∷ ss) m = do m1 ← free_one s.1 m; m2 ← free_one s.0 m1; free_sensors ss m2

  unfoldable pub clean_actions : Server → Option Server
  unfolding free_nested
  clean_actions s = do
    m ← free_nested s.nodes.actions s.memory
    some (record { nodes = record s.nodes { actions = [] }; memory = m })

  unfoldable pub clean_rules : Server → Option Server
  unfolding free_nested
  clean_rules s = do
    m ← free_nested s.nodes.start_rule s.memory
    some (record { nodes = record s.nodes { start_rule = [] }; memory = m })

  unfoldable pub clean_actionneurs : Server → Option Server
  unfolding free_list
  clean_actionneurs s = do
    m ← free_list s.nodes.actionneurs s.memory
    some (record { nodes = record s.nodes { actionneurs = [] }; memory = m })

  unfoldable pub clean_sensors : Server → Option Server
  unfolding free_sensors
  clean_sensors s = do
    m ← free_sensors s.nodes.sensors s.memory
    some (record { nodes = record s.nodes { sensors = [] }; memory = m })

  unfoldable pub clean_memory : Server → Option Server
  unfolding clean_actions clean_rules clean_actionneurs clean_sensors
  clean_memory s = do
    s1 ← clean_actions s
    s2 ← clean_rules s1
    s3 ← clean_actionneurs s2
    clean_sensors s3
