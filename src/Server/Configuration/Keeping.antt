-- ===== src/Server/Configuration/Keeping.antt =====
-- Every reduction keeps the conditions wired to the sensors.
use mathlib.Core.Path.{subst}
use cofi_ty_home.Common.{
  ℕ, ◌+◌, ◌<◌, ◌≡◌, refl, sym, Bool, true, false, Option, none, some, List, [], ◌∷◌, arith,
  if◌then◌else◌, length, length-append, ltb, Text, Each, Each-append, Each-last, inl,
}
use cofi_ty_home.Common.Printing.{decimal}
use cofi_ty_home.Server.Sensors.{
  Sensor, TypeCapteur, temperature, contact, interrupteur, presence, horloge,
}
use cofi_ty_home.Server.Sensors.Decoding.{IsLoaded}
use cofi_ty_home.Server.Rules.{
  Condition, locate_sensor, set_condition_name, set, refused, corrupts, SetName,
}
use cofi_ty_home.Server.Actuators.{Actionneur, ActionFct, get_actionneur, set_actionneur_fct}
use cofi_ty_home.Server.Actions.{Action}
use cofi_ty_home.Server.World.{Event}
use cofi_ty_home.Server.Configuration.{
  Config, Reduction, init_sensor, type_sensor, id_sensor, id_sensor_number, name_sensor,
  init_actionneur, type_actionneur, id_actionneur, id_actionneur_number, name_actionneur, action_id,
  one_actionneur_fct, rule_id, condition_id, condition_id_property, operator, number_id,
  number_id_number, some_actions, Parser, ended, corrupted,
}
use cofi_ty_home.Server.Configuration.Clock.{time_value, warn}
use cofi_ty_home.Server.Configuration.Reducing.{
  reduce, reduce_all, blank_sensor, is_time, size_id, size_name, add_condition, change_condition,
  change_actionneur, reduce_id_sensor, reduce_id_actionneur, with_fct, with_located, with_set_name,
  reduce_one_actionneur_fct, reduce_condition_id, reduce_condition_id_property, blank_condition,
  set_value, value_of, reduce_number_id, last_is,
}
use cofi_ty_home.Server.Configuration.Wiring.{
  Yields, Yields-then_parse, Yields-if, Yields-current, Points, IsWiredTo, IsWired, sensors-IsWired,
  last_sensor-IsWired, last_rule-IsWired, located_below, clocks-append, Wires,
  set_condition_name-Wires,
}

blank_sensor-IsLoaded : (t : TypeCapteur) → IsLoaded (blank_sensor t)
blank_sensor-IsLoaded temperature = (refl, tt)
blank_sensor-IsLoaded contact = (refl, inl refl)
blank_sensor-IsLoaded interrupteur = (refl, (0, refl, omega arith))
blank_sensor-IsLoaded presence = (refl, inl refl)
blank_sensor-IsLoaded horloge = (refl, tt)

add_condition-IsWired :
    (cnd : Condition) (c : Config)
    → IsWired c
    → Points c.sensors cnd.at
    → Yields IsWired (add_condition cnd c)
add_condition-IsWired cnd c w at = Yields-current IsWired c.rules _ (λ before r e.
    last_rule-IsWired c before r _ w e
      (λ h. Each-append (λ d. Points c.sensors d.at) r.conditions (cnd ∷ []) h (at, tt)))

-- The current condition is changed, but not its pointer.
change_condition-IsWired :
    (f : Condition → Condition) (c : Config)
    → ((cnd : Condition) → (f cnd).at ≡ cnd.at)
    → IsWired c
    → Yields IsWired (change_condition f c)
change_condition-IsWired f c same w = Yields-current IsWired c.rules _ (λ before r e.
    Yields-current IsWired r.conditions _ (λ earlier cnd e'.
      last_rule-IsWired c before r _ w e (λ h.
        Each-last (λ d. Points c.sensors d.at) earlier cnd (f cnd)
          (subst (Points c.sensors) (sym (same cnd)))
          (subst (Each (λ d. Points c.sensors d.at)) e' h))))

id_sensor-IsWired : (id : Text) (c : Config) → IsWired c → Yields IsWired (reduce_id_sensor id c)
id_sensor-IsWired id c w = Yields-current IsWired c.sensors _ (λ before s e.
    Yields-if IsWired (ltb (length id) size_id) _ corrupted
      (λ fits. last_sensor-IsWired c before s (record s { id = id }) w e refl (λ h. h))
      (λ long. tt))

change_actionneur-IsWired :
    (f : Actionneur → Actionneur) (c : Config) → IsWired c → Yields IsWired (change_actionneur f c)
change_actionneur-IsWired f c w = Yields-current IsWired c.actionneurs _ (λ before a e. w)

id_actionneur-IsWired :
    (id : Text) (c : Config) → IsWired c → Yields IsWired (reduce_id_actionneur id c)
id_actionneur-IsWired id c w =
    Yields-if IsWired (ltb (length id) size_id) _ corrupted
      (λ fits. change_actionneur-IsWired _ c w) (λ long. tt)

one_actionneur_fct-IsWired :
    (p : Parser) (id fct : Text) (c : Config)
    → IsWired c
    → Yields IsWired (reduce_one_actionneur_fct p id fct c)
one_actionneur_fct-IsWired p id fct c w = Yields-current IsWired c.actions _ (λ before a e.
    Yields-if IsWired (p.g_malloc c) _ ended
      (λ given. go before a (
        set_actionneur_fct (record { fct = none; actionneur = get_actionneur c.actionneurs id })
          fct))
      (λ full. tt))
  where
    go :
        (before : List Action) (a : Action) (r : Option (ActionFct × List Event))
        → Yields IsWired (with_fct c before a r)
    go before a none = tt
    go before a (some (f, said)) = w

condition_id-IsWired :
    (p : Parser) (sensor_id : Text) (c : Config)
    → IsWired c
    → Yields IsWired (reduce_condition_id p sensor_id c)
condition_id-IsWired p sensor_id c w =
    Yields-if IsWired (p.g_malloc c) _ ended
      (λ given.
        Yields-if IsWired (ltb (length sensor_id) size_name) _ corrupted
          (λ fits. go (locate_sensor 0 c.sensors sensor_id) (located_below 0 c.sensors sensor_id))
          (λ long. tt))
      (λ full. tt)
  where
    go :
        (r : Option (ℕ × Sensor))
        → ((i : ℕ) (s : Sensor) → r ≡ some (i, s) → i < 0 + length c.sensors)
        → Yields IsWired (with_located c r)
    go none h = tt
    go (some (i, s)) h = add_condition-IsWired _ c w (omega (arith, h i s refl))

condition_id_property-IsWired :
    (p : Parser) (sensor_id cnd_name : Text) (c : Config)
    → IsWired c
    → Yields IsWired (reduce_condition_id_property p sensor_id cnd_name c)
condition_id_property-IsWired p sensor_id cnd_name c w =
    Yields-if IsWired (p.g_malloc c) _ ended
      (λ given.
        go (set_condition_name c.sensors blank_condition sensor_id cnd_name)
          (set_condition_name-Wires c.sensors blank_condition sensor_id cnd_name refl))
      (λ full. tt)
  where
    go : (r : SetName) → Wires c.sensors r → Yields IsWired (with_set_name c r)
    go (set cnd) h = add_condition-IsWired cnd c w h
    go refused h = tt
    go corrupts h = tt

warn-IsWired : (b : Bool) (c : Config) → IsWired c → IsWired (warn b c)
warn-IsWired true c w = w
warn-IsWired false c w = w

number_id-IsWired :
    (p : Parser) (text : Text) (c : Config) → IsWired c → Yields IsWired (reduce_number_id p text c)
unfolding time_value
number_id-IsWired p text c w =
    Yields-then_parse IsWired IsWired (set_value (value_of p text c.flag_time c)) _ (go c.flag_time)
      (λ c' w'. w')
  where
    go : (timed : Bool) → Yields IsWired (set_value (value_of p text timed c))
    go true =
        change_condition-IsWired _ _ (λ cnd. refl)
          (warn-IsWired _ _ (warn-IsWired (ltb 5 (length text)) c w))
    go false = change_condition-IsWired _ c (λ cnd. refl) w

reduce-IsWired :
    (p : Parser) (r : Reduction) (c : Config) → IsWired c → Yields IsWired (reduce p r c)
unfolding reduce
reduce-IsWired p init_sensor c w =
    Yields-if IsWired (p.g_malloc c) _ ended
      (λ given. Yields-if IsWired c.untyped corrupted _ (λ twice. tt) (λ typed. w)) (λ full. tt)
reduce-IsWired p (type_sensor t) c w =
    Yields-if IsWired c.untyped _ corrupted
      (λ started.
        Yields-if IsWired (p.g_malloc c) _ ended
          (λ given.
            sensors-IsWired c (last_is c.sensors (blank_sensor t)) w
              (Each-append IsLoaded c.sensors (blank_sensor t ∷ []) w.0
                (blank_sensor-IsLoaded t, tt))
              (omega (arith, length-append c.sensors (blank_sensor t ∷ [])))
              (omega (arith, clocks-append c.sensors (blank_sensor t ∷ []))))
          (λ full. tt))
      (λ none_yet. tt)
reduce-IsWired p (id_sensor id) c w = id_sensor-IsWired id c w
reduce-IsWired p (id_sensor_number n) c w = id_sensor-IsWired (decimal n) c w
reduce-IsWired p (name_sensor none) c w = w
reduce-IsWired p (name_sensor (some name)) c w = Yields-current IsWired c.sensors _ (λ before s e.
    Yields-if IsWired (ltb (length name) size_name) _ corrupted
      (λ fits. last_sensor-IsWired c before s (record s { name = name }) w e refl (λ h. h))
      (λ long. tt))
reduce-IsWired p init_actionneur c w =
    Yields-if IsWired (p.g_malloc c) _ ended (λ given. w) (λ full. tt)
reduce-IsWired p (type_actionneur t) c w = change_actionneur-IsWired _ c w
reduce-IsWired p (id_actionneur id) c w = id_actionneur-IsWired id c w
reduce-IsWired p (id_actionneur_number n) c w = id_actionneur-IsWired (decimal n) c w
reduce-IsWired p (name_actionneur none) c w = w
reduce-IsWired p (name_actionneur (some name)) c w =
    Yields-if IsWired (ltb (length name) size_name) _ corrupted
      (λ fits. change_actionneur-IsWired _ c w) (λ long. tt)
reduce-IsWired p (action_id nom) c w =
    Yields-if IsWired (p.g_malloc c) _ ended
      (λ given. Yields-if IsWired (ltb (length nom) size_name) _ corrupted (λ fits. w) (λ long. tt))
      (λ full. tt)
reduce-IsWired p (one_actionneur_fct id fct) c w = one_actionneur_fct-IsWired p id fct c w
reduce-IsWired p (rule_id name) c w =
    Yields-if IsWired (p.g_malloc c) _ ended
      (λ given.
        Yields-if IsWired (ltb (length name) size_name) _ corrupted
          (λ fits. (w.0, Each-append (IsWiredTo c.sensors) c.rules _ w.1 (tt, tt))) (λ long. tt))
      (λ full. tt)
reduce-IsWired p (condition_id sensor_id) c w = condition_id-IsWired p sensor_id c w
reduce-IsWired p (condition_id_property sensor_id cnd_name) c w =
    condition_id_property-IsWired p sensor_id cnd_name c w
reduce-IsWired p (operator t) c w = timed (is_time t)
  where
    timed :
        (b : Bool)
        → Yields IsWired (
            change_condition
              (λ cnd. record cnd { condition_ok = some t })
              (if b then record c { flag_time = true } else c))
    timed true = change_condition-IsWired _ _ (λ cnd. refl) w
    timed false = change_condition-IsWired _ _ (λ cnd. refl) w
reduce-IsWired p (number_id text) c w = number_id-IsWired p text c w
reduce-IsWired p (number_id_number n) c w = change_condition-IsWired _ c (λ cnd. refl) w
reduce-IsWired p (some_actions nom) c w =
    Yields-current IsWired c.rules _ (λ before r e. last_rule-IsWired c before r _ w e (λ h. h))

-- Whatever the parser finds in a file, its reductions keep every sensor with the decoder of its
-- type and a value in its range, and every pointer of a condition in the data of a sensor, or null
-- while there is a clock, if the program goes on.
pub reduce_all-IsWired :
    (p : Parser) (rs : List Reduction) (c : Config) → IsWired c → Yields IsWired (reduce_all p rs c)
unfolding reduce_all
reduce_all-IsWired p [] c w = w
reduce_all-IsWired p (r ∷ rs) c w =
    Yields-then_parse IsWired IsWired (reduce p r c) _ (reduce-IsWired p r c w)
      (λ c' w'. reduce_all-IsWired p rs c' w')
