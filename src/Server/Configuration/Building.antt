-- ===== src/Server/Configuration/Building.antt =====
-- The sensors that a right file gives.
use cofi_ty_home.Common.{
  ◌<◌, ◌≡◌, refl, ◌∙◌, ap, true, false, Option, none, some, List, [], ◌∷◌, ◌++◌, lt→ltb, Text,
  length, Each, map,
}
use mathlib.Core.List.{append_assoc, append-nil}
use cofi_ty_home.Common.Int.{pos}
use cofi_ty_home.Server.Sensors.{Sensor, TypeCapteur}
use cofi_ty_home.Server.Configuration.{
  Config, Reduction, init_sensor, type_sensor, id_sensor, name_sensor, Parser, reduced, split_last,
  behind,
}
use cofi_ty_home.Server.Configuration.Reducing.{reduce, reduce_all, blank_sensor}
use cofi_ty_home.Server.Configuration.Sentences.{OneSensor, sensor_reductions, sensors_reductions}

pub split_last_self : {A : Type 0} (xs : List A) (x : A) → split_last (xs ++ x ∷ []) ≡ some (xs, x)
unfolding split_last
split_last_self [] x = refl
split_last_self (y ∷ []) x = refl
split_last_self (y ∷ z ∷ xs) x = ap (behind y) (split_last_self (z ∷ xs) x)

-- The name, or nothing in the array.
abbrev pub name_of : Option Text → Text
name_of none = []
name_of (some t) = t

abbrev pub sensor_of : OneSensor → Sensor
sensor_of s = record {
  type = s.type;
  id = s.id;
  name = name_of s.name;
  first = pos 0;
  second = pos 0;
  decode = s.type;
}

-- The arrays have room for the words and their zeros.
abbrev pub SensorFits : OneSensor → Type 0
SensorFits s = (length s.id < 9) × (length (name_of s.name) < 20)

-- A configuration with other sensors, the last one typed.
abbrev pub with_sensors : Config → List Sensor → Config
with_sensors c ss = record c { sensors = ss; untyped = false }

abbrev with_id : Text → Sensor → Sensor
with_id id s = record s { id = id }

abbrev with_name : Option Text → Sensor → Sensor
with_name none s = s
with_name (some t) s = record s { name = t }

with_name-blank_sensor :
    (s : OneSensor) → with_name s.name (with_id s.id (blank_sensor s.type)) ≡ sensor_of s
with_name-blank_sensor s = go s.name
  where
    go :
        (n : Option Text)
        → with_name n (with_id s.id (blank_sensor s.type)) ≡ sensor_of (record s { name = n })
    go none = refl
    go (some t) = refl

module _ (p : Parser) (memory : (c : Config) → p.g_malloc c ≡ true) where
  reduce-init_sensor :
      (c : Config)
      → c.untyped ≡ false
      → reduce p init_sensor c ≡ reduced (record c { untyped = true })
  unfolding reduce
  reduce-init_sensor c typed = rw (memory c, typed)

  reduce-type_sensor :
      (c : Config) (t : TypeCapteur)
      → reduce p (type_sensor t) (record c { untyped = true })
        ≡ reduced (with_sensors c (c.sensors ++ blank_sensor t ∷ []))
  unfolding reduce
  reduce-type_sensor c t = rw (memory (record c { untyped = true }))

  reduce-id_sensor :
      (c : Config) (ss : List Sensor) (s : Sensor) (id : Text)
      → length id < 9
      → reduce p (id_sensor id) (with_sensors c (ss ++ s ∷ []))
        ≡ reduced (with_sensors c (ss ++ with_id id s ∷ []))
  unfolding reduce
  reduce-id_sensor c ss s id fits = rw (split_last_self ss s, lt→ltb (length id) 9 fits)

  reduce-name_sensor :
      (c : Config) (ss : List Sensor) (s : Sensor) (name : Option Text)
      → length (name_of name) < 20
      → reduce p (name_sensor name) (with_sensors c (ss ++ s ∷ []))
        ≡ reduced (with_sensors c (ss ++ with_name name s ∷ []))
  unfolding reduce
  reduce-name_sensor c ss s none fits = refl
  reduce-name_sensor c ss s (some t) fits = rw (split_last_self ss s, lt→ltb (length t) 20 fits)

  one_sensor :
      (s : OneSensor) (c : Config) (rs : List Reduction)
      → SensorFits s
      → c.untyped ≡ false
      → reduce_all p (sensor_reductions s ++ rs) c
        ≡ reduce_all p rs (with_sensors c (c.sensors ++ sensor_of s ∷ []))
  unfolding reduce_all sensor_reductions
  one_sensor s c rs (id, name) typed = rw (
    reduce-init_sensor c typed,
    reduce-type_sensor c s.type,
    reduce-id_sensor c c.sensors (blank_sensor s.type) s.id id,
    reduce-name_sensor c c.sensors (with_id s.id (blank_sensor s.type)) s.name name,
    with_name-blank_sensor s,
  )

  -- If there is memory for all nodes and the words fit into their arrays, then a file of sensors adds
  -- a sensor for each of its sentences, in their order, with its type, the decoder of this type, its
  -- id, its name and zeros for data, and changes nothing else.
  pub reduce_all-sensors :
      (ss : List OneSensor) (c : Config)
      → Each SensorFits ss
      → c.untyped ≡ false
      → reduce_all p (sensors_reductions ss) c
        ≡ reduced (with_sensors c (c.sensors ++ map sensor_of ss))
  unfolding reduce_all sensors_reductions
  reduce_all-sensors [] c fits typed = rw (append-nil c.sensors, typed)
  reduce_all-sensors (s ∷ ss) c (fit, fits) typed =
      one_sensor s c (sensors_reductions ss) fit typed
      ∙ reduce_all-sensors ss (with_sensors c (c.sensors ++ sensor_of s ∷ [])) fits refl
      ∙ ap (λ l. reduced (with_sensors c l)) (append_assoc c.sensors (sensor_of s ∷ []) _)
