-- ===== src/Server/GuiInterface/Initialise.antt =====
-- server/src/guiInterface.c: `processTypeInitialise`, the list of sensors and of commands.
use cofi_ty_home.Common.{
  ◌≡◌, refl, Option, none, some, ◌>>=◌, List, [], ◌∷◌, ◌++◌, if◌then◌else◌, Text, codes, str_eq,
}
use cofi_ty_home.Common.Int.{pos}
use cofi_ty_home.Server.Sensors.{
  Sensor, TypeCapteur, temperature, contact, interrupteur, presence, horloge,
}
use cofi_ty_home.Server.Actions.{Action}
use cofi_ty_home.Server.GuiInterface.Desk.{
  Json, sends, Desk, Outcome, done, use_of, add_effect, type_after,
}

module _ {J : Type 0} (o : Json J) where
  unfoldable pub sensor_object : J → J → J → J
  sensor_object id name type =
      o.object_add (o.object_add (o.object_add o.new_object (codes "id") id) (codes "name") name)
        (codes "type") type

  abbrev pub shown_name : Sensor → Text
  shown_name s = if str_eq s.name [] then s.id else s.name

  -- One round of the loop for a sensor of a type: `type` and `sensorsList` behind it.
  unfoldable pub list_as : TypeCapteur → Sensor → J → J → J × J
  unfolding sensor_object
  list_as horloge s t l = (t, l)
  list_as presence s t l =
      let name = o.new_string (shown_name s) in
      let id = o.new_string s.id in
      let lum = o.new_string (codes "Luminosite") in
      (lum, o.array_add (o.array_add l (sensor_object id name t)) (sensor_object id name lum))
  list_as _ s t l =
      (t, o.array_add l (sensor_object (o.new_string s.id) (o.new_string (shown_name s)) t))

  unfoldable pub list_sensor : Sensor → Option J → J → Option (J × J)
  unfolding list_as
  list_sensor s type l = do t ← type_after o s.type type; some (list_as s.type s t l)

  unfoldable pub list_sensors : List Sensor → Option J → J → Option J
  unfolding list_sensor
  list_sensors [] type l = some l
  list_sensors (s ∷ ss) type l = do r ← list_sensor s type l; list_sensors ss (some r.0) r.1

  unfoldable pub list_commands : List Action → J → J
  list_commands [] l = l
  list_commands (a ∷ rest) l = list_commands rest (o.array_add l (o.new_string a.nom))

  unfoldable pub process_type_initialise : Desk → Outcome Desk
  unfolding list_sensors list_commands
  process_type_initialise d = use_of (list_sensors d.config.sensors none o.new_array) (λ l.
      let config = o.object_add o.new_object (codes "sensors") l in
      let config' =
        o.object_add config (codes "commands") (list_commands d.config.actions o.new_array) in
      let configuration = o.object_add o.new_object (codes "type") (o.new_int (pos 2)) in
      done (
        add_effect (sends (o.to_json_string (o.object_add configuration (codes "message") config')))
          d))

  abbrev pub added : List J → J → J
  added [] l = l
  added (x ∷ xs) l = added xs (o.array_add l x)

  pub added-append : (xs ys : List J) (l : J) → added (xs ++ ys) l ≡ added ys (added xs l)
  added-append [] ys l = refl
  added-append (x ∷ xs) ys l = added-append xs ys (o.array_add l x)

  -- What the client is told of a sensor: nothing of a clock, and a second time a sensor of presence.
  abbrev pub shown_as : Sensor → Text → J
  unfolding sensor_object
  shown_as s type =
      sensor_object (o.new_string s.id) (o.new_string (shown_name s)) (o.new_string type)

  abbrev pub shown_of : TypeCapteur → Sensor → List J
  shown_of temperature s = shown_as s (codes "Temperature") ∷ []
  shown_of contact s = shown_as s (codes "Contact") ∷ []
  shown_of interrupteur s = shown_as s (codes "Interrupteur") ∷ []
  shown_of presence s = shown_as s (codes "Presence") ∷ shown_as s (codes "Luminosite") ∷ []
  shown_of horloge s = []

  abbrev pub shown : List Sensor → List J
  shown [] = []
  shown (s ∷ ss) = shown_of s.type s ++ shown ss

  list_as-shown :
      (c : TypeCapteur) (s : Sensor) (type : Option J) (l t : J)
      → type_after o c type ≡ some t
      → (t' : J) × ((type_after o c type >>= (λ u. some (list_as c s u l)))
          ≡ some (t', added (shown_of c s) l))
  unfolding list_as sensor_object
  list_as-shown temperature s type l t e = (_, refl)
  list_as-shown contact s type l t e = (_, refl)
  list_as-shown interrupteur s type l t e = (_, refl)
  list_as-shown presence s type l t e = (_, refl)
  list_as-shown horloge s type l t e = (t, rw e)

  type_after-some : (c : TypeCapteur) (type : J) → (t : J) × (type_after o c (some type) ≡ some t)
  type_after-some temperature type = (_, refl)
  type_after-some contact type = (_, refl)
  type_after-some interrupteur type = (_, refl)
  type_after-some presence type = (_, refl)
  type_after-some horloge type = (_, refl)

  -- The variable `type` has a value when the list begins.
  abbrev pub Begins : List Sensor → Option J → Type 0
  Begins [] type = Unit
  Begins (s ∷ ss) type = (t : J) × (type_after o s.type type ≡ some t)

  Begins-some : (ss : List Sensor) (type : J) → Begins ss (some type)
  Begins-some [] type = tt
  Begins-some (s ∷ ss) type = type_after-some s.type type

  list_sensors-shown :
      (ss : List Sensor) (type : Option J) (l : J)
      → Begins ss type
      → list_sensors ss type l ≡ some (added (shown ss) l)
  unfolding list_sensors list_sensor
  list_sensors-shown [] type l b = refl
  list_sensors-shown (s ∷ ss) type l b =
      let (t', e) = list_as-shown s.type s type l b.0 b.1 in
      rw (e, added-append (shown_of s.type s) (shown ss) l)
        (list_sensors-shown ss (some t') (added (shown_of s.type s) l) (Begins-some ss t'))

  abbrev pub command_objects : List Action → List J
  command_objects [] = []
  command_objects (a ∷ rest) = o.new_string a.nom ∷ command_objects rest

  list_commands-added :
      (xs : List Action) (l : J) → list_commands xs l ≡ added (command_objects xs) l
  unfolding list_commands
  list_commands-added [] l = refl
  list_commands-added (a ∷ rest) l = list_commands-added rest (o.array_add l (o.new_string a.nom))

  -- The message that tells a client everything.
  abbrev pub configuration_of : Desk → J
  configuration_of d =
      o.object_add (o.object_add o.new_object (codes "type") (o.new_int (pos 2))) (codes "message")
        (o.object_add
          (o.object_add o.new_object (codes "sensors") (added (shown d.config.sensors) o.new_array))
          (codes "commands") (added (command_objects d.config.actions) o.new_array))

  -- If the list of sensors does not begin with a clock, processTypeInitialise sends one message, with
  -- every sensor but the clocks in its order, each sensor of presence twice, and the names of all
  -- actions; nothing else changes.
  pub process_type_initialise-configuration_of :
      (d : Desk)
      → Begins d.config.sensors none
      → process_type_initialise d
        ≡ done (add_effect (sends (o.to_json_string (configuration_of d))) d)
  unfolding process_type_initialise
  process_type_initialise-configuration_of d b = rw (
    list_sensors-shown d.config.sensors none o.new_array b,
    list_commands-added d.config.actions o.new_array,
  )
