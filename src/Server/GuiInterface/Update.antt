-- ===== src/Server/GuiInterface/Update.antt =====
-- server/src/guiInterface.c: `processTypeUpdate`, the values of the sensors that a client asks for.
use cofi_ty_home.Common.{
  ℕ, zero, suc, ◌≡◌, ◌≢◌, refl, sym, ◌∙◌, ap, Option, none, some, ◌>>=◌, List, [], ◌∷◌, ◌++◌, Text,
  codes, length,
}
use cofi_ty_home.Common.Int.{pos}
use cofi_ty_home.Server.Sensors.{
  Sensor, TypeCapteur, temperature, contact, interrupteur, presence, horloge, get_sensor,
}
use cofi_ty_home.Server.GuiInterface.Desk.{
  Json, Effect, sends, says, Desk, Outcome, done, undefined, use_of, add_effect, type_after,
  type_name,
}
use cofi_ty_home.Server.GuiInterface.Initialise.{added, added-append}

-- The variables `type` and `message` of the loop, and the lines that it has printed, the newest first.
pub record Answers (J : Type 0) : Type 0 where
  pub type : Option J
  pub message : J
  pub lines : List Effect

module _ {J : Type 0} (o : Json J) where
  unfoldable pub data_object : J → J → J → J
  data_object id value type =
      o.object_add (o.object_add (o.object_add o.new_object (codes "id") id) (codes "value") value)
        (codes "type") type

  -- The line of the `default` of the `switch`.
  abbrev pub lines_after : TypeCapteur → List Effect → List Effect
  lines_after c ls = elim (type_name c) [
    | none ↦ says (codes "Sensor: Unkown type") ∷ ls
    | some n ↦ ls
  ]

  -- The objects of a sensor, for the pointer `type`; `type` behind them. Both kinds of data begin with
  -- the value that is sent first.
  unfoldable pub answer_as : TypeCapteur → Sensor → J → J → List Effect → J → Answers J
  unfolding data_object
  answer_as presence s tmp message ls t =
      let lum = o.new_string (codes "Luminosite") in
      record {
        type = some lum;
        message =
            o.array_add (o.array_add message (data_object tmp (o.new_int s.first) t))
              (data_object tmp (o.new_int s.second) lum);
        lines = ls;
      }
  answer_as _ s tmp message ls t = record {
    type = some t;
    message = o.array_add message (data_object tmp (o.new_int s.first) t);
    lines = ls;
  }

  -- One round: `tmp` is the object of the id. A null text, a sensor that is not found, and a `type`
  -- without a value are used as pointers.
  unfoldable pub answer_one : List Sensor → J → Answers J → Option (Answers J)
  unfolding answer_as
  answer_one sensors tmp r = do
    id ← o.get_string tmp
    current ← get_sensor sensors id
    t ← type_after o current.type r.type
    some (answer_as current.type current tmp r.message (lines_after current.type r.lines) t)

  -- The rounds that are left, from index `i`.
  unfoldable pub answer_from : List Sensor → J → ℕ → ℕ → Answers J → Option (Answers J)
  unfolding answer_one
  answer_from sensors update zero i r = some r
  answer_from sensors update (suc left) i r = do
    r' ← answer_one sensors (o.array_get_idx update i) r
    answer_from sensors update left (suc i) r'

  unfoldable pub process_type_update : J → Desk → Outcome Desk
  unfolding answer_from
  process_type_update update d =
      let none_yet : Answers J = record { type = none; message = o.new_array; lines = d.effects } in
      use_of (answer_from d.config.sensors update (o.array_length update) 0 none_yet) (λ r.
        let response = o.object_add o.new_object (codes "type") (o.new_int (pos 5)) in
        let response' = o.object_add response (codes "message") r.message in
        done (record d { effects = sends (o.to_json_string response') ∷ r.lines }))

  -- The client asks for sensors that are known and are no clocks, from index `i`.
  abbrev pub Asks : List Sensor → J → ℕ → List Sensor → Type 0
  Asks sensors update i [] = Unit
  Asks sensors update i (s ∷ ss) =
      ((id : Text) × (o.get_string (o.array_get_idx update i) ≡ some id)
        × (get_sensor sensors id ≡ some s)
        × (type_name s.type ≢ none))
      × Asks sensors update (suc i) ss

  -- What is told of a sensor: a sensor of presence comes twice.
  abbrev pub told_of : TypeCapteur → Sensor → J → List J
  unfolding data_object
  told_of temperature s tmp =
      data_object tmp (o.new_int s.first) (o.new_string (codes "Temperature")) ∷ []
  told_of contact s tmp = data_object tmp (o.new_int s.first) (o.new_string (codes "Contact")) ∷ []
  told_of interrupteur s tmp =
      data_object tmp (o.new_int s.first) (o.new_string (codes "Interrupteur")) ∷ []
  told_of presence s tmp =
      data_object tmp (o.new_int s.first) (o.new_string (codes "Presence"))
      ∷ data_object tmp (o.new_int s.second) (o.new_string (codes "Luminosite"))
      ∷ []
  told_of horloge s tmp = []

  abbrev pub told : J → ℕ → List Sensor → List J
  told update i [] = []
  told update i (s ∷ ss) = told_of s.type s (o.array_get_idx update i) ++ told update (suc i) ss

  answer_as-told :
      (c : TypeCapteur) (s : Sensor) (tmp message : J) (type : Option J) (ls : List Effect)
      → type_name c ≢ none
      → (r : Answers J) × ((type_after o c type
            >>= (λ t. some (answer_as c s tmp message (lines_after c ls) t)))
          ≡ some r)
        × (r.message ≡ added o (told_of c s tmp) message)
        × (r.lines ≡ ls)
  unfolding answer_as data_object
  answer_as-told temperature s tmp message type ls h = (_, refl, refl, refl)
  answer_as-told contact s tmp message type ls h = (_, refl, refl, refl)
  answer_as-told interrupteur s tmp message type ls h = (_, refl, refl, refl)
  answer_as-told presence s tmp message type ls h = (_, refl, refl, refl)
  answer_as-told horloge s tmp message type ls h = absurd (h refl)

  answer_one-told :
      (sensors : List Sensor) (s : Sensor) (tmp : J) (id : Text) (r : Answers J)
      → o.get_string tmp ≡ some id
      → get_sensor sensors id ≡ some s
      → type_name s.type ≢ none
      → (r' : Answers J) × (answer_one sensors tmp r ≡ some r')
        × (r'.message ≡ added o (told_of s.type s tmp) r.message)
        × (r'.lines ≡ r.lines)
  unfolding answer_one
  answer_one-told sensors s tmp id r text found known =
      rw (text, found) (answer_as-told s.type s tmp r.message r.type r.lines known)

  answer_from-told :
      (sensors : List Sensor) (update : J) (i : ℕ) (ss : List Sensor) (r : Answers J)
      → Asks sensors update i ss
      → (r' : Answers J) × (answer_from sensors update (length ss) i r ≡ some r')
        × (r'.message ≡ added o (told update i ss) r.message)
        × (r'.lines ≡ r.lines)
  unfolding answer_from
  answer_from-told sensors update i [] r a = (r, refl, refl, refl)
  answer_from-told sensors update i (s ∷ ss) r a =
      let tmp = o.array_get_idx update i in
      let (id, text, found, known) = a.0 in
      let (r1, e1, m1, l1) = answer_one-told sensors s tmp id r text found known in
      let (r2, e2, m2, l2) = answer_from-told sensors update (suc i) ss r1 a.1 in
      (
        r2,
        rw e1 e2,
        m2
            ∙ ap (added o (told update (suc i) ss)) m1
            ∙ sym (added-append o (told_of s.type s tmp) (told update (suc i) ss) r.message),
        l2 ∙ l1,
      )

  -- If the message is an array of the ids or names of sensors that are no clocks, then
  -- processTypeUpdate sends one message, with the values of these sensors in the order asked, a sensor
  -- of presence twice; nothing else changes.
  pub process_type_update-told :
      (update : J) (d : Desk) (ss : List Sensor)
      → o.array_length update ≡ length ss
      → Asks d.config.sensors update 0 ss
      → process_type_update update d
        ≡ done (
            add_effect
              (sends (
                o.to_json_string (
                  o.object_add
                    (o.object_add o.new_object (codes "type") (o.new_int (pos 5)))
                    (codes "message")
                    (added o (told update 0 ss) o.new_array))))
              d)
  unfolding process_type_update
  process_type_update-told update d ss len a =
      let (r, e, m, l) =
        answer_from-told d.config.sensors update 0 ss
          (record { type = none; message = o.new_array; lines = d.effects }) a in
      rw (len, e, m, l)

  -- If the first id that is asked for is that of no sensor, processTypeUpdate uses a null pointer.
  pub process_type_update-unknown :
      (update : J) (d : Desk) (id : Text) (n : ℕ)
      → o.array_length update ≡ suc n
      → o.get_string (o.array_get_idx update 0) ≡ some id
      → get_sensor d.config.sensors id ≡ none
      → process_type_update update d ≡ undefined
  unfolding process_type_update answer_from answer_one
  process_type_update-unknown update d id n len text unknown = rw (len, text, unknown)
