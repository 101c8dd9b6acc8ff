-- ===== src/Server/GuiInterface/History.antt =====
-- server/src/guiInterface.c: `processTypeHistory`, the last lines of the log about a sensor.
-- `strtok` is written after the C standard.
use cofi_ty_home.Common.{
  suc, ◌-◌, Option, none, some, ◌>>=◌, List, [], ◌∷◌, ◌++◌, ◌==◌, ltb, if◌then◌else◌, Text, codes,
  str_eq, length, take,
}
use cofi_ty_home.Common.Int.{pos}
use cofi_ty_home.Common.Printing.{decimal}
use cofi_ty_home.Server.Sensors.{Sensor, TypeCapteur, presence, get_sensor}
use cofi_ty_home.Server.GuiInterface.Desk.{
  Json, sends, allocates, Desk, Outcome, done, undefined, use_of, add_effect, Outside, type_name,
}

-- The characters up to the next space and those behind it.
abbrev pub first_word : Text → Text × Text
first_word [] = ([], [])
first_word (b ∷ t) = let r = first_word t in if b == 32 then ([], t) else (b ∷ r.0, r.1)

-- `strtok (…, " ")`, for the line and what follows in it.
unfoldable pub next_token : Text → Option (Text × Text)
next_token [] = none
next_token (b ∷ t) = let r = next_token t in if b == 32 then r else some (first_word (b ∷ t))

-- The four tokens of a line. That of the value is cut before it is tested, so it must be there, and
-- the others are there then.
unfoldable pub four_tokens : Text → Option (Text × (Text × (Text × Text)))
unfolding next_token
four_tokens line = do
  a ← next_token line
  b ← next_token a.1
  c ← next_token b.1
  v ← next_token c.1
  some (a.0, (b.0, (c.0, take (length v.0 - 1) v.0)))

module _ {J : Type 0} (o : Json J) (w : Outside) where
  -- The text of the type of a line.
  unfoldable pub history_type : TypeCapteur → Text → Option Text
  history_type presence token_type =
      if str_eq token_type (codes "luminosite")
      then some (codes "Luminosite")
      else some (codes "Presence")
  history_type c token_type = type_name c

  abbrev pub typed : Option Text → J
  typed none = o.new_object
  typed (some n) = o.object_add o.new_object (codes "type") (o.new_string n)

  unfoldable pub history_line : List Sensor → Text → Option J
  unfolding four_tokens history_type
  history_line sensors line = do
    r ← four_tokens line
    current ← get_sensor sensors r.1.0
    let log = typed (history_type current.type r.1.1.0)
    some (
        o.object_add (o.object_add log (codes "value") (o.new_string r.1.1.1)) (codes "timestamp")
          (o.new_string r.0))

  unfoldable pub history_lines : List Sensor → List Text → J → Option J
  unfolding history_line
  history_lines sensors [] message = some message
  history_lines sensors (line ∷ lines) message = do
    log ← history_line sensors line
    history_lines sensors lines (o.array_add message log)

  unfoldable pub history_command : Text → Text → Text
  history_command id nb =
      codes "grep -i " ++ id ++ codes " " ++ w.name_log_sensors ++ codes " | tail -n " ++ nb

  -- `idStr` has 9 bytes, `nbStr` has 10.
  unfoldable pub process_type_history : J → Desk → Outcome Desk
  unfolding decimal history_command history_lines
  process_type_history history d = use_of (o.get_string (o.object_get history (codes "id"))) (λ id.
      let nb = decimal (o.get_int (o.object_get history (codes "rollback"))) in
      let command = history_command id nb in
      let n = suc (length command) in
      let d1 = add_effect (allocates n) d in
      let found = (do
        lines ← w.popen_read d1 command
        history_lines d.config.sensors lines o.new_array) in
      if ltb 8 (length id)
      then undefined
      else if ltb 9 (length nb)
      then undefined
      else if w.g_malloc d n
      then use_of found (λ message.
        let response = o.object_add o.new_object (codes "type") (o.new_int (pos 8)) in
        done (
          add_effect (sends (o.to_json_string (o.object_add response (codes "message") message)))
            d1))
      else undefined)
