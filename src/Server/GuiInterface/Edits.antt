-- ===== src/Server/GuiInterface/Edits.antt =====
-- server/src/guiInterface.c: `processTypeEdits` and `processTypeEData`, the files of the configuration.
use cofi_ty_home.Common.{
  suc, Bool, Option, none, some, [], ◌∷◌, ◌++◌, ◌==◌, if◌then◌else◌, Text, codes, length,
}
use cofi_ty_home.Common.Int.{ℤ, pos, negsuc, eq_ℤ}
use cofi_ty_home.Server.Configuration.{Parse, reduced, ended, corrupted}
use cofi_ty_home.Server.Configuration.Files.{reparse_files}
use cofi_ty_home.Server.GuiInterface.Desk.{
  Json, sends, says, shell, writes, allocates, frees, frees_string, Desk, Outcome, done, exits,
  and_then, use_of, add_effect, Outside, undefined,
}

pub data FileType : Type 0 where
  f_rules f_actions f_actionneurs f_sensors : FileType

-- The values 1 to 4.
unfoldable pub file_type : ℤ → Option FileType
file_type (pos n) =
    if n == 1
    then some f_rules
    else if n == 2
    then some f_actions
    else if n == 3
    then some f_actionneurs
    else if n == 4
    then some f_sensors
    else none
file_type (negsuc n) = none

unfoldable pub file_number : FileType → ℤ
file_number f_rules = pos 1
file_number f_actions = pos 2
file_number f_actionneurs = pos 3
file_number f_sensors = pos 4

abbrev pub file_name : FileType → Text
file_name f_rules = codes "rules"
file_name f_actions = codes "actions"
file_name f_actionneurs = codes "actionneurs"
file_name f_sensors = codes "sensors"

abbrev pub conf_path : Text
conf_path = codes "server/config/"

abbrev pub temporary : Text
temporary = conf_path ++ codes "temporary"

abbrev pub target : FileType → Text
target f = conf_path ++ file_name f

-- The C string that a buffer begins with.
abbrev pub c_string : Text → Text
c_string [] = []
c_string (b ∷ t) = if b == 0 then [] else b ∷ c_string t

unfoldable pub move_command : FileType → Text
move_command f = codes "mv " ++ temporary ++ codes " " ++ target f

module _ {J : Type 0} (o : Json J) (w : Outside) where
  -- The text of the file, in memory that stays allocated.
  unfoldable pub read_whole_file : Text → Desk → Outcome (Text × Desk)
  read_whole_file name d = elim (w.fopen_read d name) [
    | none ↦ exits (add_effect (says (codes "ERROR: No File to open...")) d)
    | some content ↦
        if w.g_malloc d (suc (length content))
        then done (content, add_effect (allocates (suc (length content))) d)
        else exits d
  ]

  unfoldable pub write_whole_file : Text → Text → Desk → Outcome Desk
  write_whole_file name content d =
      if w.fopen_write d name
      then done (add_effect (writes name content) d)
      else exits (add_effect (says (codes "ERROR: While opening TMP file...")) d)

  -- For another number neither `name` nor `buffer` has a value.
  unfoldable pub process_type_edits : J → Desk → Outcome Desk
  unfolding file_type file_number read_whole_file
  process_type_edits type_id d = use_of (file_type (o.get_int type_id)) (λ f.
      and_then (read_whole_file (target f) d) (λ r.
        let response = o.object_add o.new_object (codes "type") (o.new_int (pos 12)) in
        let file_obj = o.object_add o.new_object (codes "name") (o.new_int (file_number f)) in
        let file_obj' = o.object_add file_obj (codes "file") (o.new_string (c_string r.0)) in
        let message = o.to_json_string (o.object_add response (codes "message") file_obj') in
        done (add_effect frees (add_effect (sends message) r.1))))

  abbrev pub replace_file : ℤ → Desk → Desk
  replace_file n d = elim (file_type n) [
    | none ↦ add_effect (says (codes "File: Unkown type")) d
    | some f ↦ add_effect (shell (move_command f)) d
  ]

  abbrev pub edata_response : ℤ → Text → J
  edata_response flag info =
      o.object_add (o.object_add o.new_object (codes "type") (o.new_int (pos 13))) (codes "message")
        (o.object_add (o.object_add o.new_object (codes "state") (o.new_int flag)) (codes "info")
          (o.new_string info))

  -- `TRUE`, `FALSE`.
  abbrev pub parsed_value : Bool → ℤ
  parsed_value b = if b then pos 1 else pos 0

  -- Behind the call of `reparseFiles`; `TRUE` is 1.
  unfoldable pub answer_edata : ℤ → ℤ → Text → Desk → Desk
  unfolding file_type move_command
  answer_edata flag n content d =
      if eq_ℤ flag (pos 1)
      then add_effect (frees_string content) (
          add_effect
            (sends (o.to_json_string (edata_response flag (codes "Configuration updated"))))
            (replace_file n d))
      else add_effect (frees_string content) (
          add_effect (sends (o.to_json_string (edata_response flag (codes "Invalid File!"))))
            (add_effect (shell (codes "cat " ++ temporary)) d))

  -- The result of `reparseFiles` is answered; `exit` and a crash are in it.
  abbrev pub after_reparse : ℤ → Text → Desk → Parse → Outcome Desk
  after_reparse n content d ended = exits d
  after_reparse n content d corrupted = undefined
  after_reparse n content d (reduced c) =
      done (answer_edata (parsed_value c.parsed_flag) n content (record d { config = c }))

  unfoldable pub process_type_edata : J → Desk → Outcome Desk
  unfolding write_whole_file
  process_type_edata file_obj d =
      let n = o.get_int (o.object_get file_obj (codes "name")) in
      use_of (o.get_string (o.object_get file_obj (codes "file"))) (λ content.
        and_then (write_whole_file temporary content d)
          (λ d1. after_reparse n content d1 (reparse_files (w.parser d1) n temporary d1.config)))
