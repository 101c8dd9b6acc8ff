-- ===== src/Server/GuiInterface/Dispatch.antt =====
-- server/src/guiInterface.c: `processCommand`, which calls the function for the type of a command.
use cofi_ty_home.Common.{Option, none, some, ◌==◌, if◌then◌else◌, Text, codes}
use cofi_ty_home.Common.Int.{ℤ, pos, negsuc}
use cofi_ty_home.Server.World.{World, Env, Run, ok, exited}
use cofi_ty_home.Server.World
use cofi_ty_home.Server.Actions.{apply_action_by_name}
use cofi_ty_home.Server.GuiInterface.Desk.{
  Json, says, Desk, Outcome, done, exits, undefined, use_of, add_effect, Outside,
}
use cofi_ty_home.Server.GuiInterface.Initialise.{process_type_initialise}
use cofi_ty_home.Server.GuiInterface.Update.{process_type_update}
use cofi_ty_home.Server.GuiInterface.History.{process_type_history}
use cofi_ty_home.Server.GuiInterface.Edits.{process_type_edits, process_type_edata}

pub data MsgType : Type 0 where
  initialise configuration command update data_msg close history hdata logs_msg ldata edits edata :
      MsgType

-- The values from 1 to 12; 13 has no case in the `switch`.
unfoldable pub msg_type : ℤ → Option MsgType
msg_type (negsuc n) = none
msg_type (pos n) =
    if n == 1
    then some initialise
    else if n == 2
    then some configuration
    else if n == 3
    then some command
    else if n == 4
    then some update
    else if n == 5
    then some data_msg
    else if n == 6
    then some close
    else if n == 7
    then some history
    else if n == 8
    then some hdata
    else if n == 9
    then some logs_msg
    else if n == 10
    then some ldata
    else if n == 11
    then some edits
    else if n == 12
    then some edata
    else none

abbrev pub saying : Text → Desk → Desk
saying t d = add_effect (says t) d

module _ {J : Type 0} (o : Json J) (w : Outside) where
  abbrev pub with_world : Desk → Run → Outcome Desk
  with_world d (ok v) = done (record d { world = v })
  with_world d (exited v) = exits (record d { world = v })
  with_world d World.undefined = undefined

  unfoldable pub process_type_command : J → Desk → Outcome Desk
  process_type_command c d =
      use_of (o.get_string c)
        (λ nom. with_world d (apply_action_by_name w.env d.config.actions nom d.world))

  unfoldable pub process_type_close : Desk → Desk
  process_type_close d = saying (codes "Close detected!") d

  unfoldable pub process_as : Option MsgType → J → Desk → Outcome Desk
  unfolding process_type_command process_type_close
  process_as (some initialise) m d =
      process_type_initialise o (saying (codes "Initialisation detected") d)
  process_as (some configuration) m d = done (saying (codes "Type Configuration Error") d)
  process_as (some command) m d = process_type_command m (saying (codes "Command detected") d)
  process_as (some update) m d = process_type_update o m d
  process_as (some data_msg) m d = done (saying (codes "type Data Error") d)
  process_as (some close) m d = done (process_type_close (saying (codes "Close detected") d))
  process_as (some history) m d = process_type_history o w m (saying (codes "History detected") d)
  process_as (some hdata) m d = done (saying (codes "type HDataerror") d)
  process_as (some logs_msg) m d = done (saying (codes "type Logs detected") d)
  process_as (some ldata) m d = done (saying (codes "type LData Error") d)
  process_as (some edits) m d = process_type_edits o w m (saying (codes "type EDITS detected") d)
  process_as (some edata) m d = process_type_edata o w m (saying (codes "type EData detected") d)
  process_as none m d = done (saying (codes "Command: Unknown Type") d)

  unfoldable pub process_command : Text → Desk → Outcome Desk
  unfolding msg_type process_as
  process_command text d =
      let c = o.parse text in
      process_as (msg_type (o.get_int (o.object_get c (codes "type"))))
        (o.object_get c (codes "message")) d
