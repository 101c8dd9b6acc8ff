-- ===== src/Server/System.antt =====
-- server/src: the threads of the server over what they share. initCheckRules.c, timedCheck.c, and the
-- calls of sensorsNetwork.c, guiNetwork.c and main.c that lead into the parts.
pub mod Safety
pub mod Reacting
use cofi_ty_home.Common.{
  ℕ, zero, suc, Bool, true, false, Option, none, some, List, [], ◌∷◌, if◌then◌else◌, Text,
}
use cofi_ty_home.Common.Int.{ℤ}
use cofi_ty_home.Server.World.{World, Run, ok, exited, undefined}
use cofi_ty_home.Server.World
use cofi_ty_home.Server.Sensors.{LogValue, Conversion, House, decode_trame}
use cofi_ty_home.Server.Rules.{apply_rules}
use cofi_ty_home.Server.Configuration.{Config, Parse, reduced, ended, corrupted}
use cofi_ty_home.Server.Configuration.Files.{emptied, parse_file}
use cofi_ty_home.Server.GuiInterface.Desk.{Json, Desk, Outcome, done, exits, Outside}
use cofi_ty_home.Server.GuiInterface.Desk
use cofi_ty_home.Server.GuiInterface.Dispatch.{process_command}

-- The configuration and what the actuators and the clients have been told; the log of the sensors'
-- values, the newest first; the coins of `checkRules`.
pub record System : Type 0 where
  pub desk : Desk
  pub log : List LogValue
  pub check_rules : ℕ

-- The server runs, or has ended, or has used a pointer that is null or has no value.
pub data Status : Type 0 where
  running : System → Status
  stopped : Status
  crashed : Status

-- What happens next, in any order: a frame for the sensors, the alarm of the timer, a turn of the
-- thread of the rules at a time, a command of a client; and the pieces of a reload, between which
-- the other threads run: `cleanMemory`, the flag of the parser, one file.
pub data Event : Type 0 where
  framed : Text → Event
  alarmed : Event
  woken : ℤ → Event
  commanded : Text → Event
  cleaned flagged : Event
  parsed : Text → Event

infixl 5 ◌then_run◌
abbrev pub ◌then_run◌ : Status → (System → Status) → Status
running s then_run f = f s
stopped then_run f = stopped
crashed then_run f = crashed

abbrev pub with_config : Config → System → System
with_config c s = record s { desk = record s.desk { config = c } }

abbrev pub house : System → House
house s = record { sensors = s.desk.config.sensors; log = s.log; check_rules = s.check_rules }

abbrev pub with_house : House → System → System
with_house h s = record {
  desk = record s.desk { config = record s.desk.config { sensors = h.sensors } };
  log = h.log;
  check_rules = h.check_rules;
}

-- `catchedAlarm`, which sets the alarm again.
abbrev pub catched_alarm : System → System
catched_alarm s = record s { check_rules = suc s.check_rules }

abbrev pub after_run : System → Run → Status
after_run s (ok w) = running (record s { desk = record s.desk { world = w } })
after_run s (exited w) = stopped
after_run s World.undefined = crashed

abbrev pub after_command : System → Outcome Desk → Status
after_command s (done d) = running (record s { desk = d })
after_command s (exits d) = stopped
after_command s Desk.undefined = crashed

abbrev pub after_parsing : System → Parse → Status
after_parsing s (reduced c) = running (with_config c s)
after_parsing s ended = stopped
after_parsing s corrupted = crashed

module _ {J : Type 0} (o : Json J) (out : Outside) (conv : Conversion) where
  -- One round of the loop, over the coins: `sem_wait` waits for one, and `applyRules` is called.
  abbrev pub turned : ℤ → System → ℕ → Status
  turned now s zero = running s
  turned now s (suc n) =
      after_run (record s { check_rules = n })
        (apply_rules out.env s.desk.config.sensors now s.desk.config.rules s.desk.world)

  unfoldable pub try_checking_rules : ℤ → System → Status
  try_checking_rules now s = turned now s s.check_rules

  unfoldable pub handle : Event → System → Status
  unfolding try_checking_rules
  handle (framed trame) s = running (with_house (decode_trame conv trame (house s)) s)
  handle alarmed s = running (catched_alarm s)
  handle (woken now) s = try_checking_rules now s
  handle (commanded text) s = after_command s (process_command o out text s.desk)
  handle cleaned s = running (with_config (emptied s.desk.config) s)
  handle flagged s = running (with_config (record s.desk.config { parsed_flag = true }) s)
  handle (parsed file) s = after_parsing s (parse_file (out.parser s.desk) file s.desk.config)

  unfoldable pub run : List Event → System → Status
  unfolding handle
  run [] s = running s
  run (e ∷ es) s = handle e s then_run run es
