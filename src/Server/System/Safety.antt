-- ===== src/Server/System/Safety.antt =====
-- What holds of the server in every order of its threads.
use cofi_ty_home.Common.{false, ℕ, zero, suc, List, [], ◌∷◌, Text, arith}
use cofi_ty_home.Common.Int.{ℤ}
use cofi_ty_home.Server.World.{World, Run, ok, exited}
use cofi_ty_home.Server.World
use cofi_ty_home.Server.Actuators.Effects.{IsSettled, Ends}
use cofi_ty_home.Server.Rules.Firing.{apply_rules-IsSettled}
use cofi_ty_home.Server.Sensors.{Conversion, decode_trame}
use cofi_ty_home.Server.Sensors.Decoding.{
  decode_trame-AllLoaded, decode_trame-length, decode_trame-clocks,
}
use cofi_ty_home.Server.Configuration.{Config, Parse, reduced, ended, corrupted}
use cofi_ty_home.Server.Configuration.Wiring.{IsWired, Yields, sensors-IsWired}
use cofi_ty_home.Server.Configuration.Reloading.{parse_file-IsWired}
use cofi_ty_home.Server.GuiInterface.Desk.{Json, Desk, Outcome, done, exits, Outside}
use cofi_ty_home.Server.GuiInterface.Dispatch.{process_command}
use cofi_ty_home.Server.GuiInterface.Effects.{Leaves, itself}
use cofi_ty_home.Server.GuiInterface.Rereading.{
  WiredDesk, SettledDesk, Completes, process_command-IsWired, process_command-IsSettled,
}
use cofi_ty_home.Server.GuiInterface.Desk
use cofi_ty_home.Server.System.{
  System, Status, running, stopped, crashed, Event, framed, alarmed, woken, commanded, cleaned,
  flagged, parsed, ◌then_run◌, after_run, after_command, after_parsing, house, try_checking_rules,
  handle, run, with_house, turned,
}

-- Every sensor whose type has been read has the decoder of its type and a value in its range; every
-- condition points into a sensor, or has a null pointer while one of the sensors is a clock; every
-- open pipe is remembered, no key is down and the keyboard is free.
abbrev pub IsSafe : System → Type 0
IsSafe s = IsWired s.desk.config × IsSettled s.desk.world

abbrev pub Stays : Status → Type 0
Stays (running s) = IsSafe s
Stays stopped = Unit
Stays crashed = Unit

Stays-then_run :
    (r : Status) (f : System → Status)
    → Stays r
    → ((s : System) → IsSafe s → Stays (f s))
    → Stays (r then_run f)
Stays-then_run (running s) f h k = k s h
Stays-then_run stopped f h k = tt
Stays-then_run crashed f h k = tt

decode_trame-IsWired :
    (conv : Conversion) (trame : Text) (s : System)
    → IsWired s.desk.config
    → IsWired (with_house (decode_trame conv trame (house s)) s).desk.config
decode_trame-IsWired conv trame s w =
    sensors-IsWired s.desk.config (decode_trame conv trame (house s)).sensors w
      (decode_trame-AllLoaded conv trame (house s) w.0)
      (omega (arith, decode_trame-length conv trame (house s)))
      (omega (arith, decode_trame-clocks conv trame (house s)))

module _ {J : Type 0} (o : Json J) (out : Outside) (conv : Conversion) where
  try_checking_rules-Stays :
      (now : ℤ) (s : System) → IsSafe s → Stays (try_checking_rules o out conv now s)
  unfolding try_checking_rules
  try_checking_rules-Stays now s (w, h) = go s.check_rules
    where
      ran :
          (n : ℕ) (r : Run) → Ends IsSettled r → Stays (after_run (record s { check_rules = n }) r)
      ran n (ok v) k = (w, k)
      ran n (exited v) k = tt
      ran n World.undefined k = tt

      go : (n : ℕ) → Stays (turned o out conv now s n)
      go zero = (w, h)
      go (suc n) = ran n _ (
          apply_rules-IsSettled out.env s.desk.config.sensors now s.desk.config.rules s.desk.world
            h)

  handle-Stays : (e : Event) (s : System) → IsSafe s → Stays (handle o out conv e s)
  unfolding handle
  handle-Stays (framed trame) s (w, h) = (decode_trame-IsWired conv trame s w, h)
  handle-Stays alarmed s h = h
  handle-Stays (woken now) s h = try_checking_rules-Stays now s h
  handle-Stays (commanded text) s (w, h) =
      go (process_command o out text s.desk) (process_command-IsWired o out text s.desk w)
        (process_command-IsSettled o out text s.desk h)
    where
      go :
          (r : Outcome Desk)
          → Leaves itself WiredDesk r
          → Completes SettledDesk r
          → Stays (after_command s r)
      go (done d) k l = (k, l)
      go (exits d) k l = tt
      go Desk.undefined k l = tt
  handle-Stays cleaned s (w, h) = ((tt, tt), h)
  handle-Stays flagged s h = h
  handle-Stays (parsed file) s (w, h) =
      go _ (parse_file-IsWired (out.parser s.desk) file s.desk.config w)
    where
      go : (r : Parse) → Yields IsWired r → Stays (after_parsing s r)
      go (reduced c) k = (k, h)
      go ended k = tt
      go corrupted k = tt

  -- Whatever happens, in whatever order: if every sensor whose type has been read has the
  -- decoder of its type and a value in its range, every condition points into
  -- a sensor, or has a null pointer while one of the sensors is a clock, every open pipe is
  -- remembered, no key is down and the keyboard is free, then all this
  -- holds behind any frames, alarms, turns of the rules,
  -- commands and reloads, file by file, as long as the server runs.
  pub run-Stays : (es : List Event) (s : System) → IsSafe s → Stays (run o out conv es s)
  unfolding run
  run-Stays [] s h = h
  run-Stays (e ∷ es) s h =
      Stays-then_run (handle o out conv e s) (run o out conv es) (handle-Stays e s h) (run-Stays es)

-- The server behind `parseAll`: no process has been started, and nobody has sent anything.
abbrev pub started_with : Config → System
started_with c = record {
  desk = record {
    config = c;
    world = record { events = []; on_going = false; on_going_jeu = false };
    effects = [];
  };
  log = [];
  check_rules = 0;
}
