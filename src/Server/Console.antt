-- ===== src/Server/Console.antt =====
-- server/src/main.c, logWatch.c, timedCheck.c: the commands that the operator types.
-- `popen`, and the rest of the server that `cleanMemory`, `parseAll` and `destroy` reach, are outside.
pub mod Pipes
pub mod Polling
use cofi_ty_home.Common.{
  ℕ, ◌≡◌, Bool, true, false, ◌||◌, Option, none, some, List, [], ◌∷◌, ◌++◌, ◌==◌, if◌then◌else◌,
  Text, codes, str_eq,
}

pub data Log : Type 0 where
  rules_log sensors_log : Log

pub data Effect : Type 0 where
  -- `popen`, `pclose`
  opened closed : Log → Effect
  -- `system`, `puts`
  shell says : Text → Effect
  -- `cleanMemory`, `parseAll`, `destroy`
  cleaned parsed destroyed : Effect
  -- `signal (SIGALRM, …)` to one of the two handlers, `alarm`
  catches_alarm ignores_alarm : Effect
  alarm : ℕ → Effect

-- `done`, `onGoingR`, `onGoingS`, `sleepTime`, and what has happened, the newest first.
pub record Console : Type 0 where
  pub effects : List Effect
  pub done : Bool
  pub on_going_r : Bool
  pub on_going_s : Bool
  pub sleep_time : ℕ

abbrev usage : List Text
usage =
    codes "Commande invalide\nUsage:"
    ∷ codes "  exit, quit, q"
    ∷ codes "  logR, logRules, lr"
    ∷ codes "  logS, logSensors, ls"
    ∷ codes "  stopL, stopLogs, sl"
    ∷ codes "  clean, clear, cl"
    ∷ codes "  launchT launchTime lt"
    ∷ codes "  stopT stopTime st"
    ∷ []

-- The program goes on, or has called `exit`.
pub data Step : Type 0 where
  goes exits : Console → Step

abbrev pub add : Effect → Console → Console
add e k = record k { effects = e ∷ k.effects }

abbrev says_all : List Text → Console → Console
says_all [] k = k
says_all (t ∷ ts) k = says_all ts (add (says t) k)

pub data Command : Type 0 where
  quit reload log_rules log_sensors stop_logs clear launch_time stop_time invalid : Command

abbrev one_of : Text → Text → Text → Text → Bool
one_of line a b c = str_eq line a || str_eq line b || str_eq line c

unfoldable pub command_of : Text → Command
command_of line =
    if one_of line (codes "exit\n") (codes "quit\n") (codes "q\n")
    then quit
    else if one_of line (codes "reload\n") (codes "update\n") (codes "u\n")
    then reload
    else if one_of line (codes "logR\n") (codes "logRules\n") (codes "lr\n")
    then log_rules
    else if one_of line (codes "logS\n") (codes "logSensors\n") (codes "ls\n")
    then log_sensors
    else if one_of line (codes "stopL\n") (codes "stopLogs\n") (codes "sl\n")
    then stop_logs
    else if one_of line (codes "clean\n") (codes "clear\n") (codes "cl\n")
    then clear
    else if one_of line (codes "launchT\n") (codes "launchTime\n") (codes "lt\n")
    then launch_time
    else if one_of line (codes "stopT\n") (codes "stopTime\n") (codes "st\n")
    then stop_time
    else invalid

-- Whether `popen` gives a pipe, and whether `parseAll` comes back: it calls `exit (-1)` when a file is
-- wrong.
pub record Calls : Type 0 where
  pub popen : Console → Log → Bool
  pub parse_all : Console → Bool

module _ (calls : Calls) where
  unfoldable pub watch_log_rules : Console → Step
  watch_log_rules k =
      let k' : Console = record k { on_going_r = true } in
      if k.on_going_r
      then goes k
      else if calls.popen k' rules_log
      then goes (add (opened rules_log) k')
      else exits k'

  unfoldable pub watch_log_sensors : Console → Step
  watch_log_sensors k =
      let k' : Console = record k { on_going_s = true } in
      if k.on_going_s
      then goes k
      else if calls.popen k' sensors_log
      then goes (add (opened sensors_log) k')
      else exits k'

  unfoldable pub stop_rules : Console → Console
  stop_rules k =
      if k.on_going_r then record (add (closed rules_log) k) { on_going_r = false } else k

  unfoldable pub stop_sensors : Console → Console
  stop_sensors k =
      if k.on_going_s then record (add (closed sensors_log) k) { on_going_s = false } else k

  unfoldable pub stop_watching_logs : Console → Console
  unfolding stop_rules stop_sensors
  stop_watching_logs k = stop_sensors (stop_rules (add (shell (codes "killall -q tail")) k))

  unfoldable pub start_timed_check : ℕ → Console → Console
  start_timed_check nb_sec k = record (add (alarm nb_sec) (add catches_alarm k)) {
    sleep_time = nb_sec;
  }

  unfoldable pub stop_timed_check : Console → Console
  stop_timed_check k = add ignores_alarm k

  unfoldable pub run_command : Command → Console → Step
  unfolding watch_log_rules watch_log_sensors stop_watching_logs start_timed_check stop_timed_check
  run_command quit k = goes (add (says (codes "Quiting server!")) (record k { done = true }))
  run_command reload k =
      let k' = add parsed (add cleaned k) in if calls.parse_all k' then goes k' else exits k'
  run_command log_rules k = watch_log_rules k
  run_command log_sensors k = watch_log_sensors k
  run_command stop_logs k = goes (stop_watching_logs k)
  run_command clear k = goes (add (shell (codes "clear")) k)
  run_command launch_time k = goes (add (says (codes "Timer Started")) (start_timed_check 60 k))
  run_command stop_time k = goes (add (says (codes "Timer Stopped")) (stop_timed_check k))
  run_command invalid k = goes (says_all usage k)

  abbrev pub after : Step → (Console → Step) → Step
  after (goes k) f = f k
  after (exits k) f = exits k

  -- The loop, over the lines that have been typed.
  unfoldable pub main_loop : List Text → Console → Step
  unfolding command_of run_command
  main_loop [] k = goes k
  main_loop (line ∷ lines) k =
      after (run_command (command_of line) k)
        (λ k'. if k'.done then goes k' else main_loop lines k')

  -- `main`, from the loop on.
  unfoldable pub main : List Text → Console → Step
  unfolding main_loop stop_watching_logs
  main lines k = after (main_loop lines k) (λ k'. goes (add destroyed (stop_watching_logs k')))
