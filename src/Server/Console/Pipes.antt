-- ===== src/Server/Console/Pipes.antt =====
-- The pipes of the watched logs: at most one for each log, and none when the server has quit.
use cofi_ty_home.Common.{
  ℕ, ◌+◌, ◌≡◌, refl, Bool, true, false, List, [], ◌∷◌, arith, Text, if◌then◌else◌,
}
use cofi_ty_home.Server.Console.{
  Calls, Log, rules_log, sensors_log, Effect, opened, closed, cleaned, parsed, destroyed, Console,
  Step, goes, exits, add, Command, quit, reload, log_rules, log_sensors, stop_logs, clear,
  launch_time, stop_time, invalid, command_of, watch_log_rules, watch_log_sensors, stop_rules,
  stop_sensors, stop_watching_logs, start_timed_check, stop_timed_check, run_command, after,
  main_loop, main,
}

abbrev bit : Bool → ℕ
bit true = 1
bit false = 0

abbrev same_log : Log → Log → Bool
same_log rules_log rules_log = true
same_log sensors_log sensors_log = true
same_log _ _ = false

abbrev pub opens_of : Log → List Effect → ℕ
opens_of l [] = 0
opens_of l (opened m ∷ es) = bit (same_log l m) + opens_of l es
opens_of l (_ ∷ es) = opens_of l es

abbrev pub closes_of : Log → List Effect → ℕ
closes_of l [] = 0
closes_of l (closed m ∷ es) = bit (same_log l m) + closes_of l es
closes_of l (_ ∷ es) = closes_of l es

-- The pipes that are open are those that the flags remember.
pub record IsTracked (k : Console) : Type 0 where
  pub rules : opens_of rules_log k.effects ≡ closes_of rules_log k.effects + bit k.on_going_r
  pub sensors : opens_of sensors_log k.effects ≡ closes_of sensors_log k.effects + bit k.on_going_s

-- Every pipe that was opened has been closed.
pub record AllClosed (k : Console) : Type 0 where
  pub rules : opens_of rules_log k.effects ≡ closes_of rules_log k.effects
  pub sensors : opens_of sensors_log k.effects ≡ closes_of sensors_log k.effects

abbrev pub Going : (Console → Type 0) → Step → Type 0
Going P (goes k) = P k
Going P (exits k) = Unit

module _ (calls : Calls) where
  after-Going :
      (P Q : Console → Type 0) (s : Step) (f : Console → Step)
      → Going P s
      → ((k : Console) → P k → Going Q (f k))
      → Going Q (after calls s f)
  after-Going P Q (goes k) f p next = next k p
  after-Going P Q (exits k) f p next = tt

  Going-if :
      (P : Console → Type 0) (b : Bool) (r s : Step)
      → (b ≡ true → Going P r)
      → (b ≡ false → Going P s)
      → Going P (if b then r else s)
  Going-if P true r s p q = p refl
  Going-if P false r s p q = q refl

  watch_rules-IsTracked : (k : Console) → IsTracked k → Going IsTracked (watch_log_rules calls k)
  unfolding watch_log_rules
  watch_rules-IsTracked k t =
      let k' : Console = record k { on_going_r = true } in
      Going-if IsTracked k.on_going_r (goes k) _ (λ already. t)
        λ fresh.
          Going-if IsTracked (calls.popen k' rules_log) (goes (add (opened rules_log) k'))
            (exits k')
            (λ opens. record {
              rules = ground (arith, t.rules);
              sensors = ground (arith, t.sensors);
            })
            (λ fails. tt)

  watch_sensors-IsTracked :
      (k : Console) → IsTracked k → Going IsTracked (watch_log_sensors calls k)
  unfolding watch_log_sensors
  watch_sensors-IsTracked k t =
      let k' : Console = record k { on_going_s = true } in
      Going-if IsTracked k.on_going_s (goes k) _ (λ already. t)
        λ fresh.
          Going-if IsTracked (calls.popen k' sensors_log) (goes (add (opened sensors_log) k'))
            (exits k')
            (λ opens. record {
              rules = ground (arith, t.rules);
              sensors = ground (arith, t.sensors);
            })
            (λ fails. tt)

  stop-IsTracked : (k : Console) → IsTracked k → IsTracked (stop_watching_logs calls k)
  unfolding stop_watching_logs stop_rules stop_sensors
  stop-IsTracked k t = record {
    rules = ground (arith, t.rules);
    sensors = ground (arith, t.sensors);
  }

  stop-AllClosed :
      (k : Console) → IsTracked k → AllClosed (add destroyed (stop_watching_logs calls k))
  unfolding stop_watching_logs stop_rules stop_sensors
  stop-AllClosed k t = record {
    rules = ground (arith, t.rules);
    sensors = ground (arith, t.sensors);
  }

  run-IsTracked :
      (c : Command) (k : Console) → IsTracked k → Going IsTracked (run_command calls c k)
  unfolding run_command start_timed_check stop_timed_check
  run-IsTracked quit k t = record { rules = t.rules; sensors = t.sensors }
  run-IsTracked reload k t =
      let k' = add parsed (add cleaned k) in
      Going-if IsTracked (calls.parse_all k') (goes k') (exits k')
        (λ comes_back. record { rules = t.rules; sensors = t.sensors }) (λ wrong. tt)
  run-IsTracked log_rules k t = watch_rules-IsTracked k t
  run-IsTracked log_sensors k t = watch_sensors-IsTracked k t
  run-IsTracked stop_logs k t = stop-IsTracked k t
  run-IsTracked clear k t = record { rules = t.rules; sensors = t.sensors }
  run-IsTracked launch_time k t = record { rules = t.rules; sensors = t.sensors }
  run-IsTracked stop_time k t = record { rules = t.rules; sensors = t.sensors }
  run-IsTracked invalid k t = record { rules = t.rules; sensors = t.sensors }

  pub main_loop-IsTracked :
      (lines : List Text) (k : Console) → IsTracked k → Going IsTracked (main_loop calls lines k)
  unfolding main_loop
  main_loop-IsTracked [] k t = t
  main_loop-IsTracked (line ∷ lines) k t =
      after-Going IsTracked IsTracked (run_command calls (command_of line) k) _
        (run-IsTracked (command_of line) k t)
        λ k' t'.
          Going-if IsTracked k'.done (goes k') (main_loop calls lines k') (λ _. t')
            (λ _. main_loop-IsTracked lines k' t')

  -- If at the start the flags remember the open pipes, then whatever the operator types, each pipe to
  -- a log that was opened is closed when the server has quit, unless `popen` has failed or a reload
  -- has found a wrong file, which end the program at once.
  pub main-AllClosed :
      (lines : List Text) (k : Console) → IsTracked k → Going AllClosed (main calls lines k)
  unfolding main
  main-AllClosed lines k t =
      after-Going IsTracked AllClosed (main_loop calls lines k) _ (main_loop-IsTracked lines k t)
        λ k' t'. stop-AllClosed k' t'
