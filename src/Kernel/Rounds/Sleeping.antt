-- ===== src/Kernel/Rounds/Sleeping.antt =====
-- kernel/ordo3.0/scheduler.c: `sleep` gives the processor to the next thread.
use cofi_ty_home.Common.{ℕ, ◌<◌, ◌≡◌, ◌∙◌, some, List, ◌∷◌, ◌++◌, length}
use cofi_ty_home.Kernel.Threads.{Kern}
use cofi_ty_home.Kernel.Threads.Sleep.{fall_asleep}
use cofi_ty_home.Kernel.Threads.Sleep.Chaining.{IsAgenda, fall_asleep-IsAgenda}
use cofi_ty_home.Kernel.Queues.{Mail, enter}
use cofi_ty_home.Kernel.Rounds.{scheduler, sleep, reset}
use cofi_ty_home.Kernel.Rounds.Turns.{NoneKilled, scheduler-alive}

switched-IsAgenda :
    (k : Kern) (t : ℕ) (ts ws : List ℕ)
    → IsAgenda k (t ∷ ts) ws
    → IsAgenda (reset (enter k)) (t ∷ ts) ws
switched-IsAgenda k t ts ws a = record {
  runs = a.runs;
  linked = a.linked;
  apart = a.apart;
  distinct = a.distinct;
  sorted = a.sorted;
}

sleep-scheduler :
    (fuel now seconds wait_mq : ℕ) (m : Mail) (k : Kern)
    → fall_asleep fuel now seconds m.kern ≡ some k
    → sleep fuel now seconds wait_mq m ≡ scheduler wait_mq (record m { kern = k })
unfolding sleep
sleep-scheduler fuel now seconds wait_mq m k e = rw e

-- With two active threads or more, none of them killed, and fuel for the sleeping ones, sleep suspends
-- the current thread: the next one becomes current, and the sleeping threads stay in the order of their
-- times, with the current one among them; nobody is killed by it.
pub sleep-IsAgenda :
    (m : Mail) (t u : ℕ) (ts ws : List ℕ) (fuel now seconds wait_mq : ℕ)
    → IsAgenda m.kern (t ∷ u ∷ ts) ws
    → NoneKilled m.kern
    → length ws < fuel
    → (m' : Mail) × (before : List ℕ) × (after : List ℕ) × (sleep fuel now seconds wait_mq m
        ≡ some m')
      × (ws ≡ before ++ after)
      × IsAgenda m'.kern (u ∷ ts) (before ++ t ∷ after)
      × NoneKilled m'.kern
sleep-IsAgenda m t u ts ws fuel now seconds wait_mq a alive enough =
    let (k, before, after, run, split, agenda, flags) =
      fall_asleep-IsAgenda m.kern t u ts ws fuel now seconds a enough in
    let still : NoneKilled k = λ y. flags y ∙ alive y in
    (
      record m { kern = reset (enter k) },
      before,
      after,
      sleep-scheduler fuel now seconds wait_mq m k run
          ∙ scheduler-alive wait_mq (record m { kern = k }) (still k.current_thread),
      split,
      switched-IsAgenda k u ts (before ++ t ∷ after) agenda,
      still,
    )
