-- ===== src/Kernel/RoundExamples.antt =====
-- Two threads that run and one that sleeps.
use cofi_ty_home.Common.{
  ℕ, ◌+◌, ◌≡◌, refl, none, some, List, [], ◌∷◌, ◌++◌, true, false, arith, ◌==◌, ltb, suc,
  if◌then◌else◌,
}
use cofi_ty_home.Common.Int.{pos}
use cofi_ty_home.Kernel.Threads.{Ctxs, Kern}
use cofi_ty_home.Kernel.Threads.Sleep.Agenda.{AllBefore, NoneBefore, time_of}
use cofi_ty_home.Kernel.Threads.Sleep.Chaining.{IsAgenda}
use cofi_ty_home.Kernel.Threads.Sleep.Waking.{onto}
use cofi_ty_home.Kernel.Queues.{Mail}
use cofi_ty_home.Kernel.Threads.Scheduling.{Runs}
use cofi_ty_home.Kernel.Queues.Stock.{IsStocked}
use cofi_ty_home.Kernel.Rounds.{scheduler, yield, sleep, wait}
use cofi_ty_home.Kernel.Rounds.Sleeping.{sleep-IsAgenda}
use cofi_ty_home.Kernel.Rounds.Reaping.{wait-scheduler}
use cofi_ty_home.Kernel.Starting.{Machine, start_scheduler, start_scheduler-Runs}
use cofi_ty_home.Kernel.Rounds.Turns.{rotated, NoneKilled, yield-IsAgenda, turns, turns_reach}

-- Threads 1 and 2 are active, thread 3 sleeps until 10.
abbrev napping_ctxs : Ctxs
napping_ctxs p =
    if p == 1
    then record { next = some 2; last = some 2; id = pos 0; time_to_wait = 0; zombi = false }
    else if p == 2
    then record { next = some 1; last = some 1; id = pos 1; time_to_wait = 0; zombi = false }
    else record { next = none; last = none; id = pos 2; time_to_wait = 10; zombi = false }

abbrev napping : Mail
napping = record {
  kern = record {
    ctxs = napping_ctxs;
    current_thread = 1;
    thread_in_waiting = some 3;
    threads = λ i. if ltb i 3 then some (i + 1) else none;
    semaphores = λ i. none;
    irq = record { it = 0; irqs_are_enable = true };
    started = λ i. true;
  };
  message_queues = λ i. none;
}

napping-IsAgenda : IsAgenda napping.kern (1 ∷ 2 ∷ []) (3 ∷ [])
napping-IsAgenda = record {
  runs = (
    refl,
    record {
      chain = (refl, refl, (refl, refl));
      distinct = (((λ e. omega (arith, e)), tt), (tt, tt));
    },
  );
  linked = (refl, refl);
  apart = (((λ e. omega (arith, e)), ((λ e. omega (arith, e)), tt)), tt);
  distinct = (tt, tt);
  sorted = (omega arith, tt);
}

-- Nobody sleeps.
abbrev awake : Mail
awake = record napping { kern = record napping.kern { thread_in_waiting = none } }

awake-IsAgenda : IsAgenda awake.kern (1 ∷ 2 ∷ []) []
awake-IsAgenda = record {
  runs = napping-IsAgenda.runs;
  linked = refl;
  apart = tt;
  distinct = tt;
  sorted = tt;
}

napping-NoneKilled : (c : Kern) → c.ctxs ≡ napping_ctxs → NoneKilled c
napping-NoneKilled c e y = ground (arith, e)

sleep-IsAgenda_example :
    (m' : Mail) × (before : List ℕ) × (after : List ℕ) × (sleep 9 8 5 1 napping ≡ some m')
    × ((3 ∷ []) ≡ before ++ after)
    × IsAgenda m'.kern (2 ∷ []) (before ++ 1 ∷ after)
    × NoneKilled m'.kern
sleep-IsAgenda_example =
    sleep-IsAgenda napping 1 2 [] (3 ∷ []) 9 8 5 1 napping-IsAgenda
      (napping-NoneKilled napping.kern refl) (omega arith)

yield-IsAgenda_example :
    (m' : Mail) × (woken : List ℕ) × (asleep : List ℕ) × (yield 9 12 1 napping ≡ some m')
    × ((3 ∷ []) ≡ woken ++ asleep)
    × AllBefore (time_of napping.kern.ctxs) (suc 12) woken
    × NoneBefore (time_of napping.kern.ctxs) (suc 12) asleep
    × IsAgenda m'.kern (rotated 1 (onto woken (2 ∷ []))) asleep
    × NoneKilled m'.kern
    × (m'.kern.irq ≡ (
        if napping.kern.started m'.kern.current_thread
        then record { it = 0; irqs_are_enable = true }
        else record { it = napping.kern.irq.it + 2; irqs_are_enable = false }))
yield-IsAgenda_example =
    yield-IsAgenda 9 12 1 napping 1 (2 ∷ []) (3 ∷ []) napping-IsAgenda (omega arith)
      (napping-NoneKilled napping.kern refl)

turns_reach_example :
    (m' : Mail) × (turns 9 (12 ∷ []) 1 awake ≡ some m') × (m'.kern.current_thread ≡ 2)
turns_reach_example =
    turns_reach 9 1 (12 ∷ []) (1 ∷ []) 2 [] awake awake-IsAgenda
      (napping-NoneKilled awake.kern refl) (omega arith) refl

-- Thread 1 has been killed; queue 3 with semaphore 5 is for the threads that end.
abbrev killed_ctxs : Ctxs
killed_ctxs p = if p == 1 then record (napping_ctxs p) { zombi = true } else napping_ctxs p

abbrev killed : Mail
killed = record {
  kern = record awake.kern {
    ctxs = killed_ctxs;
    semaphores =
        λ i. if i == 5 then some (record { counter = pos 0; waiting_threads = none }) else none;
  };
  message_queues = λ i. if i == 3 then some (record { sem_id = 5; messages = [] }) else none;
}

killed-Runs : Runs killed.kern (1 ∷ 2 ∷ [])
killed-Runs = (
  refl,
  record {
    chain = (refl, refl, (refl, refl));
    distinct = (((λ e. omega (arith, e)), tt), (tt, tt));
  },
)

killed-IsStocked : IsStocked 3 5 killed []
killed-IsStocked = record {
  small_queue = omega arith;
  small_sem = omega arith;
  queue = refl;
  coins = refl;
}

wait-scheduler_example :
    (m1 : Mail) × (m2 : Mail) × (scheduler 3 killed ≡ some m1)
    × Runs m1.kern (2 ∷ [])
    × (wait 3 m1 ≡ some (some (0, m2)))
    × (m2.kern.threads ≡ (λ x. if 0 == x then none else killed.kern.threads x))
    × Runs m2.kern (2 ∷ [])
    × IsStocked 3 5 m2 []
wait-scheduler_example =
    wait-scheduler 3 5 killed 2 [] 0 killed-Runs killed-IsStocked 1 refl refl refl (omega arith)

abbrev fresh : Machine
fresh = record {
  mail = record killed {
    kern = record killed.kern { semaphores = λ i. none };
    message_queues = λ i. none;
  };
  timer_irq_handler = false;
  wait_mq = 0;
}

start_scheduler-Runs_example :
    (s' : Machine) × (sem : ℕ) × (start_scheduler 8 9 fresh ≡ some s')
    × Runs s'.mail.kern (8 ∷ 9 ∷ [])
    × (s'.mail.kern.thread_in_waiting ≡ none)
    × IsStocked s'.wait_mq sem s'.mail []
    × (s'.mail.kern.irq ≡ record { it = 0; irqs_are_enable = true })
    × (s'.timer_irq_handler ≡ true)
start_scheduler-Runs_example =
    start_scheduler-Runs 8 9 fresh (λ e. omega (arith, e)) (λ i. refl) (λ i. refl)
