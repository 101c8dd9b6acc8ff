-- ===== src/Kernel/ThreadExamples.antt =====
-- Three threads that run and one that waits for a semaphore.
use cofi_ty_home.Common.{
  codes, true, false, ltb, ℕ, ◌+◌, ◌≡◌, refl, none, some, List, [], ◌∷◌, arith, ◌==◌, if◌then◌else◌,
}
use cofi_ty_home.Common.Int.{pos}
use cofi_ty_home.Kernel.Queues.{Mail, new_message_queue, del_message_queue}
use cofi_ty_home.Kernel.Queues.Life.{send_each, receive_each, new_message_queue-del_message_queue}
use cofi_ty_home.Kernel.Threads.{Ctxs, Sem, Kern, sem_give}
use cofi_ty_home.Kernel.Threads.Ring.{Differ, IsRing}
use cofi_ty_home.Kernel.Threads.Scheduling.{Runs, sem_give_broken}

-- Three active threads in the order 1, 2, 3, and thread 4, which waits for semaphore 0.
abbrev three : Ctxs
three p =
    if p == 1
    then record { next = some 2; last = some 3; id = pos 0; time_to_wait = 0; zombi = false }
    else if p == 2
    then record { next = some 3; last = some 1; id = pos 1; time_to_wait = 0; zombi = false }
    else if p == 3
    then record { next = some 1; last = some 2; id = pos 2; time_to_wait = 0; zombi = false }
    else record { next = none; last = none; id = pos 3; time_to_wait = 0; zombi = false }

abbrev waited : Sem
waited = record { counter = pos 0; waiting_threads = some 4 }

abbrev busy : Kern
busy = record {
  ctxs = three;
  current_thread = 1;
  thread_in_waiting = none;
  started = λ i. true;
  threads = λ i. if ltb i 4 then some (i + 1) else none;
  semaphores = λ i. if i == 0 then some waited else none;
  irq = record { it = 0; irqs_are_enable = true };
}

busy-Runs : Runs busy (1 ∷ 2 ∷ 3 ∷ [])
busy-Runs = (
  refl,
  record {
    chain = (refl, refl, (refl, refl, (refl, refl)));
    distinct = (
      ((λ e. omega (arith, e)), ((λ e. omega (arith, e)), tt)),
      (((λ e. omega (arith, e)), tt), (tt, tt)),
    );
  },
)

-- Thread 1 is the only active one.
abbrev lonely : Kern
lonely = record busy {
  ctxs = λ p.
      if p == 1
      then record { next = some 1; last = some 1; id = pos 0; time_to_wait = 0; zombi = false }
      else record { next = none; last = none; id = pos 3; time_to_wait = 0; zombi = false };
}

lonely-Runs : Runs lonely (1 ∷ [])
lonely-Runs = (refl, record { chain = (refl, refl); distinct = (tt, tt) })

four_apart : Differ 4 (1 ∷ 2 ∷ 3 ∷ [])
four_apart = ((λ e. omega (arith, e)), ((λ e. omega (arith, e)), ((λ e. omega (arith, e)), tt)))

sem_give_broken_example :
    (k' : Kern) × (sem_give 0 busy ≡ some k') × (¬ ((os : List ℕ) × IsRing k'.ctxs 1 os))
sem_give_broken_example =
    sem_give_broken busy 1 2 4 0 (3 ∷ []) waited busy-Runs (omega arith) refl refl four_apart

-- Queue 1, over semaphore 2, with one message.
abbrev stocked : Mail
stocked = record {
  kern = record busy {
    semaphores =
        λ i. if i == 2 then some (record { counter = pos 1; waiting_threads = none }) else none;
  };
  message_queues =
      λ i. if i == 1 then some (record { sem_id = 2; messages = codes "bye" ∷ [] }) else none;
}

new_message_queue-del_message_queue_example :
    (id : ℕ) × (m0 : Mail) × (m1 : Mail) × (m2 : Mail) × (m3 : Mail) × (new_message_queue stocked
      ≡ some (id, m0))
    × (stocked.message_queues id ≡ none)
    × (send_each id ((4, codes "hello") ∷ (3, codes "bye") ∷ []) m0 ≡ some m1)
    × (receive_each id 2 2 m1 ≡ some (codes "he" ∷ codes "by" ∷ [], m2))
    × (del_message_queue id m2 ≡ some (true, m3))
    × (m3.message_queues id ≡ none)
new_message_queue-del_message_queue_example =
    new_message_queue-del_message_queue stocked 5 6 2 ((4, codes "hello") ∷ (3, codes "bye") ∷ [])
      (omega arith) refl (omega arith) refl
