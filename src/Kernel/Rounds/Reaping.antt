-- ===== src/Kernel/Rounds/Reaping.antt =====
-- A thread that has been killed is told to the one that waits.
use cofi_ty_home.Common.{
  ℕ, ◌<◌, ◌≡◌, refl, ap, true, none, some, List, [], ◌∷◌, arith, take, if◌then◌else◌, ◌==◌,
}
use cofi_ty_home.Common.Int.{pos}
use cofi_ty_home.Kernel.Interrupts.{disable_it, enable_it}
use cofi_ty_home.Kernel.Threads.{unlink}
use cofi_ty_home.Kernel.Threads.Ring.{end, unlink-IsRing}
use cofi_ty_home.Kernel.Threads.Scheduling.{Runs, disable_current_thread-unlink}
use cofi_ty_home.Kernel.Queues.{Mail, enter}
use cofi_ty_home.Kernel.Queues.Stock.{
  IsStocked, stocked_with, stocked_with-IsStocked, send_message_lem, receive_message_lem,
}
use cofi_ty_home.Kernel.Rounds.{int_bytes, bytes_int, scheduler, reset, reap, wait}

bytes_int-int_bytes : (n : ℕ) → n < 4294967296 → bytes_int (int_bytes (pos n)) ≡ some n
unfolding bytes_int int_bytes
bytes_int-int_bytes n small = ap some (omega arith)

take-int_bytes : (n : ℕ) → take 4 (int_bytes (pos n)) ≡ int_bytes (pos n)
unfolding int_bytes
take-int_bytes n = refl

-- The state in which a thread that has been killed leaves the processor: its id is in the queue, and
-- the thread behind it is current.
abbrev left_to : ℕ → ℕ → Mail → ℕ → ℕ → List ℕ → Mail
left_to wait_mq sem m n u ts =
    let m1 : Mail =
      stocked_with wait_mq sem (record m { kern = enter m.kern }) (int_bytes (pos n) ∷ []) in
    record m1 {
      kern = reset (record m1.kern {
        ctxs = unlink m.kern.ctxs m.kern.current_thread u (end u ts);
        current_thread = u;
        irq = enable_it (disable_it m1.kern.irq);
      });
    }

module _ (wait_mq sem : ℕ) (m : Mail) (u : ℕ) (ts : List ℕ) (n : ℕ)
    (runs : Runs m.kern (m.kern.current_thread ∷ u ∷ ts))
    (stocked : IsStocked wait_mq sem m []) where
  abbrev told : Mail
  told = stocked_with wait_mq sem (record m { kern = enter m.kern }) (int_bytes (pos n) ∷ [])

  entered-IsStocked : IsStocked wait_mq sem (record m { kern = enter m.kern }) []
  entered-IsStocked = record {
    small_queue = stocked.small_queue;
    small_sem = stocked.small_sem;
    queue = stocked.queue;
    coins = stocked.coins;
  }

  scheduler_killed :
      (m.kern.ctxs m.kern.current_thread).zombi ≡ true
      → (m.kern.ctxs m.kern.current_thread).id ≡ pos n
      → scheduler wait_mq m ≡ some (left_to wait_mq sem m n u ts)
  unfolding scheduler
  scheduler_killed killed named = rw (
    killed,
    named,
    send_message_lem wait_mq sem 4 (int_bytes (pos n)) (record m { kern = enter m.kern }) []
        entered-IsStocked,
    disable_current_thread-unlink told.kern m.kern.current_thread u ts runs,
  )

  left_to-IsStocked : IsStocked wait_mq sem (left_to wait_mq sem m n u ts) (int_bytes (pos n) ∷ [])
  left_to-IsStocked =
      let s =
        stocked_with-IsStocked wait_mq sem (record m { kern = enter m.kern }) []
          (int_bytes (pos n) ∷ []) entered-IsStocked in
      record {
        small_queue = s.small_queue;
        small_sem = s.small_sem;
        queue = s.queue;
        coins = s.coins;
      }

  -- What is left when the one that waits has been told.
  abbrev reaped : Mail
  reaped =
      let m1 = stocked_with wait_mq sem (left_to wait_mq sem m n u ts) [] in
      record m1 {
        kern = record m1.kern { threads = (λ x. if n == x then none else m.kern.threads x) };
      }

  wait-left_to :
      (a : ℕ)
      → m.kern.threads n ≡ some a
      → n < 4294967296
      → wait wait_mq (left_to wait_mq sem m n u ts) ≡ some (some (n, reaped))
  unfolding wait reap
  wait-left_to a known small = rw (
    receive_message_lem wait_mq sem 4 (left_to wait_mq sem m n u ts) (int_bytes (pos n)) []
        left_to-IsStocked,
    take-int_bytes n,
    bytes_int-int_bytes n small,
    known,
  )

  -- If two threads or more are active, the current one has been killed, its id is the index of an entry
  -- of the table below 2 ^ 32, and nobody waits for the queue of the ended threads, which is empty,
  -- then scheduler takes the current thread out of the ring, the next one becomes current, and its
  -- wait returns the id of the ended thread without being suspended, clears its entry in the table
  -- and no other, and leaves the queue empty.
  pub wait-scheduler :
      (a : ℕ)
      → (m.kern.ctxs m.kern.current_thread).zombi ≡ true
      → (m.kern.ctxs m.kern.current_thread).id ≡ pos n
      → m.kern.threads n ≡ some a
      → n < 4294967296
      → (m1 : Mail) × (m2 : Mail) × (scheduler wait_mq m ≡ some m1)
        × Runs m1.kern (u ∷ ts)
        × (wait wait_mq m1 ≡ some (some (n, m2)))
        × (m2.kern.threads ≡ (λ x. if n == x then none else m.kern.threads x))
        × Runs m2.kern (u ∷ ts)
        × IsStocked wait_mq sem m2 []
  wait-scheduler a killed named known small =
      let s =
        stocked_with-IsStocked wait_mq sem (left_to wait_mq sem m n u ts) (int_bytes (pos n) ∷ [])
          [] left_to-IsStocked in
      let ring = unlink-IsRing m.kern.ctxs m.kern.current_thread u ts runs.1 in
      (
        left_to wait_mq sem m n u ts,
        reaped,
        scheduler_killed killed named,
        (refl, ring),
        wait-left_to a known small,
        refl,
        (refl, ring),
        record {
          small_queue = s.small_queue;
          small_sem = s.small_sem;
          queue = s.queue;
          coins = s.coins;
        },
      )
