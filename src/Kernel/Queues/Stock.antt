-- ===== src/Kernel/Queues/Stock.antt =====
-- A queue for which nobody waits has as many coins as messages, and gives them in their order.
use cofi_ty_home.Common.{
  ℕ, ◌+◌, ◌<◌, ◌≡◌, ◌∙◌, ap, Option, none, some, List, [], ◌∷◌, ◌++◌, arith, length, length-append,
  Text, take,
}
use cofi_ty_home.Common.Int.{pos, add_ℤ}
use cofi_ty_home.Kernel.Interrupts.{disable_it, enable_it}
use cofi_ty_home.Kernel.Threads.{Kern, set_entry, goes_on, sem_take, sem_give}
use cofi_ty_home.Kernel.Threads.Scheduling.{ltb_small}
use cofi_ty_home.Kernel.Threads.Semaphores.{self_entry, one_less, has_coin}
use cofi_ty_home.Kernel.Queues.{
  Queue, Mail, enter, leave, send_message, receive_message, take_message, got,
}

-- The messages of the queue, its semaphore with one coin for each, and nobody who waits for it.
pub record IsStocked (mq_id sem : ℕ) (m : Mail) (ts : List Text) : Type 0 where
  pub small_queue : mq_id < 256
  pub small_sem : sem < 256
  pub queue : m.message_queues mq_id ≡ some (record { sem_id = sem; messages = ts })
  pub coins :
      m.kern.semaphores sem ≡ some (record { counter = pos (length ts); waiting_threads = none })

coin_more : (n : ℕ) → add_ℤ (pos n) (pos 1) ≡ pos (n + 1)
unfolding add_ℤ
coin_more n = ground arith

give_coin :
    (k : Kern) (sem n : ℕ)
    → sem < 256
    → k.semaphores sem ≡ some (record { counter = pos n; waiting_threads = none })
    → sem_give sem k
      ≡ some (record k {
        semaphores =
            set_entry k.semaphores sem (record { counter = pos (n + 1); waiting_threads = none });
        irq = enable_it (disable_it k.irq);
      })
unfolding sem_give
give_coin k sem n small e = rw (ltb_small sem small, e, coin_more n)

take_coin :
    (k : Kern) (sem n : ℕ)
    → sem < 256
    → k.semaphores sem ≡ some (record { counter = pos (n + 1); waiting_threads = none })
    → sem_take sem k
      ≡ some (
          goes_on (record k {
            semaphores =
                set_entry k.semaphores sem (record { counter = pos n; waiting_threads = none });
            irq = enable_it (disable_it k.irq);
          }))
unfolding sem_take
take_coin k sem n small e = rw (ltb_small sem small, e, has_coin n, one_less n)

pub queue_entry : (table : ℕ → Option Queue) (id : ℕ) (v : Queue) → set_entry table id v id ≡ some v
queue_entry table id v = ground arith

-- What `send_message` leaves, and what `receive_message` leaves, for a queue with the messages `ts`
-- behind it.
abbrev pub stocked_with : ℕ → ℕ → Mail → List Text → Mail
stocked_with mq_id sem m ts = record {
  kern = leave (record (enter m.kern) {
    semaphores =
        set_entry m.kern.semaphores sem
          (record { counter = pos (length ts); waiting_threads = none });
    irq = enable_it (disable_it (disable_it m.kern.irq));
  });
  message_queues = set_entry m.message_queues mq_id (record { sem_id = sem; messages = ts });
}

pub stocked_with-IsStocked :
    (mq_id sem : ℕ) (m : Mail) (ts us : List Text)
    → IsStocked mq_id sem m ts
    → IsStocked mq_id sem (stocked_with mq_id sem m us) us
stocked_with-IsStocked mq_id sem m ts us s = record {
  small_queue = s.small_queue;
  small_sem = s.small_sem;
  queue = queue_entry m.message_queues mq_id (record { sem_id = sem; messages = us });
  coins =
      self_entry m.kern.semaphores sem
        (record { counter = pos (length us); waiting_threads = none });
}

pub send_message_lem :
    (mq_id sem size : ℕ) (buffer : Text) (m : Mail) (ts : List Text)
    → IsStocked mq_id sem m ts
    → send_message mq_id buffer size m
      ≡ some (stocked_with mq_id sem m (ts ++ take size buffer ∷ []))
unfolding send_message
send_message_lem mq_id sem size buffer m ts s = rw (
  ltb_small mq_id s.small_queue,
  s.queue,
  give_coin (enter m.kern) sem (length ts) s.small_sem s.coins,
  one_longer ts (take size buffer),
)
  where
    one_longer : (xs : List Text) (x : Text) → length xs + 1 ≡ length (xs ++ x ∷ [])
    one_longer xs x = omega (arith, length-append xs (x ∷ []))

pub receive_message_lem :
    (mq_id sem max_size : ℕ) (m : Mail) (t : Text) (ts : List Text)
    → IsStocked mq_id sem m (t ∷ ts)
    → receive_message mq_id max_size m ≡ some (got (take max_size t) (stocked_with mq_id sem m ts))
unfolding receive_message take_message
receive_message_lem mq_id sem max_size m t ts s =
    let coins =
      s.coins ∙ ap (λ n. some (record { counter = pos n; waiting_threads = none })) (omega arith) in
    rw (
      ltb_small mq_id s.small_queue,
      s.queue,
      take_coin (enter m.kern) sem (length ts) s.small_sem coins,
    )

-- If nobody waits for a queue and it has one coin for each message, then `send_message` adds the
-- message behind the others, with one coin more.
pub send_message-IsStocked :
    (mq_id sem size : ℕ) (buffer : Text) (m : Mail) (ts : List Text)
    → IsStocked mq_id sem m ts
    → (m' : Mail) × (send_message mq_id buffer size m ≡ some m')
      × IsStocked mq_id sem m' (ts ++ take size buffer ∷ [])
send_message-IsStocked mq_id sem size buffer m ts s = (
  stocked_with mq_id sem m (ts ++ take size buffer ∷ []),
  send_message_lem mq_id sem size buffer m ts s,
  stocked_with-IsStocked mq_id sem m ts _ s,
)

-- If nobody waits for a queue and it has a message and one coin for each, then `receive_message` does
-- not suspend its caller: it copies the first message, as far as there is room, and takes it out,
-- with its coin.
pub receive_message-IsStocked :
    (mq_id sem max_size : ℕ) (m : Mail) (t : Text) (ts : List Text)
    → IsStocked mq_id sem m (t ∷ ts)
    → (m' : Mail) × (receive_message mq_id max_size m ≡ some (got (take max_size t) m'))
      × IsStocked mq_id sem m' ts
receive_message-IsStocked mq_id sem max_size m t ts s = (
  stocked_with mq_id sem m ts,
  receive_message_lem mq_id sem max_size m t ts s,
  stocked_with-IsStocked mq_id sem m (t ∷ ts) ts s,
)
