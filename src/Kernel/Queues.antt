-- ===== src/Kernel/Queues.antt =====
-- kernel/ordo3.0/m_queue.c: message queues over the semaphores. The linked messages of a queue are a
-- list, the first one first; the pointer `last` is the end of that list, and its upkeep is not modelled.
pub mod Stock
pub mod Life
use cofi_ty_home.Common.{
  ℕ, ◌≡◌, Bool, true, false, Option, none, some, ◌>>=◌, List, [], ◌∷◌, ◌++◌, ◌==◌, ltb,
  if◌then◌else◌, Text, take,
}
use cofi_ty_home.Kernel.Interrupts.{disable_it, enable_it}
use cofi_ty_home.Kernel.Threads.{
  Kern, set_entry, free_id, new_semaphore, del_semaphore, Taken, goes_on, suspends, sem_take,
  sem_give,
}
use cofi_ty_home.Common.Int.{pos}

pub record Queue : Type 0 where
  pub sem_id : ℕ
  pub messages : List Text

pub record Mail : Type 0 where
  pub kern : Kern
  pub message_queues : ℕ → Option Queue

abbrev pub enter : Kern → Kern
enter k = record k { irq = disable_it k.irq }

abbrev pub leave : Kern → Kern
leave k = record k { irq = enable_it k.irq }

-- `none` is an undefined run.
unfoldable pub send_message : ℕ → Text → ℕ → Mail → Option Mail
send_message mq_id buffer size m =
    if ltb 255 mq_id
    then some (record m { kern = leave (enter m.kern) })
    else elim (m.message_queues mq_id) [
      | none ↦ some (record m { kern = leave (enter m.kern) })
      | some q ↦ do
        k ← sem_give q.sem_id (enter m.kern)
        some (record {
          kern = leave k;
          message_queues =
              set_entry m.message_queues mq_id
                (record q { messages = q.messages ++ take size buffer ∷ [] });
        })
    ]

-- A message, or a caller that is suspended in `sem_take`.
pub data Received : Type 0 where
  got : Text → Mail → Received
  waits : Mail → Received

-- The copy and the removal of the first message, which is read without a check.
unfoldable pub take_message : ℕ → ℕ → Queue → Kern → Mail → Option Received
take_message mq_id max_size q k m = elim q.messages [
  | [] ↦ none
  | t ∷ ts ↦ some (
      got (take max_size t) (record {
        kern = leave k;
        message_queues = set_entry m.message_queues mq_id (record q { messages = ts });
      }))
]

abbrev pub go_on : ℕ → ℕ → Queue → Mail → Taken → Option Received
go_on mq_id max_size q m (goes_on k) = take_message mq_id max_size q k m
go_on mq_id max_size q m (suspends k) = some (waits (record m { kern = k }))

unfoldable pub receive_message : ℕ → ℕ → Mail → Option Received
unfolding take_message
receive_message mq_id max_size m =
    if ltb 255 mq_id
    then some (got [] (record m { kern = leave (enter m.kern) }))
    else elim (m.message_queues mq_id) [
      | none ↦ some (got [] (record m { kern = leave (enter m.kern) }))
      | some q ↦ do t ← sem_take q.sem_id (enter m.kern); go_on mq_id max_size q m t
    ]

-- The table has 256 entries, and `malloc` gives the queue.
unfoldable pub new_message_queue : Mail → Option (ℕ × Mail)
new_message_queue m = do
  id ← free_id 256 m.message_queues 0
  s ← new_semaphore (pos 0) (enter m.kern)
  some (
    id,
    record {
      kern = leave s.1;
      message_queues = set_entry m.message_queues id (record { sem_id = s.0; messages = [] });
    },
  )

-- The messages are freed with the queue, unless a thread waits for one.
abbrev pub deleted : ℕ → Mail → Bool × Kern → Bool × Mail
deleted mq_id m (false, k) = (false, record m { kern = leave k })
deleted mq_id m (true, k) = (
  true,
  record {
    kern = leave k;
    message_queues = (λ x. if mq_id == x then none else m.message_queues x);
  },
)

-- `true` stands for 1, `false` for -1.
unfoldable pub del_message_queue : ℕ → Mail → Option (Bool × Mail)
del_message_queue mq_id m =
    if ltb 255 mq_id
    then some (false, record m { kern = leave (enter m.kern) })
    else elim (m.message_queues mq_id) [
      | none ↦ some (false, record m { kern = leave (enter m.kern) })
      | some q ↦ do r ← del_semaphore q.sem_id (enter m.kern); some (deleted mq_id m r)
    ]
