-- ===== src/Kernel/Queues/Life.antt =====
-- A queue from its creation to its deletion.
use cofi_ty_home.Common.{
  ℕ, zero, suc, ◌<◌, ◌≡◌, refl, true, Option, none, some, ◌>>=◌, List, [], ◌∷◌, ◌++◌, arith, length,
  Text, take, map, if◌then◌else◌, ◌==◌,
}
use mathlib.Core.List.{append_assoc, append-nil}
use mathlib.Core.Path.{subst}
use cofi_ty_home.Common.Int.{pos}
use cofi_ty_home.Kernel.Interrupts.{disable_it, enable_it}
use cofi_ty_home.Kernel.Threads.{Kern, Sem, set_entry, new_semaphore, del_semaphore}
use cofi_ty_home.Kernel.Threads.Scheduling.{ltb_small, free_id-none}
use cofi_ty_home.Kernel.Threads.Semaphores.{self_entry}
use cofi_ty_home.Kernel.Queues.{
  Mail, enter, leave, send_message, Received, got, waits, receive_message, new_message_queue,
  deleted, del_message_queue,
}
use cofi_ty_home.Kernel.Queues.Stock.{
  IsStocked, queue_entry, send_message-IsStocked, receive_message-IsStocked,
}

-- The threads are the same, and nobody has begun or ended a critical section.
abbrev pub SameThreads : Kern → Kern → Type 0
SameThreads k k' =
    (k'.ctxs ≡ k.ctxs)
    × (k'.current_thread ≡ k.current_thread)
    × (k'.thread_in_waiting ≡ k.thread_in_waiting)
    × (k'.irq ≡ enable_it (enable_it (disable_it (disable_it k.irq))))

-- A new queue has no message, and a semaphore without a coin.
pub new_message_queue-IsStocked :
    (m : Mail) (i j : ℕ)
    → i < 256
    → m.message_queues i ≡ none
    → j < 256
    → m.kern.semaphores j ≡ none
    → (id : ℕ) × (sem : ℕ) × (m' : Mail) × (new_message_queue m ≡ some (id, m'))
      × (m.message_queues id ≡ none)
      × SameThreads m.kern m'.kern
      × IsStocked id sem m' []
unfolding new_message_queue new_semaphore
new_message_queue-IsStocked m i j small free small' free' =
    let (id, found, empty, lt) = free_id-none 256 0 i m.message_queues (omega arith) small free in
    let (sem, found', empty', lt') =
      free_id-none 256 0 j m.kern.semaphores (omega arith) small' free' in
    let new : Sem = record { counter = pos 0; waiting_threads = none } in
    let k : Kern = record (enter m.kern) {
      semaphores = set_entry m.kern.semaphores sem new;
      irq = enable_it (disable_it (disable_it m.kern.irq));
    } in
    let queues = set_entry m.message_queues id (record { sem_id = sem; messages = [] }) in
    (
      id,
      sem,
      record { kern = leave k; message_queues = queues },
      rw (found, found') refl,
      empty,
      (refl, refl, refl, refl),
      record {
        small_queue = omega (arith, lt);
        small_sem = omega (arith, lt');
        queue = queue_entry m.message_queues id (record { sem_id = sem; messages = [] });
        coins = self_entry m.kern.semaphores sem new;
      },
    )

-- Messages one after the other, each of the size that is given with it.
unfoldable pub send_each : ℕ → List (ℕ × Text) → Mail → Option Mail
send_each mq_id [] m = some m
send_each mq_id ((size, t) ∷ ts) m = send_message mq_id t size m >>= send_each mq_id ts

abbrev pub cons_got : Text → Option (List Text × Mail) → Option (List Text × Mail)
cons_got t none = none
cons_got t (some (ts, m)) = some (t ∷ ts, m)

abbrev pub got_each :
    (Mail → Option (List Text × Mail)) → Option Received → Option (List Text × Mail)
got_each f none = none
got_each f (some (got t m)) = cons_got t (f m)
got_each f (some (waits m)) = none

-- As many receptions as `n`, none of which suspends its caller.
unfoldable pub receive_each : ℕ → ℕ → ℕ → Mail → Option (List Text × Mail)
receive_each mq_id max_size zero m = some ([], m)
receive_each mq_id max_size (suc n) m =
    got_each (receive_each mq_id max_size n) (receive_message mq_id max_size m)

abbrev pub copied : ℕ × Text → Text
copied (size, t) = take size t

send_each-IsStocked :
    (mq_id sem : ℕ) (ts : List (ℕ × Text)) (m : Mail) (us : List Text)
    → IsStocked mq_id sem m us
    → (m' : Mail) × (send_each mq_id ts m ≡ some m') × IsStocked mq_id sem m' (us ++ map copied ts)
unfolding send_each
send_each-IsStocked mq_id sem [] m us s = (m, refl, rw (append-nil us) s)
send_each-IsStocked mq_id sem ((size, t) ∷ ts) m us s =
    let (m1, e, s1) = send_message-IsStocked mq_id sem size t m us s in
    let (m2, e2, s2) = send_each-IsStocked mq_id sem ts m1 (us ++ take size t ∷ []) s1 in
    (
      m2,
      rw e e2,
      subst (IsStocked mq_id sem m2) (append_assoc us (take size t ∷ []) (map copied ts)) s2,
    )

receive_each-IsStocked :
    (mq_id sem max_size : ℕ) (us : List Text) (m : Mail)
    → IsStocked mq_id sem m us
    → (m' : Mail) × (receive_each mq_id max_size (length us) m ≡ some (map (take max_size) us, m'))
      × IsStocked mq_id sem m' []
unfolding receive_each
receive_each-IsStocked mq_id sem max_size [] m s = (m, refl, s)
receive_each-IsStocked mq_id sem max_size (u ∷ us) m s =
    let (m1, e, s1) = receive_message-IsStocked mq_id sem max_size m u us s in
    let (m2, e2, s2) = receive_each-IsStocked mq_id sem max_size us m1 s1 in
    (m2, rw (e, e2) refl, s2)

-- A queue for which nobody waits is deleted with its messages and its semaphore.
pub del_message_queue-IsStocked :
    (mq_id sem : ℕ) (m : Mail) (ts : List Text)
    → IsStocked mq_id sem m ts
    → (m' : Mail) × (del_message_queue mq_id m ≡ some (true, m'))
      × (m'.message_queues mq_id ≡ none)
      × (m'.kern.semaphores sem ≡ none)
unfolding del_message_queue del_semaphore
del_message_queue-IsStocked mq_id sem m ts s =
    let k : Kern = record (enter m.kern) {
      semaphores = (λ x. if sem == x then none else m.kern.semaphores x);
      irq = enable_it (disable_it (disable_it m.kern.irq));
    } in
    (
      (deleted mq_id m (true, k)).1,
      rw (ltb_small mq_id s.small_queue, s.queue, s.coins) refl,
      ground arith,
      ground arith,
    )

-- If the tables of queues and of semaphores have a free entry each, then new_message_queue makes a
-- queue under an id that was free, such that any messages that are sent to it one after the other
-- are received by as many calls in the same order, each cut to its size and to the room for it, no
-- reception suspends its caller, and del_message_queue deletes the queue then.
pub new_message_queue-del_message_queue :
    (m : Mail) (i j max_size : ℕ) (ts : List (ℕ × Text))
    → i < 256
    → m.message_queues i ≡ none
    → j < 256
    → m.kern.semaphores j ≡ none
    → (id : ℕ) × (m0 : Mail) × (m1 : Mail) × (m2 : Mail) × (m3 : Mail) × (new_message_queue m
        ≡ some (id, m0))
      × (m.message_queues id ≡ none)
      × (send_each id ts m0 ≡ some m1)
      × (receive_each id max_size (length (map copied ts)) m1
          ≡ some (map (take max_size) (map copied ts), m2))
      × (del_message_queue id m2 ≡ some (true, m3))
      × (m3.message_queues id ≡ none)
new_message_queue-del_message_queue m i j max_size ts small free small' free' =
    let (id, sem, m0, e0, empty, same, s0) =
      new_message_queue-IsStocked m i j small free small' free' in
    let (m1, e1, s1) = send_each-IsStocked id sem ts m0 [] s0 in
    let (m2, e2, s2) = receive_each-IsStocked id sem max_size (map copied ts) m1 s1 in
    let (m3, e3, gone, sem_gone) = del_message_queue-IsStocked id sem m2 [] s2 in
    (id, m0, m1, m2, m3, e0, empty, e1, e2, e3, gone)
