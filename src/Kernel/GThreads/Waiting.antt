-- ===== src/Kernel/GThreads/Waiting.antt =====
-- kernel/ordo2.0/scheduler.c: semaphores and message queues, at addresses that `malloc` has given.
use cofi_ty_home.Common.{
  ℕ, Bool, true, false, Option, none, some, ◌>>=◌, List, [], ◌∷◌, ◌++◌, ◌==◌, if◌then◌else◌, Text,
  take,
}
use cofi_ty_home.Common.Int.{ℤ, pos, negsuc, add_ℤ, eq_ℤ}
use cofi_ty_home.Kernel.GThreads.Lists.{
  GKern, write, write_next, remove_from_activable, disable_interrupt, enable_interrupt,
}
use cofi_ty_home.Kernel.GThreads.Switching.{switched}

pub record Semaphore : Type 0 where
  pub counter : ℤ
  pub in_wait : Option ℕ

-- A box holds its messages in order; the walk to the last one is the end of the list.
pub record MessageQueue : Type 0 where
  pub in_box : List Text
  pub in_wait : Option ℕ

-- The caller goes on, or is suspended and another thread goes on.
pub data Taking (A : Type 0) : Type 0 where
  taken : A → Taking A
  suspended : A → Taking A

unfoldable pub new_semaphore : ℤ → Semaphore
new_semaphore init = record { counter = init; in_wait = none }

-- Whether it has been freed.
unfoldable pub delete_semaphore : Semaphore → Bool
delete_semaphore sem = elim sem.in_wait [ none ↦ true | some t ↦ false ]

-- The current thread leaves the active ones and goes before those that wait.
unfoldable pub suspend_on : ℕ → Option ℕ → GKern → Option (ℕ × GKern)
unfolding write enable_interrupt
suspend_on fuel in_wait k = do
  save ← k.current_thread
  r ← remove_from_activable fuel save k
  let k1 = r.1
  k2 ← switched (enable_interrupt (record k1 { store = write_next k1.store save in_wait }))
  some (save, k2)

unfoldable pub sem_take : ℕ → Semaphore → GKern → Option (Taking (Semaphore × GKern))
unfolding disable_interrupt suspend_on
sem_take fuel sem k =
    let k0 = disable_interrupt k in
    if eq_ℤ sem.counter (pos 0)
    then (do
      r ← suspend_on fuel sem.in_wait k0
      some (suspended (record sem { in_wait = some r.0 }, r.1)))
    else some (taken (record sem { counter = add_ℤ sem.counter (negsuc 0) }, k0))

-- The first thread that waits becomes the first active one.
unfoldable pub activate : ℕ → GKern → GKern
unfolding write
activate t k = record k { store = write_next k.store t k.first_thread; first_thread = some t }

unfoldable pub sem_give : Semaphore → GKern → Semaphore × GKern
unfolding disable_interrupt enable_interrupt activate
sem_give sem k =
    let k0 = disable_interrupt k in
    elim sem.in_wait [
      | none ↦ (record sem { counter = add_ℤ sem.counter (pos 1) }, enable_interrupt k0)
      | some save ↦
          (record sem { in_wait = (k0.store save).next }, enable_interrupt (activate save k0))
    ]

unfoldable pub new_message_queue : GKern → MessageQueue × GKern
unfolding disable_interrupt enable_interrupt
new_message_queue k =
    (record { in_box = []; in_wait = none }, enable_interrupt (disable_interrupt k))

-- One round of the loop: the message, or nothing and the caller is suspended; it takes another round
-- when it goes on.
unfoldable pub receive_message :
    ℕ → MessageQueue → GKern → Option (Taking (Option Text × (MessageQueue × GKern)))
unfolding disable_interrupt enable_interrupt suspend_on
receive_message fuel q k =
    let k0 = disable_interrupt k in
    elim q.in_box [
      | [] ↦ (do
        r ← suspend_on fuel q.in_wait k0
        some (suspended (none, (record q { in_wait = some r.0 }, r.1))))
      | t ∷ ts ↦ some (taken (some t, (record q { in_box = ts }, enable_interrupt k0)))
    ]

-- The size is that of the message at most.
unfoldable pub send_message : MessageQueue → Text → ℕ → GKern → MessageQueue × GKern
unfolding disable_interrupt enable_interrupt activate
send_message q my_message message_size k =
    let k0 = disable_interrupt k in
    let q0 : MessageQueue = record q { in_box = q.in_box ++ take message_size my_message ∷ [] } in
    let sent : MessageQueue × GKern = elim q.in_wait [
      | none ↦ (q0, enable_interrupt k0)
      | some t ↦ (record q0 { in_wait = (k0.store t).next }, enable_interrupt (activate t k0))
    ] in
    if message_size == 0 then (q, k0) else sent
