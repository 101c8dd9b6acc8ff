-- ===== src/Kernel/Threads.antt =====
-- kernel/ordo3.0/scheduler.c, semaphore.c, context.h: the ring of active threads and the semaphores.
-- A pointer to a `ctx` is its address; null is `none`. An operation without a result has read
-- through a null pointer or has run over the end of a table.
pub mod Ring
pub mod Scheduling
pub mod Semaphores
pub mod Sleep
use cofi_ty_home.Common.{
  ℕ, zero, suc, ◌+◌, ◌-◌, ◌≡◌, Bool, true, false, Option, none, some, ◌>>=◌, ◌==◌, ltb, leb,
  if◌then◌else◌,
}
use cofi_ty_home.Common.Int.{ℤ, pos, negsuc, ltb_ℤ, add_ℤ}
use cofi_ty_home.Kernel.Interrupts.{Irq, irq_enable, disable_it, enable_it, reset_it}

pub record Ctx : Type 0 where
  pub next : Option ℕ
  pub last : Option ℕ
  pub id : ℤ
  pub time_to_wait : ℕ
  pub zombi : Bool

abbrev pub Ctxs : Type 0
Ctxs = ℕ → Ctx

pub record Sem : Type 0 where
  pub counter : ℤ
  pub waiting_threads : Option ℕ

pub record Kern : Type 0 where
  pub ctxs : Ctxs
  pub current_thread : ℕ
  pub thread_in_waiting : Option ℕ
  pub threads : ℕ → Option ℕ
  pub semaphores : ℕ → Option Sem
  pub irq : Irq
  -- A thread at an address has run before.
  pub started : ℕ → Bool

unfoldable pub put : Ctxs → ℕ → Ctx → Ctxs
put c p v x = if p == x then v else c x

abbrev pub set_next : Ctxs → ℕ → Option ℕ → Ctxs
set_next c p q = put c p (record (c p) { next = q })

abbrev pub set_last : Ctxs → ℕ → Option ℕ → Ctxs
set_last c p q = put c p (record (c p) { last = q })

-- `new->next = current->next; …`, for the neighbour that `current->next` points to.
unfoldable pub link_after : Ctxs → ℕ → ℕ → ℕ → Ctxs
link_after c current neighbour new =
    let c1 = set_next c new (some neighbour) in
    let c2 = set_last c1 new (some current) in
    let c3 = set_last c2 neighbour (some new) in set_next c3 current (some new)

-- `current_thread = save->next; …`, for the neighbours that `save` points to.
unfoldable pub unlink : Ctxs → ℕ → ℕ → ℕ → Ctxs
unlink c save neighbour before =
    let c1 = set_last c neighbour (some before) in
    let c2 = set_next c1 before (some neighbour) in set_last (set_next c2 save none) save none

-- `for (id = 0; threads[id] != 0; id++)`, over a table of 256 entries.
unfoldable pub free_id {ℓ} : {A : Type ℓ} → ℕ → (ℕ → Option A) → ℕ → Option ℕ
free_id zero table id = none
free_id (suc left) table id =
    let rest = free_id left table (id + 1) in elim (table id) [ none ↦ some id | some t ↦ rest ]

abbrev pub set_entry {ℓ} : {A : Type ℓ} → (ℕ → Option A) → ℕ → A → ℕ → Option A
set_entry table id v x = if id == x then some v else table x

unfoldable pub disable_current_thread : Kern → Option Kern
disable_current_thread k = do
  let irq = disable_it k.irq
  let save = k.current_thread
  neighbour ← (k.ctxs save).next
  before ← (k.ctxs save).last
  some (record k {
    ctxs = unlink k.ctxs save neighbour before;
    current_thread = neighbour;
    irq = enable_it irq;
  })

-- `new` is the address that `malloc` returns; the stack of the thread is left out.
unfoldable pub create_thread : ℕ → Kern → Option (ℕ × Kern)
create_thread new k = do
  neighbour ← (k.ctxs k.current_thread).next
  let c1 = link_after k.ctxs k.current_thread neighbour new
  let c2 = put c1 new (record (c1 new) { zombi = false })
  id ← free_id 256 k.threads 0
  let c3 = put c2 new (record (c2 new) { id = pos id })
  some (
    id,
    record k {
      ctxs = c3;
      threads = set_entry k.threads id new;
      irq = reset_it (disable_it k.irq);
      started = (λ y. if y == new then false else k.started y);
    },
  )

-- Whether the caller goes on, or is suspended and `scheduler (save)` switches to `current_thread`.
pub data Taken : Type 0 where
  goes_on : Kern → Taken
  suspends : Kern → Taken

unfoldable pub new_semaphore : ℤ → Kern → Option (ℕ × Kern)
new_semaphore init k = do
  let irq = disable_it k.irq
  id ← free_id 256 k.semaphores 0
  let new : Sem = record { counter = init; waiting_threads = none }
  some (id, record k { semaphores = set_entry k.semaphores id new; irq = enable_it irq })

-- `semaphores[id]` is read without a check. `true` stands for 1, `false` for -1.
unfoldable pub del_semaphore : ℕ → Kern → Option (Bool × Kern)
del_semaphore id k = do
  sema ← k.semaphores id
  elim sema.waiting_threads [
    | some t ↦ some (false, record k { irq = irq_enable (disable_it k.irq) })
    | none ↦ some (
      true,
      record k {
        semaphores = (λ x. if id == x then none else k.semaphores x);
        irq = enable_it (disable_it k.irq);
      },
    )
  ]

unfoldable pub sem_take : ℕ → Kern → Option Taken
sem_take sem_id k =
    let k0 : Kern = record k { irq = disable_it k.irq } in
    if ltb 255 sem_id
    then some (goes_on (record k0 { irq = enable_it k0.irq }))
    else elim (k.semaphores sem_id) [
      | none ↦ some (goes_on (record k0 { irq = enable_it k0.irq }))
      | some sema ↦
          if ltb_ℤ (pos 0) sema.counter
          then some (
              goes_on (record k0 {
                semaphores =
                    set_entry k.semaphores sem_id
                      (record sema { counter = add_ℤ sema.counter (negsuc 0) });
                irq = enable_it k0.irq;
              }))
          else do
            k1 ← disable_current_thread k0
            some (
                suspends (record k1 {
                  ctxs = set_next k1.ctxs k.current_thread sema.waiting_threads;
                  semaphores =
                      set_entry k1.semaphores sem_id
                        (record sema { waiting_threads = some k.current_thread });
                }))
    ]

-- `save->next = current_thread->next; …`, as `sem_give` links a thread.
unfoldable pub link_given : Ctxs → ℕ → ℕ → ℕ → Ctxs
link_given c current neighbour save =
    let c1 = set_next c save (some neighbour) in
    let c2 = set_last c1 save (c1 current).last in
    let c3 = set_next c2 current (some save) in set_last c3 neighbour (some save)

unfoldable pub sem_give : ℕ → Kern → Option Kern
sem_give sem_id k =
    let k0 : Kern = record k { irq = disable_it k.irq } in
    if ltb 255 sem_id
    then some (record k0 { irq = enable_it k0.irq })
    else elim (k.semaphores sem_id) [
      | none ↦ some (record k0 { irq = enable_it k0.irq })
      | some sema ↦ elim sema.waiting_threads [
        | none ↦ some (record k0 {
          semaphores =
              set_entry k.semaphores sem_id (record sema { counter = add_ℤ sema.counter (pos 1) });
          irq = enable_it k0.irq;
        })
        | some save ↦ do
          neighbour ← (k.ctxs k.current_thread).next
          some (record k0 {
            ctxs = link_given k.ctxs k.current_thread neighbour save;
            semaphores =
                set_entry k.semaphores sem_id
                  (record sema { waiting_threads = (k.ctxs save).next });
            irq = enable_it k0.irq;
          })
      ]
    ]
