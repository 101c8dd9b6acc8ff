-- ===== src/Kernel/Starting.antt =====
-- kernel/ordo3.0/scheduler.c, hw.c: the start of the threads and the interruption of the timer. The
-- signal of the timer comes from outside.
use mathlib.Core.Path.{subst}
use cofi_ty_home.Common.{
  ℕ, ◌≢◌, ◌≡◌, refl, sym, ◌∙◌, ap, Bool, true, false, ◌&&◌, Option, none, some, ◌>>=◌, List, [],
  ◌∷◌, ◌==◌, arith, if◌then◌else◌,
}
use cofi_ty_home.Common.Int.{negsuc}
use cofi_ty_home.Kernel.Interrupts.{Irq, disable_it, enable_it, irq_enable, irq_disable}
use cofi_ty_home.Kernel.Threads.{Ctxs, Ctx, Kern, put, create_thread}
use cofi_ty_home.Kernel.Threads.Ring.{IsRing}
use cofi_ty_home.Kernel.Threads.Scheduling.{Runs, create_thread-Runs}
use cofi_ty_home.Kernel.Queues.{Mail, new_message_queue}
use cofi_ty_home.Kernel.Queues.Stock.{IsStocked}
use cofi_ty_home.Kernel.Queues.Life.{new_message_queue-IsStocked}
use cofi_ty_home.Kernel.Rounds.{yield}

-- The state with `timer_irq_handler`, which points to `yield` or is null, and `wait_mq`.
pub record Machine : Type 0 where
  pub mail : Mail
  pub timer_irq_handler : Bool
  pub wait_mq : ℕ

unfoldable pub setup_irq : Machine → Machine
setup_irq s = record s { timer_irq_handler = true }

-- The signal of the timer, at a time.
unfoldable pub do_timer_interrupt : ℕ → ℕ → Machine → Option Machine
do_timer_interrupt fuel now s =
    if s.timer_irq_handler && s.mail.kern.irq.irqs_are_enable
    then (do m ← yield fuel now s.wait_mq s.mail; some (record s { mail = m }))
    else some s

-- The main thread, at the address that `malloc` gives; its time to wait has no value yet.
abbrev pub main_ctx : ℕ → Ctx → Ctx
main_ctx main old = record old { next = some main; last = some main; zombi = false; id = negsuc 0 }

abbrev pub with_main : ℕ → Kern → Kern
with_main main k = record k {
  thread_in_waiting = none;
  threads = (λ i. none);
  ctxs = put k.ctxs main (main_ctx main (k.ctxs main));
  current_thread = main;
  started = (λ y. y == main);
}

-- `main` and `idle` are the addresses of the two threads.
unfoldable pub start_scheduler : ℕ → ℕ → Machine → Option Machine
unfolding setup_irq
start_scheduler main idle s = do
  let s1 = setup_irq (record s { mail = record s.mail { kern = with_main main s.mail.kern } })
  i ← create_thread idle s1.mail.kern
  q ← new_message_queue (record s1.mail { kern = i.1 })
  some (record s1 { mail = q.1; wait_mq = q.0 })

-- Outside every critical section.
abbrev free : Irq
free = record { it = 0; irqs_are_enable = true }

main-next : (c : Ctxs) (main : ℕ) → (put c main (main_ctx main (c main)) main).next ≡ some main
unfolding put
main-next c main = ground arith

main-last : (c : Ctxs) (main : ℕ) → (put c main (main_ctx main (c main)) main).last ≡ some main
unfolding put
main-last c main = ground arith

create_thread-frame :
    (new : ℕ) (k k' : Kern) (id : ℕ)
    → create_thread new k ≡ some (id, k')
    → (k'.semaphores ≡ k.semaphores) × (k'.thread_in_waiting ≡ k.thread_in_waiting)
unfolding create_thread
create_thread-frame new k k' id e = ground (arith, e)

nested : (i : Irq) → i ≡ free → enable_it (enable_it (disable_it (disable_it i))) ≡ free
unfolding enable_it disable_it irq_enable irq_disable
nested i e = rw e

Runs-same :
    (k k' : Kern) (t : ℕ) (ts : List ℕ)
    → k'.ctxs ≡ k.ctxs
    → k'.current_thread ≡ k.current_thread
    → Runs k (t ∷ ts)
    → Runs k' (t ∷ ts)
Runs-same k k' t ts c e r = (e ∙ r.0, subst (λ d. IsRing d t ts) (sym c) r.1)

-- If the address of the idle thread is another one than that of the main thread and there is no
-- semaphore and no queue yet, then start_scheduler leaves the main thread current, the idle thread
-- behind it, nobody who sleeps, an empty queue for the threads that end, and interruptions enabled.
pub start_scheduler-Runs :
    (main idle : ℕ) (s : Machine)
    → idle ≢ main
    → ((i : ℕ) → s.mail.message_queues i ≡ none)
    → ((i : ℕ) → s.mail.kern.semaphores i ≡ none)
    → (s' : Machine) × (sem : ℕ) × (start_scheduler main idle s ≡ some s')
      × Runs s'.mail.kern (main ∷ idle ∷ [])
      × (s'.mail.kern.thread_in_waiting ≡ none)
      × IsStocked s'.wait_mq sem s'.mail []
      × (s'.mail.kern.irq ≡ record { it = 0; irqs_are_enable = true })
      × (s'.timer_irq_handler ≡ true)
unfolding start_scheduler setup_irq
start_scheduler-Runs main idle s other queues sems =
    let k0 = with_main main s.mail.kern in
    let alone : Runs k0 (main ∷ []) = (
      refl,
      record {
        chain = (main-next s.mail.kern.ctxs main, main-last s.mail.kern.ctxs main);
        distinct = (tt, tt);
      },
    ) in
    let (i, k, e, empty, entry, runs, irq) =
      create_thread-Runs k0 main [] idle 0 alone (other, tt) (omega arith) refl in
    let frame = create_thread-frame idle k0 k i e in
    let (q, sem, m', made, unused, same, stocked) =
      new_message_queue-IsStocked (record s.mail { kern = k }) 0 0 (omega arith) (queues 0)
        (omega arith) (ap (λ f. f 0) frame.0 ∙ sems 0) in
    (
      record { mail = m'; timer_irq_handler = true; wait_mq = q },
      sem,
      rw (e, made) refl,
      Runs-same k m'.kern main (idle ∷ []) same.0 same.1 runs,
      same.2 ∙ frame.1,
      stocked,
      same.3 ∙ nested k.irq irq,
      refl,
    )
