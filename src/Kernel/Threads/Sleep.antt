-- ===== src/Kernel/Threads/Sleep.antt =====
-- kernel/ordo3.0/scheduler.c: the list of sleeping threads, in the order of the times at which they wake.
-- The result of `time (NULL)` is an argument.
pub mod Agenda
pub mod Chaining
pub mod Waking
use cofi_ty_home.Common.{ℕ, zero, suc, ◌+◌, ◌≡◌, Option, none, some, ◌>>=◌, ltb, leb, if◌then◌else◌}
use cofi_ty_home.Kernel.Interrupts.{disable_it}
use cofi_ty_home.Kernel.Threads.{Ctxs, Kern, put, set_next, set_last, disable_current_thread}

abbrev pub set_time : Ctxs → ℕ → ℕ → Ctxs
set_time c p n = put c p (record (c p) { time_to_wait = n })

-- The loop `while (iter != NULL && …)`: `prev` and `iter` at its end.
unfoldable pub find_slot : ℕ → Ctxs → ℕ → Option ℕ → Option ℕ → Option (Option ℕ × Option ℕ)
find_slot zero c time prev iter = none
find_slot (suc fuel) c time prev none = some (prev, none)
find_slot (suc fuel) c time prev (some i) =
    let rest = find_slot fuel c time (some i) (c i).next in
    if ltb (c i).time_to_wait time then rest else some (prev, some i)

abbrev pub chain_sleeper : ℕ → Option ℕ → Option ℕ → Kern → Kern
chain_sleeper t none iter k = record k { ctxs = set_next k.ctxs t iter; thread_in_waiting = some t }
chain_sleeper t (some p) iter k = record k { ctxs = set_next (set_next k.ctxs t iter) p (some t) }

-- `sleep`, up to the call `scheduler (toSleep)`.
unfoldable pub fall_asleep : ℕ → ℕ → ℕ → Kern → Option Kern
unfolding find_slot
fall_asleep fuel now seconds k = do
  let save = k.current_thread
  let c1 = set_time k.ctxs save (now + seconds)
  slot ← find_slot fuel c1 (now + seconds) none k.thread_in_waiting
  k1 ← disable_current_thread (record k { ctxs = c1; irq = disable_it k.irq })
  some (chain_sleeper save slot.0 slot.1 k1)

-- `thread_to_wake_up->last = current_thread; …`
unfoldable pub link_woken : Ctxs → ℕ → ℕ → ℕ → Ctxs
link_woken c current neighbour w =
    let c1 = set_last c w (some current) in
    let c2 = set_next c1 w (some neighbour) in
    let c3 = set_last c2 neighbour (some w) in set_next c3 current (some w)

-- The loop of `yield` that wakes the threads whose time has come.
unfoldable pub wake : ℕ → ℕ → Kern → Option Kern
wake zero now k = none
wake (suc fuel) now k = elim k.thread_in_waiting [
  | none ↦ some k
  | some w ↦
      if leb (k.ctxs w).time_to_wait now
      then (do
        neighbour ← (k.ctxs k.current_thread).next
        wake fuel now (record k {
          ctxs = link_woken k.ctxs k.current_thread neighbour w;
          thread_in_waiting = (k.ctxs w).next;
        }))
      else some k
]
