-- ===== src/Kernel/GThreads/Switching.antt =====
-- kernel/ordo2.0/scheduler.c: `gc`, `yield`, `killThreadById`, `gSleep` and `exitCurrentThread`.
-- The result of `time (NULL)` is an argument. A switch of contexts makes the program go on as the
-- thread that is current then; there must be one.
use cofi_ty_home.Common.{
  ℕ, zero, suc, ◌+◌, Bool, true, false, ◌||◌, Option, none, some, ◌>>=◌, ◌∷◌, ltb, leb,
  if◌then◌else◌,
}
use cofi_ty_home.Common.Int.{ℤ, pos, eq_ℤ}
use cofi_ty_home.Kernel.GThreads.Lists.{
  Store, GKern, is_at, write, write_next, remove_from_waiting, remove_from_activable,
  disable_interrupt, enable_interrupt, init_g_threading_system,
}

-- One round of the inner loop of `gc`, which frees a thread that has ended.
unfoldable pub gc_step : GKern → GKern
gc_step k = elim k.thread_for_deletion [
  | none ↦ k
  | some p ↦ record k { thread_for_deletion = (k.store p).next; freed = p ∷ k.freed }
]

abbrev pub switched : GKern → Option GKern
switched k = elim k.current_thread [ none ↦ none | some t ↦ some k ]

-- Main, `idle` and `gc`, as the code takes their ids to be.
abbrev pub is_protected : ℤ → Bool
is_protected id = eq_ℤ id (pos 0) || eq_ℤ id (pos 1) || eq_ℤ id (pos 2)

pub data Exit : Type 0 where
  -- the function returns, or another thread goes on
  returns goes_on : GKern → Exit

-- `exitCurrentThread` for the value of `currentThread`.
unfoldable pub exit_thread : ℕ → Option ℕ → GKern → Option Exit
unfolding disable_interrupt enable_interrupt write
exit_thread fuel none k = some (returns k)
exit_thread fuel (some save) k = if is_protected (k.store save).id then some (returns k) else (do
  r ← remove_from_activable fuel save (disable_interrupt k)
  let k1 = r.1
  k2 ← switched (
      enable_interrupt (record k1 {
        store = write_next k1.store save k1.thread_for_deletion;
        thread_for_deletion = some save;
      }))
  some (goes_on k2))

unfoldable pub exit_current_thread : ℕ → GKern → Option Exit
unfolding exit_thread
exit_current_thread fuel k = exit_thread fuel k.current_thread k

-- The loop of `yield` that wakes the threads whose time has come.
unfoldable pub wake_up : ℕ → ℕ → GKern → Option GKern
unfolding write
wake_up zero now k = none
wake_up (suc fuel) now k = elim k.thread_in_waiting_state [
  | none ↦ some k
  | some w ↦
      if leb (k.store w).time_to_wait now
      then (do
        r ← remove_from_waiting (suc fuel) w k
        let k1 = r.1
        wake_up fuel now
            (record k1 { store = write_next k1.store w k1.first_thread; first_thread = some w }))
      else some k
]

abbrev pub next_or_first : GKern → ℕ → Option ℕ
next_or_first k t = elim (k.store t).next [ none ↦ k.first_thread | some n ↦ some n ]

-- The rest of `yield`.
unfoldable pub to_next : GKern → Option GKern
unfolding enable_interrupt
to_next k = do
  old ← k.current_thread
  k1 ← switched (record k { current_thread = next_or_first k old })
  some (enable_interrupt k1)

unfoldable pub yield : ℕ → ℕ → GKern → Option GKern
unfolding to_next
yield fuel now k =
    let woken = (do
      k1 ← wake_up fuel now k
      t ← k1.current_thread
      let ended = (do
        e ← exit_current_thread fuel k1
        elim e [ returns k2 ↦ to_next k2 | goes_on k2 ↦ some k2 ])
      if (k1.store t).to_delete then ended else to_next k1) in
    if k.it_enabled then woken else some k

-- The thread with an id, in the list from a pointer on; no result is missing fuel.
unfoldable pub find_id : ℕ → Store → ℤ → Option ℕ → Option (Option ℕ)
find_id zero s id iter = none
find_id (suc fuel) s id none = some none
find_id (suc fuel) s id (some p) =
    let rest = find_id fuel s id (s p).next in if eq_ℤ (s p).id id then some (some p) else rest

-- Whether it returns `OK`. The current thread would go on on the stack that it has freed; no result
-- stands for that too.
unfoldable pub kill_thread_by_id : ℕ → ℤ → GKern → Option (Bool × GKern)
unfolding disable_interrupt enable_interrupt find_id
kill_thread_by_id fuel id k =
    let k0 = disable_interrupt k in
    let killed = (do
      found ← find_id fuel k0.store id k0.first_thread
      elim found [
        | none ↦ some (false, enable_interrupt k0)
        | some p ↦ (do
          r ← remove_from_activable fuel p k0
          r' ← if r.0 then some r else remove_from_waiting fuel p r.1
          let k1 = r'.1
          let freed = enable_interrupt (record k1 { freed = p ∷ k1.freed })
          (if is_at p k0.current_thread then none else some (true, freed)))
      ]) in
    if is_protected id then some (false, enable_interrupt k0) else killed

-- The loop `while (iter != NULL && …)`: `prev` and `iter` at its end.
unfoldable pub find_place : ℕ → Store → ℕ → Option ℕ → Option ℕ → Option (Option ℕ × Option ℕ)
find_place zero s time prev iter = none
find_place (suc fuel) s time prev none = some (prev, none)
find_place (suc fuel) s time prev (some i) =
    let rest = find_place fuel s time (some i) (s i).next in
    if ltb (s i).time_to_wait time then rest else some (prev, some i)

abbrev pub chain_in : ℕ → Option ℕ → Option ℕ → GKern → GKern
unfolding write
chain_in t none iter k = record k {
  store = write_next k.store t iter;
  thread_in_waiting_state = some t;
}
chain_in t (some p) iter k = record k { store = write_next (write_next k.store t iter) p (some t) }

unfoldable pub g_sleep : ℕ → ℕ → ℕ → ℕ → ℕ → ℕ → GKern → Option GKern
unfolding disable_interrupt enable_interrupt init_g_threading_system find_place write
g_sleep fuel main idle gc now seconds k = do
  let k0 = disable_interrupt k
  let k1 = if eq_ℤ k0.counter (pos 0) then init_g_threading_system main idle gc k0 else k0
  t ← k1.current_thread
  let time = now + seconds
  let s = write k1.store t (record (k1.store t) { time_to_wait = time })
  place ← find_place fuel s time none k1.thread_in_waiting_state
  r ← remove_from_activable fuel t (record k1 { store = s })
  switched (enable_interrupt (chain_in t place.0 place.1 r.1))

-- The function of a thread has returned (`mctx_creat_boot` in kernel/ordo2.0/gThread.c).
unfoldable pub finish : ℕ → GKern → GKern
unfolding write
finish p k = record k { store = write k.store p (record (k.store p) { to_delete = true }) }
