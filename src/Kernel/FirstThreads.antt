-- ===== src/Kernel/FirstThreads.antt =====
-- kernel/ordo/gThreads.c: the first of the three schedulers. The timer and the names are left out; `longjmp` makes the program go on as the thread that is current then.
pub mod Stacks
use cofi_ty_home.Common.{
  ℕ, zero, suc, ◌+◌, ◌≡◌, ◌≢◌, refl, ◌∙◌, ap, Bool, true, false, Option, none, some, ◌>>=◌, List,
  ◌∷◌, ◌==◌, if◌then◌else◌, arith,
}

pub record Task : Type 0 where
  pub next : Option ℕ
  pub id : ℕ

-- `firstThread`, `currentThread`, `id_counter`, `irqEnabled`, and the threads that have been freed.
pub record Tasks : Type 0 where
  pub store : ℕ → Task
  pub first_thread : Option ℕ
  pub current_thread : Option ℕ
  pub id_counter : ℕ
  pub irq_enabled : Bool
  pub freed : List ℕ

unfoldable pub task_put : (ℕ → Task) → ℕ → Task → ℕ → Task
task_put s p t = λ x. if x == p then t else s x

unfoldable pub prepend : ℕ → Tasks → Tasks
unfolding task_put
prepend p k = record k {
  store = task_put k.store p (record { next = k.first_thread; id = k.id_counter });
  first_thread = some p;
  id_counter = k.id_counter + 1;
}

-- The main thread, at an address that `malloc` has given, is launched at once.
unfoldable pub init_tasks : ℕ → Tasks → Tasks
unfolding prepend
init_tasks main k =
    let k1 = prepend main (record k { first_thread = none; current_thread = none }) in
    record k1 { irq_enabled = true; current_thread = some main }

unfoldable pub create_task : ℕ → Tasks → Tasks
unfolding prepend
create_task p k = record (prepend p (record k { irq_enabled = false })) { irq_enabled = true }

-- The next thread, or the first one.
unfoldable pub task_yield : Tasks → Option Tasks
task_yield k =
    let next : Option Tasks = elim k.current_thread [
      | none ↦ none
      | some t ↦ elim (k.store t).next [
        | some n ↦ some (record k { current_thread = some n })
        | none ↦ elim k.first_thread [
          | none ↦ none
          | some f ↦ some (record k { current_thread = some f })
        ]
      ]
    ] in
    if k.irq_enabled then next else some k

-- The node behind a pointer, or the first one.
abbrev pub node_after : ℕ → Option ℕ → ℕ
node_after f none = f
node_after f (some n) = n

-- The loop of `exitCurrentThread`: it stops at the first node whose id is not that of the current
-- thread. No result is missing fuel.
unfoldable pub find_prev : ℕ → (ℕ → Task) → ℕ → ℕ → ℕ → Option ℕ
find_prev zero s f c prev = none
find_prev (suc fuel) s f c prev =
    let p = node_after f (s prev).next in
    let rest = find_prev fuel s f c p in if (s p).id == (s c).id then rest else some p

unfoldable pub leave_task : ℕ → ℕ → ℕ → Tasks → Option Tasks
unfolding find_prev task_put
leave_task fuel f c k = do
  start ← (k.store f).next
  prev ← find_prev fuel k.store f c start
  let after = node_after f (k.store c).next
  some (record k {
    store = task_put k.store prev (record (k.store prev) { next = some after });
    current_thread = some after;
    freed = c ∷ k.freed;
  })

-- `exitCurrentThread` for the first and the current thread. Without one it returns with
-- interruptions disabled.
unfoldable pub exit_between : ℕ → Option ℕ → Option ℕ → Tasks → Option Tasks
unfolding leave_task task_yield
exit_between fuel (some f) (some c) k =
    let k0 : Tasks = record k { irq_enabled = false } in
    let other : Option Tasks = (do
      k1 ← leave_task fuel f c k0
      task_yield (record k1 { irq_enabled = true })) in
    let gone : Tasks = record k0 {
      first_thread = (k.store c).next;
      current_thread = (k.store c).next;
      freed = c ∷ k.freed;
      irq_enabled = true;
    } in
    if (k.store f).id == (k.store c).id then task_yield gone else other
exit_between fuel _ _ k = some (record k { irq_enabled = false })

unfoldable pub exit_task : ℕ → Tasks → Option Tasks
unfolding exit_between
exit_task fuel k = exit_between fuel k.first_thread k.current_thread k

find_prev-first :
    (fuel f p c : ℕ) (s : ℕ → Task)
    → (s p).next ≡ some c
    → (s c).next ≡ none
    → (s f).id ≢ (s c).id
    → find_prev (suc (suc fuel)) s f c p ≡ some f
unfolding find_prev
find_prev-first fuel f p c s pc ce ne = rw (pc, ce) (ground arith)

leave_task-first :
    (fuel f p c : ℕ) (k : Tasks)
    → (k.store f).next ≡ some p
    → (k.store p).next ≡ some c
    → (k.store c).next ≡ none
    → (k.store f).id ≢ (k.store c).id
    → leave_task (suc (suc fuel)) f c k
      ≡ some (record k {
        store = task_put k.store f (record (k.store f) { next = some f });
        current_thread = some f;
        freed = c ∷ k.freed;
      })
unfolding leave_task
leave_task-first fuel f p c k fp pc ce ne =
    rw (fp, find_prev-first fuel f p c k.store pc ce ne, ce) refl

task_put_self : (s : ℕ → Task) (p : ℕ) (t : Task) → task_put s p t p ≡ t
unfolding task_put
task_put_self s p t = ground arith

-- The store when the link of the first thread leads back to it.
abbrev pub looped : (ℕ → Task) → ℕ → ℕ → Task
looped s f = task_put s f (record (s f) { next = some f })

-- The state behind the exit of the last of three threads.
abbrev pub lost : Tasks → ℕ → ℕ → Tasks
lost k f c = record k {
  store = looped k.store f;
  current_thread = some f;
  freed = c ∷ k.freed;
  irq_enabled = true;
}

looped_next : (s : ℕ → Task) (f : ℕ) → (looped s f f).next ≡ some f
looped_next s f = ap (λ (t : Task). t.next) (task_put_self s f (record (s f) { next = some f }))

yield_lost : (k : Tasks) (f c : ℕ) → task_yield (lost k f c) ≡ some (lost k f c)
unfolding task_yield
yield_lost k f c = rw (looped_next k.store f) refl

exit_between-lost :
    (fuel f p c : ℕ) (k : Tasks)
    → (k.store f).next ≡ some p
    → (k.store p).next ≡ some c
    → (k.store c).next ≡ none
    → (k.store f).id ≢ (k.store c).id
    → exit_between (suc (suc fuel)) (some f) (some c) k ≡ some (lost k f c)
unfolding exit_between
exit_between-lost fuel f p c k fp pc ce ne =
    let differ : ((k.store f).id == (k.store c).id) ≡ false = ground arith in
    rw (differ, leave_task-first fuel f p c (record k { irq_enabled = false }) fp pc ce ne)
      (yield_lost k f c)

-- If the current thread is the last of three, its id is not that of the first one, and with fuel for
-- two rounds, then behind its exitCurrentThread the first thread is current and leads back to itself:
-- the second one is lost.
pub exit_task-looped :
    (fuel f p c : ℕ) (k : Tasks)
    → k.first_thread ≡ some f
    → k.current_thread ≡ some c
    → (k.store f).next ≡ some p
    → (k.store p).next ≡ some c
    → (k.store c).next ≡ none
    → (k.store f).id ≢ (k.store c).id
    → (k' : Tasks) × (exit_task (suc (suc fuel)) k ≡ some k')
      × (k'.current_thread ≡ some f)
      × ((k'.store f).next ≡ some f)
      × (k'.irq_enabled ≡ true)
unfolding exit_task
exit_task-looped fuel f p c k ef ec fp pc ce ne = (
  lost k f c,
  ap (λ x. exit_between (suc (suc fuel)) x k.current_thread k) ef
      ∙ ap (λ x. exit_between (suc (suc fuel)) (some f) x k) ec
      ∙ exit_between-lost fuel f p c k fp pc ce ne,
  refl,
  looped_next k.store f,
  refl,
)
