-- ===== src/Kernel/GThreads/Lists.antt =====
-- kernel/ordo2.0/scheduler.c: the threads, their removal from a list, and their creation. A pointer
-- is the address of a thread in a store. Names, stacks and the timer's signal are left out.
use cofi_ty_home.Common.{
  ℕ, zero, suc, Bool, true, false, Option, none, some, ◌>>=◌, List, ◌==◌, if◌then◌else◌,
}
use cofi_ty_home.Common.Int.{ℤ, pos, negsuc, add_ℤ, eq_ℤ}

pub record GThread : Type 0 where
  pub next : Option ℕ
  pub id : ℤ
  pub time_to_wait : ℕ
  pub to_delete : Bool

abbrev pub Store : Type 0
Store = ℕ → GThread

-- The variables of the file, and the threads that have been freed, the last one first.
pub record GKern : Type 0 where
  pub store : Store
  pub first_thread : Option ℕ
  pub current_thread : Option ℕ
  pub thread_for_deletion : Option ℕ
  pub thread_in_waiting_state : Option ℕ
  pub counter : ℤ
  pub it_enabled : Bool
  pub freed : List ℕ

unfoldable pub write : Store → ℕ → GThread → Store
write s p t = λ x. if p == x then t else s x

abbrev pub write_next : Store → ℕ → Option ℕ → Store
write_next s p q = write s p (record (s p) { next = q })

abbrev pub is_at : ℕ → Option ℕ → Bool
is_at p none = false
is_at p (some q) = p == q

-- The loop `while (iter->next != toRemove)`: the node before the one to remove, or `ERROR`. No result
-- is the reading of a null pointer, behind the only node of a list, or missing fuel.
unfoldable pub find_previous : ℕ → Store → ℕ → ℕ → Option (Option ℕ)
find_previous zero s r iter = none
find_previous (suc fuel) s r iter = elim (s iter).next [
  | none ↦ none
  | some n ↦
      let rest = find_previous fuel s r n in
      if n == r then some (some iter) else elim (s n).next [ none ↦ some none | some m ↦ rest ]
]

-- The store, the first node of the list and the current thread behind a removal.
pub record Removal : Type 0 where
  pub store : Store
  pub first : Option ℕ
  pub current : Option ℕ

-- `currentThread` if it is not null, or the first node of the list.
abbrev pub or_else : ℕ → Option ℕ → Option ℕ
or_else h none = some h
or_else h (some q) = some q

abbrev pub removed_behind : Store → ℕ → ℕ → Option ℕ → ℕ → Removal
removed_behind s h p current r =
    let s' = write_next s p (s r).next in
    record {
      store = s';
      first = some h;
      current = if is_at r current then or_else h (s' p).next else current;
    }

-- The common text of the two removals, for the list that begins at `head`; `some none` is `ERROR`.
unfoldable pub remove : ℕ → Store → Option ℕ → Option ℕ → ℕ → Option (Option Removal)
unfolding write find_previous
remove fuel s none current r = none
remove fuel s (some h) current r =
    let rest : Option (Option Removal) = (do
      found ← find_previous fuel s r h
      some (elim found [ none ↦ none | some p ↦ some (removed_behind s h p current r) ])) in
    if h == r
    then some (
        some (record {
          store = s;
          first = (s h).next;
          current = if is_at r current then (s h).next else current;
        }))
    else rest

-- `removeGThreadFromWaiting` and `removeGThreadFromActivable`: whether they return `OK`.
unfoldable pub remove_from_waiting : ℕ → ℕ → GKern → Option (Bool × GKern)
unfolding remove
remove_from_waiting fuel r k = do
  removed ← remove fuel k.store k.thread_in_waiting_state k.current_thread r
  some (elim removed [
    | none ↦ (false, k)
    | some x ↦ (
      true,
      record k { store = x.store; thread_in_waiting_state = x.first; current_thread = x.current },
    )
  ])

unfoldable pub remove_from_activable : ℕ → ℕ → GKern → Option (Bool × GKern)
unfolding remove
remove_from_activable fuel r k = do
  removed ← remove fuel k.store k.first_thread k.current_thread r
  some (elim removed [
    | none ↦ (false, k)
    | some x ↦
        (true, record k { store = x.store; first_thread = x.first; current_thread = x.current })
  ])

unfoldable pub disable_interrupt : GKern → GKern
disable_interrupt k = record k { it_enabled = false }

unfoldable pub enable_interrupt : GKern → GKern
enable_interrupt k = record k { it_enabled = true }

abbrev pub count : GKern → GKern
count k = record k { counter = add_ℤ k.counter (pos 1) }

-- A thread becomes the first one, at an address that `malloc` has given; its id is the counter, which
-- goes up.
unfoldable pub prepend_new : ℕ → GKern → GKern
unfolding write
prepend_new p k = count (record k {
  store =
      write k.store p
        (record { next = k.first_thread; id = k.counter; time_to_wait = 0; to_delete = false });
  first_thread = some p;
})

-- `createGThread` behind the test of the counter, which the test has moved.
unfoldable pub create_more : ℕ → GKern → GKern
unfolding disable_interrupt prepend_new enable_interrupt
create_more p k = enable_interrupt (prepend_new p (count (disable_interrupt k)))

-- The addresses of the main thread, of `idle` and of `gc` are arguments.
unfoldable pub init_g_threading_system : ℕ → ℕ → ℕ → GKern → GKern
unfolding create_more prepend_new
init_g_threading_system main idle gc k =
    let k1 = prepend_new main (record k { first_thread = none }) in
    create_more gc (create_more idle (record k1 { current_thread = some main }))

unfoldable pub create_g_thread : ℕ → ℕ → ℕ → ℕ → GKern → ℤ × GKern
unfolding disable_interrupt init_g_threading_system prepend_new enable_interrupt
create_g_thread main idle gc p k =
    let k1 = count (disable_interrupt k) in
    let k2 = if eq_ℤ k.counter (negsuc 0) then init_g_threading_system main idle gc k1 else k1 in
    (k2.counter, enable_interrupt (prepend_new p k2))
