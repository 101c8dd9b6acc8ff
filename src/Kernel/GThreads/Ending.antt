-- ===== src/Kernel/GThreads/Ending.antt =====
-- A thread that ends leaves the active ones, and `gc` frees it.
use mathlib.Core.Path.{subst}
use cofi_ty_home.Common.{
  ℕ, zero, suc, ◌<◌, ◌≡◌, refl, sym, ◌∙◌, ap, true, false, Option, none, some, ◌>>=◌, List, [], ◌∷◌,
  ◌++◌, if◌then◌else◌, arith, length,
}
use cofi_ty_home.Kernel.Threads.Ring.{Differ, NoDup}
use cofi_ty_home.Kernel.Threads.Semaphores.{Apart}
use cofi_ty_home.Kernel.Links.{Linked, Linked-frame, head, Differ-left, Differ-right, Differ-append}
use cofi_ty_home.Kernel.GThreads.Lists.{
  GKern, write_next, is_at, Removal, remove, remove_from_activable, disable_interrupt,
  enable_interrupt,
}
use cofi_ty_home.Kernel.GThreads.Switching.{
  gc_step, is_protected, goes_on, exit_thread, exit_current_thread,
}
use cofi_ty_home.Kernel.GThreads.Removal.{
  link, or_option, remove-Removed, write_next_self, write_next-other,
}

-- The active threads, and those that `gc` has to free.
pub record Lists (k : GKern) (active ended : List ℕ) : Type 0 where
  pub runs : Linked (link k.store) k.first_thread active
  pub ends : Linked (link k.store) k.thread_for_deletion ended
  pub distinct : NoDup active
  pub apart : Apart ended active

pub Apart-Linked :
    (n m : ℕ → Option ℕ) (ts : List ℕ)
    → ((y : ℕ) → Differ y ts → m y ≡ n y)
    → (q : Option ℕ) (ds : List ℕ) → Apart ds ts
    → Linked n q ds
    → Linked m q ds
Apart-Linked n m ts same q [] a h = h
Apart-Linked n m ts same q (d ∷ ds) a h =
    (h.0, Apart-Linked n m ts same (m d) ds a.1 (subst (λ o. Linked n o ds) (sym (same d a.0)) h.1))

pub NoDup-before :
    (before : List ℕ) (t : ℕ) (after : List ℕ) → NoDup (before ++ t ∷ after) → Differ t before
NoDup-before [] t after h = tt
NoDup-before (x ∷ before) t after h =
    ((λ e. (Differ-right x before (t ∷ after) h.0).0 (sym e)), NoDup-before before t after h.1)

NoDup-after :
    (before : List ℕ) (t : ℕ) (after : List ℕ) → NoDup (before ++ t ∷ after) → Differ t after
NoDup-after [] t after h = h.0
NoDup-after (x ∷ before) t after h = NoDup-after before t after h.1

Differ-without :
    (y : ℕ) (before : List ℕ) (t : ℕ) (after : List ℕ)
    → Differ y (before ++ t ∷ after)
    → Differ y (before ++ after)
Differ-without y before t after h =
    Differ-append y before after (Differ-left y before (t ∷ after) h)
      (Differ-right y before (t ∷ after) h).1

pub NoDup-without :
    (before : List ℕ) (t : ℕ) (after : List ℕ)
    → NoDup (before ++ t ∷ after)
    → NoDup (before ++ after)
NoDup-without [] t after h = h.1
NoDup-without (x ∷ before) t after h =
    (Differ-without x before t after h.0, NoDup-without before t after h.1)

pub Apart-without :
    (ds before : List ℕ) (t : ℕ) (after : List ℕ)
    → Apart ds (before ++ t ∷ after)
    → Apart ds (before ++ after)
Apart-without [] before t after h = tt
Apart-without (d ∷ ds) before t after h =
    (Differ-without d before t after h.0, Apart-without ds before t after h.1)

-- The thread that was removed goes before those that have ended.
exit-Lists :
    (k : GKern) (x : Removal) (t : ℕ) (before after ds : List ℕ)
    → Lists k (before ++ t ∷ after) ds
    → Linked (link x.store) x.first (before ++ after)
    → ((y : ℕ) → Differ y before → link x.store y ≡ link k.store y)
    → (k' : GKern) → k'.store ≡ write_next x.store t k.thread_for_deletion
    → k'.first_thread ≡ x.first
    → k'.thread_for_deletion ≡ some t
    → Lists k' (before ++ after) (t ∷ ds)
exit-Lists k x t before after ds l linked frame k' es ef ed =
    let s' = write_next x.store t k.thread_for_deletion in
    let far =
      Differ-append t before after (NoDup-before before t after l.distinct)
        (NoDup-after before t after l.distinct) in
    let runs =
      Linked-frame (link x.store) (link s') t t
        (λ y ne _. write_next-other x.store t k.thread_for_deletion y ne) x.first (before ++ after)
        far far linked in
    let same : (y : ℕ) → Differ y (before ++ t ∷ after) → link s' y ≡ link k.store y = λ y d.
      write_next-other x.store t k.thread_for_deletion y (Differ-right y before (t ∷ after) d).0
      ∙ frame y (Differ-left y before (t ∷ after) d) in
    let ends =
      Apart-Linked (link k.store) (link s') (before ++ t ∷ after) same k.thread_for_deletion ds
        l.apart l.ends in
    let end_t : Linked (link s') (link s' t) ds =
      subst (λ o. Linked (link s') o ds) (sym (write_next_self x.store t k.thread_for_deletion))
        ends in
    record {
      runs =
          subst (λ o. Linked (link k'.store) o (before ++ after)) (sym ef)
            (subst (λ s. Linked (link s) x.first (before ++ after)) (sym es) runs);
      ends = (ed, subst (λ s. Linked (link s) (link s t) ds) (sym es) end_t);
      distinct = NoDup-without before t after l.distinct;
      apart = (far, Apart-without ds before t after l.apart);
    }

abbrev pub with_removal : GKern → Removal → GKern
with_removal k x = record k { store = x.store; first_thread = x.first; current_thread = x.current }

pub remove_from_activable-ok :
    (fuel r : ℕ) (k : GKern) (x : Removal)
    → remove fuel k.store k.first_thread k.current_thread r ≡ some (some x)
    → remove_from_activable fuel r k ≡ some (true, with_removal k x)
unfolding remove_from_activable
remove_from_activable-ok fuel r k x e = rw e refl

-- The thread `t` that was current, ended.
abbrev pub ended_with : GKern → ℕ → GKern
ended_with k t =
    enable_interrupt (record k {
      store = write_next k.store t k.thread_for_deletion;
      thread_for_deletion = some t;
    })

exit_thread-goes_on :
    (fuel t u : ℕ) (k k1 : GKern)
    → is_protected (k.store t).id ≡ false
    → remove_from_activable fuel t (disable_interrupt k) ≡ some (true, k1)
    → k1.current_thread ≡ some u
    → exit_thread fuel (some t) k ≡ some (goes_on (ended_with k1 t))
unfolding exit_thread enable_interrupt
exit_thread-goes_on fuel t u k k1 free removed next =
    rw (free, removed) (by_current k1.current_thread next)
  where
    by_current :
        (q : Option ℕ)
        → q ≡ some u
        → ((elim q [ none ↦ none | some t' ↦ some (ended_with k1 t) ])
            >>= (λ k2. some (goes_on k2)))
          ≡ some (goes_on (ended_with k1 t))
    by_current q e = rw e refl

exit-goes_on :
    (fuel t u : ℕ) (k k1 : GKern)
    → k.current_thread ≡ some t
    → is_protected (k.store t).id ≡ false
    → remove_from_activable fuel t (disable_interrupt k) ≡ some (true, k1)
    → k1.current_thread ≡ some u
    → exit_current_thread fuel k ≡ some (goes_on (ended_with k1 t))
unfolding exit_current_thread
exit-goes_on fuel t u k k1 at free removed next =
    ap (λ q. exit_thread fuel q k) at ∙ exit_thread-goes_on fuel t u k k1 free removed next

or_option-some : (q : Option ℕ) (m : ℕ) → (u : ℕ) × (or_option q (some m) ≡ some u)
or_option-some none m = (m, refl)
or_option-some (some u) m = (u, refl)

is_at_self : (t : ℕ) (q a b : Option ℕ) → q ≡ some t → (if is_at t q then a else b) ≡ a
is_at_self t q a b e = rw e (ground arith)

-- With another active thread and fuel for those before it, exitCurrentThread of a thread that is not
-- protected by its id takes it out of the active threads and puts it before those that gc has to
-- free; the next one, or the first one, goes on, and interruptions are enabled.
pub exit_current_thread-Lists :
    (fuel t m : ℕ) (k : GKern) (before after rest ds : List ℕ)
    → Lists k (before ++ t ∷ after) ds
    → k.current_thread ≡ some t
    → is_protected (k.store t).id ≡ false
    → before ++ after ≡ m ∷ rest
    → length before < fuel
    → (k' : GKern) × (exit_current_thread fuel k ≡ some (goes_on k'))
      × Lists k' (before ++ after) (t ∷ ds)
      × (k'.current_thread ≡ or_option (head after) (some m))
      × (k'.it_enabled ≡ true)
      × (k'.freed ≡ k.freed)
unfolding disable_interrupt enable_interrupt
exit_current_thread-Lists fuel t m k before after rest ds l at free more lt =
    let r =
      remove-Removed fuel k.store k.first_thread k.current_thread t before after l.runs l.distinct
        (NoDup-before before t after l.distinct) lt in
    let x = r.removal in
    let k1 = with_removal (disable_interrupt k) x in
    let current : x.current ≡ or_option (head after) (some m) =
      r.moved
      ∙ is_at_self t k.current_thread (or_option (head after) (head (before ++ after)))
          k.current_thread at
      ∙ ap (λ o. or_option (head after) (head o)) more in
    let (u, some_u) = or_option-some (head after) m in
    (
      ended_with k1 t,
      exit-goes_on fuel t u k k1 at free
          (remove_from_activable-ok fuel t (disable_interrupt k) x r.ok) (current ∙ some_u),
      exit-Lists k x t before after ds l r.linked r.frame (ended_with k1 t) refl refl refl,
      current,
      refl,
      refl,
    )

-- One round of gc frees the thread that has ended last, and only it, and takes it from the list.
pub gc_step-Lists :
    (k : GKern) (ts ds : List ℕ) (d : ℕ)
    → Lists k ts (d ∷ ds)
    → Lists (gc_step k) ts ds × ((gc_step k).freed ≡ d ∷ k.freed)
unfolding gc_step
gc_step-Lists k ts ds d l =
    rw l.ends.0
      (record { runs = l.runs; ends = l.ends.1; distinct = l.distinct; apart = l.apart.1 }, refl)

-- `gc` until nothing is left: rounds for as many threads as have ended.
unfoldable pub collect : ℕ → GKern → GKern
unfolding gc_step
collect zero k = k
collect (suc n) k = collect n (gc_step k)

abbrev pub onto_freed : List ℕ → List ℕ → List ℕ
onto_freed [] fs = fs
onto_freed (d ∷ ds) fs = onto_freed ds (d ∷ fs)

-- The inner loop of gc frees every thread that has ended, each once, in the order of its list, and
-- ends with the list empty.
pub collect-Lists :
    (k : GKern) (ts ds : List ℕ)
    → Lists k ts ds
    → Lists (collect (length ds) k) ts []
      × ((collect (length ds) k).freed ≡ onto_freed ds k.freed)
      × ((collect (length ds) k).thread_for_deletion ≡ none)
unfolding collect
collect-Lists k ts [] l = (l, refl, l.ends)
collect-Lists k ts (d ∷ ds) l =
    let (l1, e) = gc_step-Lists k ts ds d l in
    let (l2, f, n) = collect-Lists (gc_step k) ts ds l1 in (l2, f ∙ ap (onto_freed ds) e, n)
