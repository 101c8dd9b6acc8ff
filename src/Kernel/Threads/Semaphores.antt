-- ===== src/Kernel/Threads/Semaphores.antt =====
-- Who waits for a semaphore, and who is woken.
use mathlib.Core.Path.{subst}
use cofi_ty_home.Common.{
  ℕ, ◌+◌, ◌<◌, ◌≡◌, refl, sym, ◌∙◌, ap, ◌≢◌, true, false, Option, none, some, List, [], ◌∷◌, arith,
}
use cofi_ty_home.Common.Int.{pos, negsuc, ltb_ℤ, add_ℤ}
use cofi_ty_home.Kernel.Interrupts.{
  irq_enable, irq_disable, disable_it, enable_it, IsCoherent, enable-disable,
}
use cofi_ty_home.Kernel.Threads.{
  Ctxs, Kern, Sem, put, set_next, set_entry, unlink, link_given, disable_current_thread,
  new_semaphore, del_semaphore, sem_take, sem_give, suspends, goes_on,
}
use cofi_ty_home.Kernel.Threads.Ring.{
  Differ, Differ-end, IsRing, end, unlink-IsRing, Chain-end, Chain-frame,
}
use cofi_ty_home.Kernel.Threads.Scheduling.{Runs, ltb_small, free_id-none}

-- The threads that wait, in the order of `next`, from the pointer `q`.
abbrev pub WaitList : Ctxs → Option ℕ → List ℕ → Type 0
WaitList c q [] = q ≡ none
WaitList c q (w ∷ ws) = (q ≡ some w) × WaitList c (c w).next ws

-- None of the waiting threads is active.
abbrev pub Apart : List ℕ → List ℕ → Type 0
Apart [] ts = Unit
Apart (w ∷ ws) ts = Differ w ts × Apart ws ts

WaitList-frame :
    (c d : Ctxs) (t u : ℕ) (ts : List ℕ)
    → ((y : ℕ) → y ≢ end u ts → y ≢ t → (d y).next ≡ (c y).next)
    → (q : Option ℕ) (ws : List ℕ) → Apart ws (t ∷ u ∷ ts)
    → WaitList c q ws
    → WaitList d q ws
WaitList-frame c d t u ts same q [] a h = h
WaitList-frame c d t u ts same q (w ∷ ws) a h = (
  h.0,
  WaitList-frame c d t u ts same (d w).next ws a.1
      (rw (same w (Differ-end w u ts a.0.1.0 a.0.1.1) a.0.0) h.1),
)

taken_next :
    (c : Ctxs) (t u b : ℕ) (q : Option ℕ)
    → t ≢ u
    → t ≢ b
    → (y : ℕ) → y ≢ b
    → y ≢ t
    → (set_next (unlink c t u b) t q y).next ≡ (c y).next
unfolding put unlink
taken_next c t u b q tu tb y yb yt = ground arith

pub taken_self : (c : Ctxs) (t : ℕ) (q : Option ℕ) → (set_next c t q t).next ≡ q
unfolding put
taken_self c t q = ground arith

pub other_next :
    (c : Ctxs) (t : ℕ) (q : Option ℕ) (y : ℕ) → y ≢ t → (set_next c t q y).next ≡ (c y).next
unfolding put
other_next c t q y ne = ground arith

other_last : (c : Ctxs) (t : ℕ) (q : Option ℕ) (y : ℕ) → (set_next c t q y).last ≡ (c y).last
unfolding put
other_last c t q y = ground arith

-- A change of the link of a thread that is not in the ring.
pub set_next-IsRing :
    (c : Ctxs) (t u : ℕ) (ts : List ℕ) (q : Option ℕ)
    → Differ t (u ∷ ts)
    → IsRing c u ts
    → IsRing (set_next c t q) u ts
set_next-IsRing c t u ts q d h = record {
  chain =
      Chain-frame c (set_next c t q) t t t (λ y ne _. other_next c t q y ne)
        (λ y _ _. other_last c t q y) u ts u h.chain (λ e. d.0 (sym e)) (λ e. d.0 (sym e)) d.1 d.1
        d.1 (λ e. d.0 (sym e)) (λ e. d.0 (sym e));
  distinct = h.distinct;
}

-- If a semaphore has no coin, two threads or more are active and none of those that wait for it is,
-- then `sem_take` suspends the current one: it leaves the ring, goes to the front of the threads
-- that wait, and the next one becomes current.
pub sem_take-suspends :
    (k : Kern) (t u sem_id : ℕ) (ts ws : List ℕ) (sema : Sem)
    → Runs k (t ∷ u ∷ ts)
    → sem_id < 256
    → k.semaphores sem_id ≡ some sema
    → ltb_ℤ (pos 0) sema.counter ≡ false
    → WaitList k.ctxs sema.waiting_threads ws
    → Apart ws (t ∷ u ∷ ts)
    → (k' : Kern) × (sem_take sem_id k ≡ some (suspends k'))
      × Runs k' (u ∷ ts)
      × (k'.semaphores sem_id ≡ some (record sema { waiting_threads = some t }))
      × WaitList k'.ctxs (some t) (t ∷ ws)
unfolding sem_take disable_current_thread
sem_take-suspends k t u sem_id ts ws sema h small e coin waits apart =
    let tb = Differ-end t u ts h.1.distinct.0.0 h.1.distinct.0.1 in
    let d = set_next (unlink k.ctxs t u (end u ts)) t sema.waiting_threads in
    (
      record k {
        ctxs = d;
        current_thread = u;
        semaphores = set_entry k.semaphores sem_id (record sema { waiting_threads = some t });
        irq = enable_it (disable_it (disable_it k.irq));
      },
      rw (
        ltb_small sem_id small,
        e,
        coin,
        h.0,
        h.1.chain.0,
        Chain-end k.ctxs t (u ∷ ts) t h.1.chain,
      ),
      (
        refl,
        set_next-IsRing (unlink k.ctxs t u (end u ts)) t u ts sema.waiting_threads h.1.distinct.0
            (unlink-IsRing k.ctxs t u ts h.1),
      ),
      ground arith,
      (
        refl,
        subst (λ q. WaitList d q ws)
            (sym (taken_self (unlink k.ctxs t u (end u ts)) t sema.waiting_threads))
            (WaitList-frame k.ctxs d t u ts
              (taken_next k.ctxs t u (end u ts) sema.waiting_threads h.1.distinct.0.0 tb)
              sema.waiting_threads ws apart waits),
      ),
    )

link_given-IsRing :
    (c : Ctxs) (t w : ℕ) → IsRing c t [] → w ≢ t → IsRing (link_given c t t w) t (w ∷ [])
unfolding link_given put
link_given-IsRing c t w h ne = record {
  chain = (ground arith, ground (arith, h.chain.1), (ground arith, ground arith));
  distinct = (((λ e. ne (sym e)), tt), (tt, tt));
}

-- If only the current thread is active, others wait and interruptions are enabled exactly at level
-- 0, then `sem_give` puts the first that waits behind the current one in the ring and takes it from
-- those that wait; the state of the interruptions is as before.
pub sem_give-Runs :
    (k : Kern) (t w sem_id : ℕ) (ws : List ℕ) (sema : Sem)
    → Runs k (t ∷ [])
    → sem_id < 256
    → k.semaphores sem_id ≡ some sema
    → WaitList k.ctxs sema.waiting_threads (w ∷ ws)
    → w ≢ t
    → IsCoherent k.irq
    → (k' : Kern) × (sem_give sem_id k ≡ some k')
      × Runs k' (t ∷ w ∷ [])
      × (k'.semaphores sem_id ≡ some (record sema { waiting_threads = (k.ctxs w).next }))
      × (k'.irq ≡ k.irq)
unfolding sem_give
sem_give-Runs k t w sem_id ws sema h small e waits ne i = (
  record k {
    ctxs = link_given k.ctxs t t w;
    semaphores = set_entry k.semaphores sem_id (record sema { waiting_threads = (k.ctxs w).next });
    irq = enable_it (disable_it k.irq);
  },
  rw (ltb_small sem_id small, e, waits.0, h.0, h.1.chain.0),
  (h.0, link_given-IsRing k.ctxs t w h.1 ne),
  ground arith,
  enable-disable k.irq i,
)

-- Deleting a semaphore for which a thread waits is refused and changes no semaphore, but it leaves
-- the level of critical sections raised while interruptions are enabled.
pub del_semaphore_waited :
    (k : Kern) (id w : ℕ) (sema : Sem)
    → k.semaphores id ≡ some sema
    → sema.waiting_threads ≡ some w
    → (k' : Kern) × (del_semaphore id k ≡ some (false, k'))
      × (k'.semaphores ≡ k.semaphores)
      × (k'.irq.it ≡ k.irq.it + 1)
      × (k'.irq.irqs_are_enable ≡ true)
unfolding del_semaphore irq_enable disable_it irq_disable
del_semaphore_waited k id w sema e waits =
    (record k { irq = irq_enable (disable_it k.irq) }, rw (e, waits), refl, refl, refl)

pub self_entry : (table : ℕ → Option Sem) (id : ℕ) (v : Sem) → set_entry table id v id ≡ some v
self_entry table id v = ground arith

pub one_less : (n : ℕ) → add_ℤ (pos (n + 1)) (negsuc 0) ≡ pos n
unfolding add_ℤ
one_less n = ground arith

pub has_coin : (n : ℕ) → ltb_ℤ (pos 0) (pos (n + 1)) ≡ true
has_coin n = ground arith

-- If the table of semaphores has a free entry, a semaphore that is made with n + 1 coins gets an id
-- that was free, and a `sem_take` on it leaves n coins and does not suspend the caller; the state of
-- the interruptions is then as before.
pub sem_take-new_semaphore :
    (k : Kern) (i n : ℕ)
    → IsCoherent k.irq
    → i < 256
    → k.semaphores i ≡ none
    → (id : ℕ) × (k1 : Kern) × (k2 : Kern) × (new_semaphore (pos (n + 1)) k ≡ some (id, k1))
      × (k.semaphores id ≡ none)
      × (sem_take id k1 ≡ some (goes_on k2))
      × (k2.semaphores id ≡ some (record { counter = pos n; waiting_threads = none }))
      × (k2.irq ≡ k.irq)
unfolding new_semaphore sem_take
sem_take-new_semaphore k i n coherent small free =
    let (id, found, empty, lt) = free_id-none 256 0 i k.semaphores (omega arith) small free in
    let made : Sem = record { counter = pos (n + 1); waiting_threads = none } in
    let table = set_entry k.semaphores id made in
    let left : Sem = record { counter = pos n; waiting_threads = none } in
    (
      id,
      record k { semaphores = table; irq = enable_it (disable_it k.irq) },
      record k {
        semaphores = set_entry table id left;
        irq = enable_it (disable_it (enable_it (disable_it k.irq)));
      },
      rw found,
      empty,
      rw (
        ltb_small id (omega (arith, lt)),
        self_entry k.semaphores id made,
        has_coin n,
        one_less n,
      ),
      self_entry table id left,
      ap (λ x. enable_it (disable_it x)) (enable-disable k.irq coherent)
          ∙ enable-disable k.irq coherent,
    )
