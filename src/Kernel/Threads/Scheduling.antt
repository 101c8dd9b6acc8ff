-- ===== src/Kernel/Threads/Scheduling.antt =====
-- What the operations on threads make of the ring of active threads.
use cofi_ty_home.Common.{
  ℕ, zero, suc, ◌+◌, ◌≤◌, ◌<◌, Option-cases, ℕ_discrete, inl, inr, ◌≡◌, refl, sym, ◌∙◌, ap, true,
  false, Option, none, some, List, [], ◌∷◌, arith, ltb, ◌==◌, if◌then◌else◌,
}
use cofi_ty_home.Common.Int.{pos}
use cofi_ty_home.Kernel.Interrupts.{disable_it, enable_it, reset_it, IsCoherent, enable-disable}
use cofi_ty_home.Kernel.Threads.{
  Ctxs, Kern, Sem, put, set_entry, link_after, unlink, link_given, free_id, disable_current_thread,
  create_thread, sem_give,
}
use cofi_ty_home.Kernel.Threads.Ring.{
  link_given-next, Differ-end, Chain-back, IsRing-same, next-first_of, some-inj, Differ, IsRing,
  end, first_of, Chain-end, link_after-IsRing, unlink-IsRing, link_given-last,
}

-- The active threads, in the order in which they get the processor.
abbrev pub Runs : Kern → List ℕ → Type 0
Runs k [] = ⊥
Runs k (t ∷ ts) = (k.current_thread ≡ t) × IsRing k.ctxs t ts

same_next :
    (c : Ctxs) (new id y : ℕ)
    → (put
        (put c new (record (c new) { zombi = false }))
        new
        (record (put c new (record (c new) { zombi = false }) new) { id = pos id })
        y).next
      ≡ (c y).next
unfolding put
same_next c new id y = ground arith

same_last :
    (c : Ctxs) (new id y : ℕ)
    → (put
        (put c new (record (c new) { zombi = false }))
        new
        (record (put c new (record (c new) { zombi = false }) new) { id = pos id })
        y).last
      ≡ (c y).last
unfolding put
same_last c new id y = ground arith

pub ltb_small : (n : ℕ) → n < 256 → ltb 255 n ≡ false
ltb_small n h = ground arith

pub disable_current_thread-unlink :
    (k : Kern) (t u : ℕ) (ts : List ℕ)
    → Runs k (t ∷ u ∷ ts)
    → disable_current_thread k
      ≡ some (record k {
        ctxs = unlink k.ctxs t u (end u ts);
        current_thread = u;
        irq = enable_it (disable_it k.irq);
      })
unfolding disable_current_thread
disable_current_thread-unlink k t u ts h =
    rw (h.0, h.1.chain.0, Chain-end k.ctxs t (u ∷ ts) t h.1.chain)

-- With two active threads or more, `disable_current_thread` takes the current one out of the ring
-- and the next one becomes current; the state of the interruptions is as before, if they were
-- enabled exactly at level 0.
pub disable_current_thread-Runs :
    (k : Kern) (t u : ℕ) (ts : List ℕ)
    → Runs k (t ∷ u ∷ ts)
    → IsCoherent k.irq
    → (k' : Kern) × (disable_current_thread k ≡ some k') × Runs k' (u ∷ ts) × (k'.irq ≡ k.irq)
unfolding disable_current_thread
disable_current_thread-Runs k t u ts h i = (
  record k {
    ctxs = unlink k.ctxs t u (end u ts);
    current_thread = u;
    irq = enable_it (disable_it k.irq);
  },
  rw (h.0, h.1.chain.0, Chain-end k.ctxs t (u ∷ ts) t h.1.chain),
  (refl, unlink-IsRing k.ctxs t u ts h.1),
  enable-disable k.irq i,
)

pub free_id-none {ℓ} :
    {A : Type ℓ} (left lo i : ℕ) (table : ℕ → Option A)
    → lo ≤ i
    → i < lo + left
    → table i ≡ none
    → (id : ℕ) × (free_id left table lo ≡ some id) × (table id ≡ none) × (id < lo + left)
unfolding free_id
free_id-none zero lo i table le lt free = absurd (omega arith)
free_id-none {A = A} (suc left) lo i table le lt free = elim (Option-cases (table lo)) [
  | inl empty ↦ (lo, rw (empty, free_id), empty, omega arith)
  | inr (t, used) ↦
      let rest = free_id-none left (lo + 1) i table (further used) (omega arith) free in
      (rest.0, rw (used, free_id) rest.1, rest.2, omega (arith, rest.3))
]
  where
    further : {t : A} → table lo ≡ some t → lo + 1 ≤ i
    further used = elim (ℕ_discrete lo i) [
      | yes same ↦ absurd (ground (arith, used, free, ap table same))
      | no other ↦ omega (arith, other)
    ]

-- If the table of threads has a free entry and the address is new, `create_thread` puts the new
-- thread right behind the current one, under an id that was free, and enables interruptions.
pub create_thread-Runs :
    (k : Kern) (t : ℕ) (ts : List ℕ) (new i : ℕ)
    → Runs k (t ∷ ts)
    → Differ new (t ∷ ts)
    → i < 256
    → k.threads i ≡ none
    → (id : ℕ) × (k' : Kern) × (create_thread new k ≡ some (id, k'))
      × (k.threads id ≡ none)
      × (k'.threads id ≡ some new)
      × Runs k' (t ∷ new ∷ ts)
      × (k'.irq ≡ record { it = 0; irqs_are_enable = true })
unfolding create_thread reset_it
create_thread-Runs k t ts new i h d lt free =
    let (id, found, empty, _) = free_id-none 256 0 i k.threads (omega arith) lt free in
    let c1 = link_after k.ctxs t (first_of t ts) new in
    let c2 = put c1 new (record (c1 new) { zombi = false }) in
    let c3 = put c2 new (record (c2 new) { id = pos id }) in
    (
      id,
      record k {
        ctxs = c3;
        threads = set_entry k.threads id new;
        irq = reset_it (disable_it k.irq);
        started = (λ y. if y == new then false else k.started y);
      },
      rw (h.0, next-first_of k.ctxs t ts h.1.chain, found),
      empty,
      ground arith,
      (
        h.0,
        IsRing-same c1 c3 t (new ∷ ts) (same_next c1 new id) (same_last c1 new id)
            (link_after-IsRing k.ctxs t ts new h.1 d),
      ),
      refl,
    )

-- If two threads or more are active and one that is not waits for a semaphore, then waking it by
-- `sem_give` links it back to the last thread of the ring instead of the current one: the threads
-- are no ring any more.
pub sem_give_broken :
    (k : Kern) (t u w sem_id : ℕ) (ts : List ℕ) (sema : Sem)
    → Runs k (t ∷ u ∷ ts)
    → sem_id < 256
    → k.semaphores sem_id ≡ some sema
    → sema.waiting_threads ≡ some w
    → Differ w (t ∷ u ∷ ts)
    → (k' : Kern) × (sem_give sem_id k ≡ some k') × (¬ ((os : List ℕ) × IsRing k'.ctxs t os))
unfolding sem_give
sem_give_broken k t u w sem_id ts sema h small e waits d = (
  record k {
    ctxs = link_given k.ctxs t u w;
    semaphores = set_entry k.semaphores sem_id (record sema { waiting_threads = (k.ctxs w).next });
    irq = enable_it (disable_it k.irq);
  },
  rw (ltb_small sem_id small, e, waits, h.0, h.1.chain.0),
  λ (os, ring). Differ-end t u ts h.1.distinct.0.0 h.1.distinct.0.1 (
      some-inj t (end u ts) (
        sym (Chain-back (link_given k.ctxs t u w) t w os ring.chain (link_given-next k.ctxs t u w))
        ∙ link_given-last k.ctxs t u w d.0 d.1.0
        ∙ Chain-end k.ctxs t (u ∷ ts) t h.1.chain)),
)
