-- ===== src/Kernel/Threads/Sleep/Chaining.antt =====
-- Falling asleep keeps the active threads and those that sleep.
use mathlib.Core.Path.{subst}
use cofi_ty_home.Common.{
  ℕ, ◌+◌, ◌<◌, ◌≡◌, refl, sym, ◌∙◌, ◌≢◌, Option, none, some, List, [], ◌∷◌, ◌++◌, arith, length,
}
use cofi_ty_home.Kernel.Interrupts.{disable_it, enable_it}
use cofi_ty_home.Kernel.Threads.{Ctxs, Kern, put, set_next, unlink, disable_current_thread}
use cofi_ty_home.Kernel.Threads.Ring.{Differ, Differ-end, NoDup, IsRing-same, end, unlink-IsRing}
use cofi_ty_home.Kernel.Threads.Scheduling.{Runs, disable_current_thread-unlink}
use cofi_ty_home.Kernel.Threads.Semaphores.{Apart, set_next-IsRing, taken_self, other_next}
use cofi_ty_home.Kernel.Links.{
  Linked, Linked-head, Linked-frame, Linked-insert, last_of-differs, head, last_of, NoDup-middle,
}
use cofi_ty_home.Kernel.Threads.Sleep.{set_time, find_slot, chain_sleeper, fall_asleep}
use cofi_ty_home.Kernel.Threads.Sleep.Agenda.{
  Ascending, AllBefore, NoneBefore, Ascending-insert, Ascending-frame, Ascending-same, next_of,
  time_of, find_slot-Slot,
}

-- The active threads `ts`, the current one first, and the sleeping ones `ws`, the first to wake first.
pub record IsAgenda (k : Kern) (ts ws : List ℕ) : Type 0 where
  pub runs : Runs k ts
  pub linked : Linked (next_of k.ctxs) k.thread_in_waiting ws
  pub apart : Apart ws ts
  pub distinct : NoDup ws
  pub sorted : Ascending (time_of k.ctxs) 0 ws

pub Apart-Differ : (ws : List ℕ) (t : ℕ) (ts : List ℕ) → Apart ws (t ∷ ts) → Differ t ws
Apart-Differ [] t ts a = tt
Apart-Differ (w ∷ ws) t ts a = ((λ e. a.0.0 (sym e)), Apart-Differ ws t ts a.1)

Apart-end : (ws : List ℕ) (t u : ℕ) (ts : List ℕ) → Apart ws (t ∷ u ∷ ts) → Differ (end u ts) ws
Apart-end [] t u ts a = tt
Apart-end (w ∷ ws) t u ts a =
    ((λ e. Differ-end w u ts a.0.1.0 a.0.1.1 (sym e)), Apart-end ws t u ts a.1)

Apart-tail : (ws : List ℕ) (t : ℕ) (ts : List ℕ) → Apart ws (t ∷ ts) → Apart ws ts
Apart-tail [] t ts a = tt
Apart-tail (w ∷ ws) t ts a = (a.0.1, Apart-tail ws t ts a.1)

Apart-middle :
    (before after : List ℕ) (t : ℕ) (ts : List ℕ)
    → Apart (before ++ after) ts
    → Differ t ts
    → Apart (before ++ t ∷ after) ts
Apart-middle [] after t ts a d = (d, a)
Apart-middle (x ∷ before) after t ts a d = (a.0, Apart-middle before after t ts a.1 d)

pub Apart-second :
    (ws : List ℕ) (t w : ℕ) (ts : List ℕ) → Apart ws (t ∷ ts) → Differ w ws → Apart ws (t ∷ w ∷ ts)
Apart-second [] t w ts a d = tt
Apart-second (x ∷ ws) t w ts a d =
    ((a.0.0, ((λ e. d.0 (sym e)), a.0.1)), Apart-second ws t w ts a.1 d.1)

Apart-last :
    (prev : Option ℕ) (x : ℕ) (before after : List ℕ) (ts : List ℕ)
    → Apart (x ∷ before ++ after) ts
    → (p : ℕ) × (last_of prev (x ∷ before) ≡ some p) × Differ p ts
Apart-last prev x [] after ts a = (x, refl, a.0)
Apart-last prev x (y ∷ before) after ts a = Apart-last (some x) y before after ts a.1

set_next_time : (c : Ctxs) (t : ℕ) (q : Option ℕ) (y : ℕ) → time_of (set_next c t q) y ≡ time_of c y
unfolding put
set_next_time c t q y = ground arith

module _ (k : Kern) (t u : ℕ) (ts : List ℕ) (f : ℕ → ℕ) (runs : Runs k (u ∷ ts))
    (far : Differ t (u ∷ ts)) (times : (y : ℕ) → time_of k.ctxs y ≡ f y) where
  -- A thread that is not active goes between two parts of the sleeping ones.
  chain_sleeper-IsAgenda :
      (before after : List ℕ)
      → Linked (next_of k.ctxs) k.thread_in_waiting (before ++ after)
      → Apart (before ++ after) (u ∷ ts)
      → NoDup (before ++ after)
      → Differ t (before ++ after)
      → Ascending f 0 (before ++ t ∷ after)
      → IsAgenda
          (chain_sleeper t (last_of none before) (head after) k)
          (u ∷ ts)
          (before ++ t ∷ after)
  chain_sleeper-IsAgenda [] after linked apart nd d asc =
      let c = set_next k.ctxs t (head after) in
      record {
        runs = (runs.0, set_next-IsRing k.ctxs t u ts (head after) far runs.1);
        linked = (
          refl,
          subst (λ o. Linked (next_of c) o after)
              (Linked-head (next_of k.ctxs) k.thread_in_waiting after linked
                ∙ sym (taken_self k.ctxs t (head after)))
              (Linked-frame (next_of k.ctxs) (next_of c) t t
                (λ y ne _. other_next k.ctxs t (head after) y ne) k.thread_in_waiting after d d
                linked),
        );
        apart = (far, apart);
        distinct = (d, nd);
        sorted =
            Ascending-same f (time_of c) 0 0 (t ∷ after)
              (λ y. set_next_time k.ctxs t (head after) y ∙ times y) (omega arith) asc;
      }
  chain_sleeper-IsAgenda (x ∷ before) after linked apart nd d asc =
      let (p, last, clear) = Apart-last none x before after (u ∷ ts) apart in
      let c1 = set_next k.ctxs t (head after) in
      let c = set_next c1 p (some t) in
      let np : t ≢ p = last_of-differs t p none x before after d last in
      rw last (record {
        runs = (
          runs.0,
          set_next-IsRing c1 p u ts (some t) clear
              (set_next-IsRing k.ctxs t u ts (head after) far runs.1),
        );
        linked =
            Linked-insert (next_of k.ctxs) (next_of c) t p none k.thread_in_waiting x before after
              linked last nd d
              (λ y yp yt. other_next c1 p (some t) y yp ∙ other_next k.ctxs t (head after) y yt)
              (taken_self c1 p (some t))
              (other_next c1 p (some t) t np ∙ taken_self k.ctxs t (head after));
        apart = Apart-middle (x ∷ before) after t (u ∷ ts) apart far;
        distinct = NoDup-middle (x ∷ before) t after nd d;
        sorted =
            Ascending-same f (time_of c) 0 0 (x ∷ before ++ t ∷ after)
              (λ y. set_next_time c1 p (some t) y ∙ set_next_time k.ctxs t (head after) y ∙ times y)
              (omega arith) asc;
      })

set_time_next : (c : Ctxs) (t n y : ℕ) → next_of (set_time c t n) y ≡ next_of c y
unfolding put
set_time_next c t n y = ground arith

set_time_last : (c : Ctxs) (t n y : ℕ) → (set_time c t n y).last ≡ (c y).last
unfolding put
set_time_last c t n y = ground arith

set_time_other : (c : Ctxs) (t n y : ℕ) → y ≢ t → time_of (set_time c t n) y ≡ time_of c y
unfolding put
set_time_other c t n y ne = ground arith

set_time_self : (c : Ctxs) (t n : ℕ) → time_of (set_time c t n) t ≡ n
unfolding put
set_time_self c t n = ground arith

unlink_time : (c : Ctxs) (t u b y : ℕ) → time_of (unlink c t u b) y ≡ time_of c y
unfolding put unlink
unlink_time c t u b y = ground arith

unlink_next : (c : Ctxs) (t u b y : ℕ) → y ≢ t → y ≢ b → next_of (unlink c t u b) y ≡ next_of c y
unfolding put unlink
unlink_next c t u b y yt yb = ground arith

set_time_flag : (c : Ctxs) (t n y : ℕ) → (set_time c t n y).zombi ≡ (c y).zombi
unfolding put
set_time_flag c t n y = ground arith

unlink_flag : (c : Ctxs) (t u b y : ℕ) → (unlink c t u b y).zombi ≡ (c y).zombi
unfolding put unlink
unlink_flag c t u b y = ground arith

set_next_flag : (c : Ctxs) (t : ℕ) (q : Option ℕ) (y : ℕ) → (set_next c t q y).zombi ≡ (c y).zombi
unfolding put
set_next_flag c t q y = ground arith

chain_sleeper_flag :
    (t : ℕ) (prev iter : Option ℕ) (k : Kern) (y : ℕ)
    → ((chain_sleeper t prev iter k).ctxs y).zombi ≡ (k.ctxs y).zombi
chain_sleeper_flag t none iter k y = set_next_flag k.ctxs t iter y
chain_sleeper_flag t (some p) iter k y =
    set_next_flag (set_next k.ctxs t iter) p (some t) y ∙ set_next_flag k.ctxs t iter y

fall_asleep-chained :
    (k : Kern) (t fuel now seconds : ℕ) (slot : Option ℕ × Option ℕ) (k1 : Kern)
    → k.current_thread ≡ t
    → find_slot fuel (set_time k.ctxs t (now + seconds)) (now + seconds) none k.thread_in_waiting
      ≡ some slot
    → disable_current_thread
        (record k { ctxs = set_time k.ctxs t (now + seconds); irq = disable_it k.irq })
      ≡ some k1
    → fall_asleep fuel now seconds k ≡ some (chain_sleeper t slot.0 slot.1 k1)
unfolding fall_asleep
fall_asleep-chained k t fuel now seconds slot k1 e =
    subst
      (λ z.
        find_slot fuel (set_time k.ctxs z (now + seconds)) (now + seconds) none k.thread_in_waiting
          ≡ some slot
        → disable_current_thread
            (record k { ctxs = set_time k.ctxs z (now + seconds); irq = disable_it k.irq })
          ≡ some k1
        → fall_asleep fuel now seconds k ≡ some (chain_sleeper z slot.0 slot.1 k1))
      e (λ found disabled. rw (found, disabled))

-- With two active threads or more and fuel for the sleeping ones, the current thread falls asleep: the next one becomes current, and the sleeping threads stay in the order of their times, with the
-- current one before the first that wakes no earlier.
pub fall_asleep-IsAgenda :
    (k : Kern) (t u : ℕ) (ts ws : List ℕ) (fuel now seconds : ℕ)
    → IsAgenda k (t ∷ u ∷ ts) ws
    → length ws < fuel
    → (k' : Kern) × (before : List ℕ) × (after : List ℕ) × (fall_asleep fuel now seconds k
        ≡ some k')
      × (ws ≡ before ++ after)
      × IsAgenda k' (u ∷ ts) (before ++ t ∷ after)
      × ((y : ℕ) → (k'.ctxs y).zombi ≡ (k.ctxs y).zombi)
fall_asleep-IsAgenda k t u ts ws fuel now seconds a enough =
    let time = now + seconds in
    let c1 = set_time k.ctxs t time in
    let f = time_of c1 in
    let far = Apart-Differ ws t (u ∷ ts) a.apart in
    let linked1 =
      Linked-frame (next_of k.ctxs) (next_of c1) t t (λ y _ _. set_time_next k.ctxs t time y)
        k.thread_in_waiting ws far far a.linked in
    let sorted1 =
      Ascending-frame (time_of k.ctxs) f t 0 0 ws (set_time_other k.ctxs t time) far (omega arith)
        a.sorted in
    let s = find_slot-Slot fuel c1 time 0 none k.thread_in_waiting ws linked1 sorted1 enough in
    let k0 : Kern = record k { ctxs = c1; irq = disable_it k.irq } in
    let ring1 =
      IsRing-same k.ctxs c1 t (u ∷ ts) (set_time_next k.ctxs t time) (set_time_last k.ctxs t time)
        a.runs.1 in
    let c2 = unlink c1 t u (end u ts) in
    let k1 : Kern = record k0 {
      ctxs = c2;
      current_thread = u;
      irq = enable_it (disable_it (disable_it k.irq));
    } in
    let at_t : f t ≡ time = set_time_self k.ctxs t time in
    (
      chain_sleeper t (last_of none s.before) (head s.after) k1,
      s.before,
      s.after,
      fall_asleep-chained k t fuel now seconds (last_of none s.before, head s.after) k1 a.runs.0
          s.result (disable_current_thread-unlink k0 t u ts (a.runs.0, ring1)),
      s.split,
      chain_sleeper-IsAgenda k1 t u ts f (refl, unlink-IsRing c1 t u ts ring1) ring1.distinct.0
          (unlink_time c1 t u (end u ts)) s.before s.after
          (subst (Linked (next_of c2) k.thread_in_waiting) s.split (
            Linked-frame (next_of c1) (next_of c2) t (end u ts) (unlink_next c1 t u (end u ts))
              k.thread_in_waiting ws far (Apart-end ws t u ts a.apart) linked1))
          (subst (λ x. Apart x (u ∷ ts)) s.split (Apart-tail ws t (u ∷ ts) a.apart))
          (subst NoDup s.split a.distinct) (subst (Differ t) s.split far)
          (Ascending-insert f 0 t s.before s.after (omega arith)
            (subst (λ x. AllBefore f x s.before) (sym at_t) s.early)
            (subst (λ x. NoneBefore f x s.after) (sym at_t) s.late)
            (subst (Ascending f 0) s.split sorted1)),
      λ y.
          chain_sleeper_flag t (last_of none s.before) (head s.after) k1 y
          ∙ unlink_flag c1 t u (end u ts) y
          ∙ set_time_flag k.ctxs t time y,
    )
