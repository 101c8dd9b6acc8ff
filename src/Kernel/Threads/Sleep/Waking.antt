-- ===== src/Kernel/Threads/Sleep/Waking.antt =====
-- The loop of `yield`: who is active and who sleeps after it.
use mathlib.Core.Path.{subst}
use cofi_ty_home.Common.{
  ℕ, zero, suc, ◌≤◌, ◌<◌, ◌≡◌, refl, ◌∙◌, ap, ◌≢◌, Option, some, List, [], ◌∷◌, ◌++◌, arith, length,
  dec_lt,
}
use cofi_ty_home.Kernel.Threads.{Ctxs, Kern, put, link_after}
use cofi_ty_home.Kernel.Threads.Ring.{
  Differ, IsRing-same, first_of, next-first_of, link_after-IsRing,
}
use cofi_ty_home.Kernel.Links.{Linked-frame}
use cofi_ty_home.Kernel.Threads.Sleep.{link_woken, wake}
use cofi_ty_home.Kernel.Threads.Sleep.Agenda.{
  AllBefore, NoneBefore, Ascending-same, Ascending-NoneBefore, next_of, time_of,
}
use cofi_ty_home.Kernel.Threads.Sleep.Chaining.{IsAgenda, Apart-Differ, Apart-second}

-- The threads that are woken one after the other come behind the current one, the last one first.
abbrev pub onto : List ℕ → List ℕ → List ℕ
onto [] ts = ts
onto (w ∷ ws) ts = onto ws (w ∷ ts)

link_woken_next :
    (c : Ctxs) (t n w y : ℕ)
    → w ≢ t
    → w ≢ n
    → next_of (link_woken c t n w) y ≡ next_of (link_after c t n w) y
unfolding put link_woken link_after
link_woken_next c t n w y wt wn = ground arith

link_woken_last :
    (c : Ctxs) (t n w y : ℕ)
    → w ≢ t
    → w ≢ n
    → (link_woken c t n w y).last ≡ (link_after c t n w y).last
unfolding put link_woken link_after
link_woken_last c t n w y wt wn = ground arith

link_woken_other :
    (c : Ctxs) (t n w y : ℕ) → y ≢ t → y ≢ w → next_of (link_woken c t n w) y ≡ next_of c y
unfolding put link_woken
link_woken_other c t n w y yt yw = ground arith

link_woken_time : (c : Ctxs) (t n w y : ℕ) → time_of (link_woken c t n w) y ≡ time_of c y
unfolding put link_woken
link_woken_time c t n w y = ground arith

link_woken_flag : (c : Ctxs) (t n w y : ℕ) → (link_woken c t n w y).zombi ≡ (c y).zombi
unfolding put link_woken
link_woken_flag c t n w y = ground arith

first_of-Differ : (w t : ℕ) (ts : List ℕ) → Differ w (t ∷ ts) → w ≢ first_of t ts
first_of-Differ w t [] d = d.0
first_of-Differ w t (x ∷ ts) d = d.1.0

-- What the loop makes of an agenda.
pub record Woken (k : Kern) (t : ℕ) (ts ws : List ℕ) (now : ℕ) (r : Option Kern) : Type 0 where
  pub kern : Kern
  pub woken : List ℕ
  pub asleep : List ℕ
  pub result : r ≡ some kern
  pub split : ws ≡ woken ++ asleep
  pub agenda : IsAgenda kern (t ∷ onto woken ts) asleep
  pub due : AllBefore (time_of k.ctxs) (suc now) woken
  pub later : NoneBefore (time_of k.ctxs) (suc now) asleep
  pub irq : kern.irq ≡ k.irq
  pub started : kern.started ≡ k.started
  pub flags : (y : ℕ) → (kern.ctxs y).zombi ≡ (k.ctxs y).zombi

woken-IsAgenda :
    (k : Kern) (t w : ℕ) (ts ws : List ℕ)
    → IsAgenda k (t ∷ ts) (w ∷ ws)
    → IsAgenda
        (record k {
          ctxs = link_woken k.ctxs t (first_of t ts) w;
          thread_in_waiting = (k.ctxs w).next;
        })
        (t ∷ w ∷ ts)
        ws
woken-IsAgenda k t w ts ws a =
    let n = first_of t ts in
    let c = link_woken k.ctxs t n w in
    let wt = a.apart.0.0 in
    let wn = first_of-Differ w t ts a.apart.0 in
    record {
      runs = (
        a.runs.0,
        IsRing-same (link_after k.ctxs t n w) c t (w ∷ ts)
            (λ y. link_woken_next k.ctxs t n w y wt wn) (λ y. link_woken_last k.ctxs t n w y wt wn)
            (link_after-IsRing k.ctxs t ts w a.runs.1 a.apart.0),
      );
      linked =
          Linked-frame (next_of k.ctxs) (next_of c) t w (link_woken_other k.ctxs t n w)
            (k.ctxs w).next ws (Apart-Differ ws t ts a.apart.1) a.distinct.0 a.linked.1;
      apart = Apart-second ws t w ts a.apart.1 a.distinct.0;
      distinct = a.distinct.1;
      sorted =
          Ascending-same (time_of k.ctxs) (time_of c) 0 (time_of k.ctxs w) ws
            (link_woken_time k.ctxs t n w) (omega arith) a.sorted.1;
    }

AllBefore-same :
    (f g : ℕ → ℕ) (t : ℕ) (xs : List ℕ)
    → ((y : ℕ) → g y ≡ f y)
    → AllBefore g t xs
    → AllBefore f t xs
AllBefore-same f g t [] same h = tt
AllBefore-same f g t (x ∷ xs) same h =
    (omega (arith, h.0, same x), AllBefore-same f g t xs same h.1)

NoneBefore-same :
    (f g : ℕ → ℕ) (t : ℕ) (xs : List ℕ)
    → ((y : ℕ) → g y ≡ f y)
    → NoneBefore g t xs
    → NoneBefore f t xs
NoneBefore-same f g t [] same h = tt
NoneBefore-same f g t (x ∷ xs) same h =
    (omega (arith, h.0, same x), NoneBefore-same f g t xs same h.1)

wake-some :
    (fuel now t w n : ℕ) (k : Kern)
    → k.current_thread ≡ t
    → k.thread_in_waiting ≡ some w
    → time_of k.ctxs w ≤ now
    → (k.ctxs t).next ≡ some n
    → wake (suc fuel) now k
      ≡ wake fuel now
          (record k { ctxs = link_woken k.ctxs t n w; thread_in_waiting = (k.ctxs w).next })
unfolding wake
wake-some fuel now t w n k e waits le next =
    subst
      (λ z.
        (k.ctxs z).next ≡ some n
        → wake (suc fuel) now k
          ≡ wake fuel now
              (record k { ctxs = link_woken k.ctxs z n w; thread_in_waiting = (k.ctxs w).next }))
      e (λ i. ground (arith, waits, i)) next

wake-stop :
    (fuel now w : ℕ) (k : Kern)
    → k.thread_in_waiting ≡ some w
    → now < time_of k.ctxs w
    → wake (suc fuel) now k ≡ some k
unfolding wake
wake-stop fuel now w k waits lt = ground (arith, waits)

-- With fuel for the sleeping threads, the loop of `yield` wakes exactly those whose time has come and
-- puts each behind the current one; the others go on sleeping in the order of their times.
pub wake-Woken :
    (fuel now t : ℕ) (k : Kern) (ts ws : List ℕ)
    → IsAgenda k (t ∷ ts) ws
    → length ws < fuel
    → Woken k t ts ws now (wake fuel now k)
unfolding wake
wake-Woken zero now t k ts ws a lt = absurd (omega arith)
wake-Woken (suc fuel) now t k ts [] a lt = record {
  kern = k;
  woken = [];
  asleep = [];
  result = ground (arith, a.linked);
  split = refl;
  agenda = a;
  due = tt;
  later = tt;
  irq = refl;
  started = refl;
  flags = λ y. refl;
}
wake-Woken (suc fuel) now t k ts (w ∷ ws) a lt = elim (dec_lt now (time_of k.ctxs w)) [
  | yes later ↦ record {
    kern = k;
    woken = [];
    asleep = w ∷ ws;
    result = wake-stop fuel now w k a.linked.0 later;
    split = refl;
    agenda = a;
    due = tt;
    later = (
      later,
      Ascending-NoneBefore (time_of k.ctxs) (time_of k.ctxs w) (suc now) ws later a.sorted.1,
    );
    irq = refl;
    started = refl;
    flags = λ y. refl;
  }
  | no due ↦
      let n = first_of t ts in
      let k1 : Kern = record k {
        ctxs = link_woken k.ctxs t n w;
        thread_in_waiting = (k.ctxs w).next;
      } in
      let r = wake-Woken fuel now t k1 (w ∷ ts) ws (woken-IsAgenda k t w ts ws a) (omega arith) in
      record {
        kern = r.kern;
        woken = w ∷ r.woken;
        asleep = r.asleep;
        result =
            wake-some fuel now t w n k a.runs.0 a.linked.0 (omega (arith, due))
              (next-first_of k.ctxs t ts a.runs.1.chain)
            ∙ r.result;
        split = ap (◌∷◌ w) r.split;
        agenda = r.agenda;
        due = (
          omega (arith, due),
          AllBefore-same (time_of k.ctxs) (time_of k1.ctxs) (suc now) r.woken
              (link_woken_time k.ctxs t n w) r.due,
        );
        later =
            NoneBefore-same (time_of k.ctxs) (time_of k1.ctxs) (suc now) r.asleep
              (link_woken_time k.ctxs t n w) r.later;
        irq = r.irq;
        started = r.started;
        flags = λ y. r.flags y ∙ link_woken_flag k.ctxs t n w y;
      }
]
