-- ===== src/Kernel/Rounds/Turns.antt =====
-- `yield` gives every active thread its turn.
use mathlib.Core.Path.{subst}
use mathlib.Core.List.{append_assoc}
use cofi_ty_home.Common.{
  ℕ, suc, ◌<◌, ◌≡◌, refl, sym, ◌∙◌, ap, Bool, true, false, ◌+◌, if◌then◌else◌, Option, some, ◌>>=◌,
  List, [], ◌∷◌, ◌++◌, arith, length,
}
use cofi_ty_home.Kernel.Interrupts.{Irq, reset_it, irq_enable, disable_it, irq_disable}
use cofi_ty_home.Kernel.Threads.{Ctxs, Kern}
use cofi_ty_home.Kernel.Threads.Ring.{Chain, Differ, NoDup, IsRing, first_of, next-first_of}
use cofi_ty_home.Kernel.Threads.Semaphores.{Apart}
use cofi_ty_home.Kernel.Links.{NoDup-middle, Differ-append}
use cofi_ty_home.Kernel.Threads.Sleep.{wake}
use cofi_ty_home.Kernel.Threads.Sleep.Chaining.{IsAgenda}
use cofi_ty_home.Kernel.Threads.Sleep.Waking.{Woken, wake-Woken, onto}
use cofi_ty_home.Kernel.Threads.Sleep.Agenda.{AllBefore, NoneBefore, time_of}
use cofi_ty_home.Kernel.Queues.{Mail, enter}
use cofi_ty_home.Kernel.Rounds.{scheduler, yield, reset, resumed}

-- The current thread goes behind the others.
abbrev pub rotated : ℕ → List ℕ → List ℕ
rotated t ts = ts ++ t ∷ []

-- A ring that is read from the next thread on.
Chain-snoc :
    (c : Ctxs) (x : ℕ) (xs : List ℕ) (t z : ℕ)
    → Chain c x xs t
    → (c t).next ≡ some z
    → (c z).last ≡ some t
    → Chain c x (xs ++ t ∷ []) z
Chain-snoc c x [] t z h n l = (h.0, h.1, (n, l))
Chain-snoc c x (y ∷ xs) t z h n l = (h.0, h.1, Chain-snoc c y xs t z h.2 n l)

append-nil-Differ : (y : ℕ) (xs : List ℕ) → Differ y xs → Differ y (xs ++ [])
append-nil-Differ y xs d = Differ-append y xs [] d tt

append-nil-NoDup : (xs : List ℕ) → NoDup xs → NoDup (xs ++ [])
append-nil-NoDup [] d = tt
append-nil-NoDup (x ∷ xs) d = (append-nil-Differ x xs d.0, append-nil-NoDup xs d.1)

pub IsRing-rotated :
    (c : Ctxs) (t x : ℕ) (xs : List ℕ) → IsRing c t (x ∷ xs) → IsRing c x (rotated t xs)
IsRing-rotated c t x xs h = record {
  chain = Chain-snoc c x xs t x h.chain.2 h.chain.0 h.chain.1;
  distinct =
      NoDup-middle (x ∷ xs) t [] (append-nil-NoDup (x ∷ xs) h.distinct.1)
        (append-nil-Differ t (x ∷ xs) h.distinct.0);
}

Apart-rotated : (ws : List ℕ) (t : ℕ) (ts : List ℕ) → Apart ws (t ∷ ts) → Apart ws (rotated t ts)
Apart-rotated [] t ts a = tt
Apart-rotated (w ∷ ws) t ts a =
    (Differ-append w ts (t ∷ []) a.0.1 (a.0.0, tt), Apart-rotated ws t ts a.1)

IsAgenda-rotated :
    (k : Kern) (t : ℕ) (ts ws : List ℕ)
    → IsAgenda k (t ∷ ts) ws
    → IsAgenda (reset (enter (record k { current_thread = first_of t ts }))) (rotated t ts) ws
IsAgenda-rotated k t [] ws a = record {
  runs = (refl, a.runs.1);
  linked = a.linked;
  apart = a.apart;
  distinct = a.distinct;
  sorted = a.sorted;
}
IsAgenda-rotated k t (x ∷ xs) ws a = record {
  runs = (refl, IsRing-rotated k.ctxs t x xs a.runs.1);
  linked = a.linked;
  apart = Apart-rotated ws t (x ∷ xs) a.apart;
  distinct = a.distinct;
  sorted = a.sorted;
}

-- No thread has been killed.
abbrev pub NoneKilled : Kern → Type 0
NoneKilled k = (y : ℕ) → (k.ctxs y).zombi ≡ false

enter-IsAgenda : (k : Kern) (ts ws : List ℕ) → IsAgenda k ts ws → IsAgenda (enter k) ts ws
enter-IsAgenda k [] ws a = absurd a.runs
enter-IsAgenda k (t ∷ ts) ws a = record {
  runs = a.runs;
  linked = a.linked;
  apart = a.apart;
  distinct = a.distinct;
  sorted = a.sorted;
}

pub scheduler-alive :
    (wait_mq : ℕ) (m : Mail)
    → (m.kern.ctxs m.kern.current_thread).zombi ≡ false
    → scheduler wait_mq m ≡ some (record m { kern = reset (enter m.kern) })
unfolding scheduler
scheduler-alive wait_mq m alive = rw alive

module _ (fuel now wait_mq : ℕ) (m : Mail) (t : ℕ) (ts ws : List ℕ) where
  yield-scheduler :
      (w : Woken (enter m.kern) t ts ws now (wake fuel now (enter m.kern)))
      → yield fuel now wait_mq m
        ≡ scheduler wait_mq
            (record m { kern = record w.kern { current_thread = first_of t (onto w.woken ts) } })
  unfolding yield
  yield-scheduler w = rw (
    w.result,
    w.agenda.runs.0,
    next-first_of w.kern.ctxs t (onto w.woken ts) w.agenda.runs.1.chain,
  )

  switch_irq :
      (b : Bool) (i : Irq)
      → resumed b (disable_it (disable_it i)) ≡ (
          if b
          then record { it = 0; irqs_are_enable = true }
          else record { it = i.it + 2; irqs_are_enable = false })
  unfolding reset_it irq_enable disable_it irq_disable
  switch_irq true i = refl
  switch_irq false i = ground arith

  -- If no thread has been killed and with fuel for the sleeping threads, `yield` wakes exactly those
  -- whose time has come and puts them behind the current thread; then the next one becomes current
  -- and the one that was goes behind all others. Interruptions are enabled then if the one that
  -- becomes current has run before; otherwise it begins with interruptions disabled, two levels deeper.
  pub yield-IsAgenda :
      IsAgenda m.kern (t ∷ ts) ws
      → length ws < fuel
      → NoneKilled m.kern
      → (m' : Mail) × (woken : List ℕ) × (asleep : List ℕ) × (yield fuel now wait_mq m ≡ some m')
        × (ws ≡ woken ++ asleep)
        × AllBefore (time_of m.kern.ctxs) (suc now) woken
        × NoneBefore (time_of m.kern.ctxs) (suc now) asleep
        × IsAgenda m'.kern (rotated t (onto woken ts)) asleep
        × NoneKilled m'.kern
        × (m'.kern.irq ≡ (
            if m.kern.started m'.kern.current_thread
            then record { it = 0; irqs_are_enable = true }
            else record { it = m.kern.irq.it + 2; irqs_are_enable = false }))
  yield-IsAgenda a enough alive =
      let w =
        wake-Woken fuel now t (enter m.kern) ts ws (enter-IsAgenda m.kern (t ∷ ts) ws a) enough in
      let n = first_of t (onto w.woken ts) in
      let still : NoneKilled w.kern = λ y. w.flags y ∙ alive y in
      (
        record m { kern = reset (enter (record w.kern { current_thread = n })) },
        w.woken,
        w.asleep,
        yield-scheduler w
            ∙ scheduler-alive wait_mq (record m { kern = record w.kern { current_thread = n } })
                (still n),
        w.split,
        w.due,
        w.later,
        IsAgenda-rotated w.kern t (onto w.woken ts) w.asleep w.agenda,
        still,
        rw (w.started, w.irq) (switch_irq (m.kern.started n) m.kern.irq),
      )

-- `yield` once for each reading of the clock.
unfoldable pub turns : ℕ → List ℕ → ℕ → Mail → Option Mail
turns fuel [] wait_mq m = some m
turns fuel (now ∷ nows) wait_mq m = do m' ← yield fuel now wait_mq m; turns fuel nows wait_mq m'

none-append : (xs ys : List ℕ) → [] ≡ xs ++ ys → (xs ≡ []) × (ys ≡ [])
none-append [] ys e = (refl, sym e)
none-append (x ∷ xs) ys e = absurd (omega (arith, ap length e))

-- If no thread sleeps and none has been killed, then every active thread becomes the current one
-- after as many calls of `yield` as there are threads before it.
pub turns_reach :
    (fuel wait_mq : ℕ) (nows before : List ℕ) (x : ℕ) (after : List ℕ) (m : Mail)
    → IsAgenda m.kern (before ++ x ∷ after) []
    → NoneKilled m.kern
    → 0 < fuel
    → length nows ≡ length before
    → (m' : Mail) × (turns fuel nows wait_mq m ≡ some m') × (m'.kern.current_thread ≡ x)
unfolding turns
turns_reach fuel wait_mq [] [] x after m a alive pos e = (m, refl, a.runs.0)
turns_reach fuel wait_mq (now ∷ nows) [] x after m a alive pos e = absurd (omega (arith, e))
turns_reach fuel wait_mq [] (t ∷ before) x after m a alive pos e = absurd (omega (arith, e))
turns_reach fuel wait_mq (now ∷ nows) (t ∷ before) x after m a alive pos e =
    let (m1, woken, asleep, run, split, _, _, a1, alive1, _) =
      yield-IsAgenda fuel now wait_mq m t (before ++ x ∷ after) [] a pos alive in
    let (none_woken, none_asleep) = none-append woken asleep split in
    let a2 =
      subst (λ l. IsAgenda m1.kern l []) (append_assoc before (x ∷ after) (t ∷ []))
        (subst (λ l. IsAgenda m1.kern (rotated t (onto l (before ++ x ∷ after))) []) none_woken
          (subst (IsAgenda m1.kern (rotated t (onto woken (before ++ x ∷ after)))) none_asleep
            a1)) in
    let (m2, rest, at) =
      turns_reach fuel wait_mq nows before x (after ++ t ∷ []) m1 a2 alive1 pos
        (omega (arith, e)) in
    (m2, rw (run, rest), at)
