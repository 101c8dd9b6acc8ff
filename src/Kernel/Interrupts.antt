-- ===== src/Kernel/Interrupts.antt =====
-- kernel/ordo3.0/interrupt.c, hw.c: the nesting of critical sections.
use cofi_ty_home.Common.{
  ℕ, ◌+◌, ◌-◌, ◌≡◌, refl, ◌∙◌, ap, Bool, true, false, List, [], ◌∷◌, ◌++◌, arith, ◌==◌, leb,
  if◌then◌else◌,
}

-- `it`, which never is negative, and `irqs_are_enable`.
pub record Irq : Type 0 where
  pub it : ℕ
  pub irqs_are_enable : Bool

unfoldable pub irq_disable : Irq → Irq
irq_disable i = record i { irqs_are_enable = false }

unfoldable pub irq_enable : Irq → Irq
irq_enable i = record i { irqs_are_enable = true }

unfoldable pub disable_it : Irq → Irq
unfolding irq_disable
disable_it i = irq_disable (record i { it = i.it + 1 })

-- `--it <= 0`: at 0 and at 1.
unfoldable pub enable_it : Irq → Irq
unfolding irq_enable
enable_it i = if leb i.it 1 then irq_enable (record i { it = 0 }) else record i { it = i.it - 1 }

unfoldable pub reset_it : Irq → Irq
unfolding irq_enable
reset_it i = irq_enable (record i { it = 0 })

pub data Call : Type 0 where
  disable enable : Call

unfoldable pub run_calls : List Call → Irq → Irq
unfolding disable_it enable_it
run_calls [] i = i
run_calls (disable ∷ cs) i = run_calls cs (disable_it i)
run_calls (enable ∷ cs) i = run_calls cs (enable_it i)

-- Calls in pairs, one inside the other or one after the other.
pub data Paired : List Call → Type 0 where
  nothing : Paired []
  pair :
      (inner after : List Call)
      → Paired inner
      → Paired after
      → Paired (disable ∷ inner ++ (enable ∷ after))

-- Interruptions are enabled exactly outside every critical section.
abbrev pub IsCoherent : Irq → Type 0
IsCoherent i = i.irqs_are_enable ≡ (i.it == 0)

pub run_calls-append :
    (cs ds : List Call) (i : Irq) → run_calls (cs ++ ds) i ≡ run_calls ds (run_calls cs i)
unfolding run_calls
run_calls-append [] ds i = refl
run_calls-append (disable ∷ cs) ds i = run_calls-append cs ds (disable_it i)
run_calls-append (enable ∷ cs) ds i = run_calls-append cs ds (enable_it i)

pub enable-disable : (i : Irq) → IsCoherent i → enable_it (disable_it i) ≡ i
unfolding enable_it disable_it irq_enable irq_disable
enable-disable i h = ground arith

disable-IsCoherent : (i : Irq) → IsCoherent (disable_it i)
unfolding disable_it irq_disable
disable-IsCoherent i = ground arith

-- Calls in pairs leave the level and the state of the interruptions as they were, if interruptions
-- were enabled exactly at level 0.
pub run_calls-Paired : (cs : List Call) (i : Irq) → Paired cs → IsCoherent i → run_calls cs i ≡ i
unfolding run_calls
run_calls-Paired cs i nothing h = refl
run_calls-Paired cs i (pair inner after p q) h =
    run_calls-append inner (enable ∷ after) (disable_it i)
    ∙ ap (λ j. run_calls after (enable_it j))
        (run_calls-Paired inner (disable_it i) p (disable-IsCoherent i))
    ∙ ap (run_calls after) (enable-disable i h)
    ∙ run_calls-Paired after i q h
