-- ===== src/Kernel/FirstThreads/Stacks.antt =====
-- kernel/ordo/gThreads.c: `saveCtx`, the copies of a thread's stack. Memory is counted in words; the
-- registers and the jumps are outside.
use cofi_ty_home.Common.{
  ℕ, zero, suc, ◌+◌, ◌-◌, ◌≤◌, ◌<◌, ◌≡◌, refl, ◌∙◌, ◌⊎◌, inl, inr, Option, none, some, arith, ◌==◌,
  ltb, lt→ltb, if◌then◌else◌, ℕ_discrete,
}
use mathlib.Core.Path.{subst}

-- `STACK_SIZE`.
abbrev pub stack_size : ℕ
stack_size = 1000

unfoldable pub write_at : (ℕ → ℕ) → ℕ → ℕ → ℕ → ℕ
write_at f i v x = if i == x then v else f x

pub record Saved : Type 0 where
  pub size : ℕ
  pub stack : ℕ → ℕ

-- `for (i = 0; …) task->stack[i] = ebp[-i]`, with `left` rounds to go.
unfoldable pub copy_out : ℕ → ℕ → (ℕ → ℕ) → ℕ → (ℕ → ℕ) → ℕ → ℕ
copy_out zero i memory ebp stack = stack
copy_out (suc left) i memory ebp stack =
    copy_out left (i + 1) memory ebp (write_at stack i (memory (ebp - i)))

-- `for (i = 0; …) *(ebp - i) = currentThread->stack[i]`.
unfoldable pub copy_in : ℕ → ℕ → (ℕ → ℕ) → ℕ → (ℕ → ℕ) → ℕ → ℕ
copy_in zero i stack ebp memory = memory
copy_in (suc left) i stack ebp memory =
    copy_in left (i + 1) stack ebp (write_at memory (ebp - i) (stack i))

-- The first return of `saveCtx`; `none` is `exit (ERROR_STACK_OVERFLOW)`.
unfoldable pub save_ctx : ℕ → ℕ → (ℕ → ℕ) → Saved → Option Saved
unfolding copy_out
save_ctx ebp esp memory task =
    if ltb (ebp - esp) stack_size
    then some (record { size = ebp - esp; stack = copy_out (ebp - esp) 0 memory ebp task.stack })
    else none

-- The second return, behind a jump to the thread.
unfoldable pub restore_ctx : ℕ → Saved → (ℕ → ℕ) → ℕ → ℕ
unfolding copy_in
restore_ctx ebp task memory = copy_in task.size 0 task.stack ebp memory

write_at_other : (f : ℕ → ℕ) (i v x : ℕ) → (i < x) ⊎ (x < i) → write_at f i v x ≡ f x
unfolding write_at
write_at_other f i v x (inl lt) = ground arith
write_at_other f i v x (inr lt) = ground arith

write_at_self : (f : ℕ → ℕ) (i v : ℕ) → write_at f i v i ≡ v
unfolding write_at
write_at_self f i v = ground arith

copy_out-before :
    (left i : ℕ) (memory : ℕ → ℕ) (ebp : ℕ) (stack : ℕ → ℕ) (j : ℕ)
    → j < i
    → copy_out left i memory ebp stack j ≡ stack j
unfolding copy_out
copy_out-before zero i memory ebp stack j lt = refl
copy_out-before (suc left) i memory ebp stack j lt =
    copy_out-before left (i + 1) memory ebp _ j (omega arith)
    ∙ write_at_other stack i (memory (ebp - i)) j (inr lt)

copy_out-memory :
    (left i : ℕ) (memory : ℕ → ℕ) (ebp : ℕ) (stack : ℕ → ℕ) (j : ℕ)
    → i ≤ j
    → j < i + left
    → copy_out left i memory ebp stack j ≡ memory (ebp - j)
unfolding copy_out
copy_out-memory zero i memory ebp stack j le lt = absurd (omega arith)
copy_out-memory (suc left) i memory ebp stack j le lt = elim (ℕ_discrete i j) [
  | yes same ↦
      copy_out-before left (i + 1) memory ebp _ j (omega (arith, same))
      ∙ subst (λ k. write_at stack i (memory (ebp - i)) k ≡ memory (ebp - k)) same
          (write_at_self stack i (memory (ebp - i)))
  | no other ↦ copy_out-memory left (i + 1) memory ebp _ j (omega (arith, other)) (omega arith)
]

copy_in-outside :
    (left i : ℕ) (stack : ℕ → ℕ) (ebp : ℕ) (memory : ℕ → ℕ) (a : ℕ)
    → i + left ≤ ebp
    → (a ≤ ebp - (i + left)) ⊎ (ebp - i < a)
    → copy_in left i stack ebp memory a ≡ memory a
unfolding copy_in
copy_in-outside zero i stack ebp memory a fits out = refl
copy_in-outside (suc left) i stack ebp memory a fits (inl low) =
    copy_in-outside left (i + 1) stack ebp _ a (omega arith) (inl (omega arith))
    ∙ write_at_other memory (ebp - i) (stack i) a (inr (omega arith))
copy_in-outside (suc left) i stack ebp memory a fits (inr high) =
    copy_in-outside left (i + 1) stack ebp _ a (omega arith) (inr (omega arith))
    ∙ write_at_other memory (ebp - i) (stack i) a (inl high)

copy_in-stack :
    (left i : ℕ) (stack : ℕ → ℕ) (ebp : ℕ) (memory : ℕ → ℕ) (j : ℕ)
    → i + left ≤ ebp
    → i ≤ j
    → j < i + left
    → copy_in left i stack ebp memory (ebp - j) ≡ stack j
unfolding copy_in
copy_in-stack zero i stack ebp memory j fits le lt = absurd (omega arith)
copy_in-stack (suc left) i stack ebp memory j fits le lt = elim (ℕ_discrete i j) [
  | yes same ↦
      copy_in-outside left (i + 1) stack ebp _ (ebp - j) (omega arith) (inr (omega (arith, same)))
      ∙ subst (λ k. write_at memory (ebp - i) (stack i) (ebp - k) ≡ stack k) same
          (write_at_self memory (ebp - i) (stack i))
  | no other ↦
      copy_in-stack left (i + 1) stack ebp _ j (omega arith) (omega (arith, other)) (omega arith)
]

-- If the stack of a thread has fewer words than its copy has room for, then saveCtx saves it, and
-- when the thread goes on, whatever the others have written, the words from ebp down to the last one
-- above esp are as they were, and no other word has changed.
pub save_ctx-restore_ctx :
    (ebp esp : ℕ) (memory later : ℕ → ℕ) (task : Saved)
    → esp ≤ ebp
    → ebp - esp < stack_size
    → (saved : Saved) × (save_ctx ebp esp memory task ≡ some saved)
      × ((j : ℕ) → j < ebp - esp → restore_ctx ebp saved later (ebp - j) ≡ memory (ebp - j))
      × ((a : ℕ) → (a ≤ esp) ⊎ (ebp < a) → restore_ctx ebp saved later a ≡ later a)
unfolding save_ctx restore_ctx
save_ctx-restore_ctx ebp esp memory later task le small =
    let stack = copy_out (ebp - esp) 0 memory ebp task.stack in
    (
      record { size = ebp - esp; stack = stack },
      rw (lt→ltb (ebp - esp) stack_size small),
      (λ j lt.
          copy_in-stack (ebp - esp) 0 stack ebp later j (omega arith) (omega arith) (omega arith)
          ∙ copy_out-memory (ebp - esp) 0 memory ebp task.stack j (omega arith) (omega arith)),
      λ a out. copy_in-outside (ebp - esp) 0 stack ebp later a (omega arith) (outside a out),
    )
  where
    outside : (a : ℕ) → (a ≤ esp) ⊎ (ebp < a) → (a ≤ ebp - (0 + (ebp - esp))) ⊎ (ebp - 0 < a)
    outside a (inl low) = inl (omega arith)
    outside a (inr high) = inr (omega arith)
