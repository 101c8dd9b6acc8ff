-- ===== src/Kernel/FirstThreadExamples.antt =====
-- Three threads in the first scheduler, the last of which is current.
use cofi_ty_home.Kernel.FirstThreads.Stacks.{Saved, save_ctx, restore_ctx, save_ctx-restore_ctx}
use cofi_ty_home.Common.{
  ℕ, ◌-◌, ◌<◌, ◌≤◌, ◌⊎◌, ◌≡◌, refl, true, some, none, [], arith, ◌==◌, if◌then◌else◌,
}
use cofi_ty_home.Kernel.FirstThreads.{Task, Tasks, exit_task, exit_task-looped}

abbrev in_row : ℕ → Task
in_row p =
    if p == 1
    then record { next = some 2; id = 12 }
    else if p == 2
    then record { next = some 3; id = 11 }
    else record { next = none; id = 10 }

abbrev three_tasks : Tasks
three_tasks = record {
  store = in_row;
  first_thread = some 1;
  current_thread = some 3;
  id_counter = 13;
  irq_enabled = true;
  freed = [];
}

exit_task-looped_example :
    (k' : Tasks) × (exit_task 9 three_tasks ≡ some k')
    × (k'.current_thread ≡ some 1)
    × ((k'.store 1).next ≡ some 1)
    × (k'.irq_enabled ≡ true)
exit_task-looped_example =
    exit_task-looped 7 1 2 3 three_tasks refl refl refl refl refl (λ e. omega (arith, e))

-- A stack from word 500 down to word 480, in a memory where each word holds its address.
abbrev blank_copy : Saved
blank_copy = record { size = 0; stack = λ i. 0 }

save_ctx-restore_ctx_example :
    (saved : Saved) × (save_ctx 500 480 (λ a. a) blank_copy ≡ some saved)
    × ((j : ℕ) → j < 20 → restore_ctx 500 saved (λ a. 7) (500 - j) ≡ 500 - j)
    × ((a : ℕ) → (a ≤ 480) ⊎ (500 < a) → restore_ctx 500 saved (λ a. 7) a ≡ 7)
save_ctx-restore_ctx_example =
    save_ctx-restore_ctx 500 480 (λ a. a) (λ a. 7) blank_copy (omega arith) (omega arith)
