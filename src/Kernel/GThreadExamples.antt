-- ===== src/Kernel/GThreadExamples.antt =====
-- Three active threads, of which the second is current, and one that has ended.
use cofi_ty_home.Common.{
  ℕ, ◌≡◌, refl, true, false, none, some, List, [], ◌∷◌, arith, ◌==◌, if◌then◌else◌, codes, Text,
}
use cofi_ty_home.Common.Int.{pos}
use cofi_ty_home.Kernel.GThreads.Lists.{Store, GKern}
use cofi_ty_home.Kernel.GThreads.Switching.{goes_on, exit_current_thread}
use cofi_ty_home.Kernel.GThreads.Waiting.{Semaphore}
use cofi_ty_home.Kernel.GThreads.Removal.{or_option}
use cofi_ty_home.Kernel.GThreads.Ending.{Lists, exit_current_thread-Lists}

-- Threads 1, 2 and 3 are active, 9 has ended; 4 sleeps.
abbrev links : Store
links p =
    if p == 1
    then record { next = some 2; id = pos 7; time_to_wait = 0; to_delete = false }
    else if p == 2
    then record { next = some 3; id = pos 5; time_to_wait = 0; to_delete = false }
    else if p == 3
    then record { next = none; id = pos 0; time_to_wait = 0; to_delete = false }
    else if p == 4
    then record { next = none; id = pos 9; time_to_wait = 60; to_delete = false }
    else record { next = none; id = pos 3; time_to_wait = 0; to_delete = true }

abbrev running : GKern
running = record {
  store = links;
  first_thread = some 1;
  current_thread = some 2;
  thread_for_deletion = some 9;
  thread_in_waiting_state = some 4;
  counter = pos 10;
  it_enabled = true;
  freed = [];
}

running-Lists : Lists running (1 ∷ 2 ∷ 3 ∷ []) (9 ∷ [])
running-Lists = record {
  runs = (refl, (refl, (refl, refl)));
  ends = (refl, refl);
  distinct = (
    ((λ e. omega (arith, e)), ((λ e. omega (arith, e)), tt)),
    (((λ e. omega (arith, e)), tt), (tt, tt)),
  );
  apart = (((λ e. omega (arith, e)), ((λ e. omega (arith, e)), ((λ e. omega (arith, e)), tt))), tt);
}

exit_current_thread-Lists_example :
    (k' : GKern) × (exit_current_thread 9 running ≡ some (goes_on k'))
    × Lists k' (1 ∷ 3 ∷ []) (2 ∷ 9 ∷ [])
    × (k'.current_thread ≡ or_option (some 3) (some 1))
    × (k'.it_enabled ≡ true)
    × (k'.freed ≡ running.freed)
exit_current_thread-Lists_example =
    exit_current_thread-Lists 9 2 1 running (1 ∷ []) (3 ∷ []) (3 ∷ []) (9 ∷ []) running-Lists refl
      refl refl (omega arith)

-- The id is that of the sleeping thread.

abbrev three_coins : Semaphore
three_coins = record { counter = pos 3; in_wait = none }

abbrev two_messages : List (Text × ℕ)
two_messages = (codes "hello", 4) ∷ (codes "bye", 3) ∷ []
