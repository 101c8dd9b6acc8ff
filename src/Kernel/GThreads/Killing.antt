-- ===== src/Kernel/GThreads/Killing.antt =====
-- `killThreadById` looks for the thread among the active ones only.
use cofi_ty_home.Common.{
  ℕ, zero, suc, ◌<◌, ◌≡◌, refl, true, false, Option, none, some, List, [], ◌∷◌, arith, length,
}
use cofi_ty_home.Common.Int.{ℤ, eq_ℤ}
use cofi_ty_home.Kernel.Links.{Linked}
use cofi_ty_home.Kernel.GThreads.Lists.{Store, GKern, disable_interrupt, enable_interrupt}
use cofi_ty_home.Kernel.GThreads.Switching.{is_protected, find_id, kill_thread_by_id}
use cofi_ty_home.Kernel.GThreads.Removal.{link}
use cofi_ty_home.Kernel.GThreads.Ending.{Lists}

-- No thread of a list has the id.
abbrev pub NoneHas : Store → ℤ → List ℕ → Type 0
NoneHas s id [] = Unit
NoneHas s id (t ∷ ts) = (eq_ℤ (s t).id id ≡ false) × NoneHas s id ts

find_id-missing :
    (fuel : ℕ) (s : Store) (id : ℤ) (q : Option ℕ) (ts : List ℕ)
    → Linked (link s) q ts
    → NoneHas s id ts
    → length ts < fuel
    → find_id fuel s id q ≡ some none
unfolding find_id
find_id-missing zero s id q ts h n lt = absurd (omega arith)
find_id-missing (suc fuel) s id q [] h n lt = rw h refl
find_id-missing (suc fuel) s id q (t ∷ ts) h n lt =
    rw (h.0, n.0) (find_id-missing fuel s id (s t).next ts h.1 n.1 (omega arith))

-- With fuel for the active threads, killThreadById of an id that none of them has, and that is
-- not protected, is refused and changes nothing but the interruptions, which are enabled then, even
-- if a thread that sleeps has it.
pub kill_thread_by_id-missing :
    (fuel : ℕ) (id : ℤ) (k : GKern) (ts : List ℕ)
    → Linked (link k.store) k.first_thread ts
    → NoneHas k.store id ts
    → is_protected id ≡ false
    → length ts < fuel
    → kill_thread_by_id fuel id k ≡ some (false, record k { it_enabled = true })
unfolding kill_thread_by_id disable_interrupt enable_interrupt
kill_thread_by_id-missing fuel id k ts h n free lt =
    rw (free, find_id-missing fuel k.store id k.first_thread ts h n lt) refl
