-- ===== src/Server/Console/Polling.antt =====
-- server/src/main.c: the main loop over what `epoll_wait` returns. That a call sets `errno` when it
-- fails, and leaves it as it is otherwise, is as documented.
use cofi_ty_home.Common.{◌≡◌, refl, ap, Bool, true, false, List, [], ◌∷◌, if◌then◌else◌, Text}
use mathlib.Core.Path.{fun_ext}
use cofi_ty_home.Server.Console.{
  Calls, Console, Step, goes, exits, after, command_of, run_command, main_loop,
}

-- A line on the standard input, `EINTR`, or another error.
pub data Poll : Type 0 where
  line : Text → Poll
  interrupted failed : Poll

module _ (calls : Calls) where
  -- `eintr` says whether `errno` is `EINTR`. The inner loop asks again as long as it is, also behind
  -- a call that has found a line, which stays in the input.
  unfoldable pub poll_loop : List Poll → Bool → Console → Step
  poll_loop [] eintr k = goes k
  poll_loop (line t ∷ ps) true k = poll_loop ps true k
  poll_loop (line t ∷ ps) false k =
      after calls (run_command calls (command_of t) k)
        (λ k'. if k'.done then goes k' else poll_loop ps false k')
  poll_loop (interrupted ∷ ps) eintr k = poll_loop ps true k
  poll_loop (failed ∷ ps) eintr k = exits k

-- No other error than an interruption.
abbrev pub NoneFails : List Poll → Type 0
NoneFails [] = Unit
NoneFails (line t ∷ ps) = NoneFails ps
NoneFails (interrupted ∷ ps) = NoneFails ps
NoneFails (failed ∷ ps) = ⊥

-- The lines that come before the first interruption.
abbrev pub served : List Poll → List Text
served [] = []
served (line t ∷ ps) = t ∷ served ps
served (interrupted ∷ ps) = []
served (failed ∷ ps) = []

module _ (calls : Calls) where
  poll_loop_deaf :
      (ps : List Poll) (k : Console) → NoneFails ps → poll_loop calls ps true k ≡ goes k
  unfolding poll_loop
  poll_loop_deaf [] k h = refl
  poll_loop_deaf (line t ∷ ps) k h = poll_loop_deaf ps k h
  poll_loop_deaf (interrupted ∷ ps) k h = poll_loop_deaf ps k h
  poll_loop_deaf (failed ∷ ps) k h = elim h [ ]

  -- If epoll_wait fails only by interruptions, then the main loop serves the lines that come before
  -- the first of these, as long as the server is not to quit, and none that come behind it: a signal,
  -- such as the alarm of the timer, makes the console deaf.
  pub poll_loop-main_loop :
      (ps : List Poll) (k : Console)
      → NoneFails ps
      → poll_loop calls ps false k ≡ main_loop calls (served ps) k
  unfolding poll_loop main_loop
  poll_loop-main_loop [] k h = refl
  poll_loop-main_loop (line t ∷ ps) k h =
      ap (after calls (run_command calls (command_of t) k))
        (fun_ext λ k'. ap (λ s. if k'.done then goes k' else s) (poll_loop-main_loop ps k' h))
  poll_loop-main_loop (interrupted ∷ ps) k h = poll_loop_deaf ps k h
  poll_loop-main_loop (failed ∷ ps) k h = elim h [ ]
