-- ===== src/Kernel/Rounds.antt =====
-- kernel/ordo3.0/scheduler.c: `scheduler`, `yield`, `sleep`, `kill`, `delete_current_thread` and `wait`.
-- A switch of contexts makes the program go on where the thread that is current then has been
-- suspended, behind its own call of `switch_to_ctx`, or where its function begins: the state is the
-- one that it sees.
pub mod Turns
pub mod Reaping
pub mod Sleeping
use cofi_ty_home.Common.{
  ℕ, ◌+◌, ◌-◌, ◌*◌, ◌/◌, ◌%◌, ◌≡◌, Bool, true, false, Option, none, some, ◌>>=◌, ◌||◌, List, [],
  ◌∷◌, ◌==◌, ltb, if◌then◌else◌, Text,
}
use cofi_ty_home.Common.Int.{ℤ, pos, negsuc}
use cofi_ty_home.Kernel.Interrupts.{Irq, reset_it}
use cofi_ty_home.Kernel.Threads.{Kern, put, disable_current_thread}
use cofi_ty_home.Kernel.Threads.Sleep.{fall_asleep, wake}
use cofi_ty_home.Kernel.Queues.{
  Mail, enter, leave, send_message, Received, got, waits, receive_message,
}

-- An `int` in the four bytes of memory, the lowest first.
abbrev pub word : ℤ → ℕ
word (pos n) = n % 4294967296
word (negsuc n) = 4294967295 - n % 4294967296

unfoldable pub int_bytes : ℤ → Text
int_bytes z =
    word z % 256 ∷ word z / 256 % 256 ∷ word z / 65536 % 256 ∷ word z / 16777216 % 256 ∷ []

-- The value of four bytes as an index; `none` is a text of another length, which leaves part of the
-- variable undefined.
unfoldable pub bytes_int : Text → Option ℕ
bytes_int (a ∷ b ∷ c ∷ d ∷ []) = some (a + 256 * b + 65536 * c + 16777216 * d)
bytes_int _ = none

-- The thread that is switched to calls `reset_it` if it comes back from a switch of its own; one that
-- has not run yet begins its function instead.
abbrev pub resumed : Bool → Irq → Irq
resumed true i = reset_it i
resumed false i = i

abbrev pub reset : Kern → Kern
reset k = record k {
  irq = resumed (k.started k.current_thread) k.irq;
  started = (λ y. k.started y || (y == k.current_thread));
}

unfoldable pub scheduler : ℕ → Mail → Option Mail
unfolding int_bytes
scheduler wait_mq m =
    let m0 : Mail = record m { kern = enter m.kern } in
    if (m.kern.ctxs m.kern.current_thread).zombi
    then (do
      m1 ← send_message wait_mq (int_bytes (m.kern.ctxs m.kern.current_thread).id) 4 m0
      k ← disable_current_thread m1.kern
      some (record m1 { kern = reset k }))
    else some (record m0 { kern = reset m0.kern })

-- `now` is `time (NULL)`.
unfoldable pub yield : ℕ → ℕ → ℕ → Mail → Option Mail
unfolding scheduler
yield fuel now wait_mq m = do
  k ← wake fuel now (enter m.kern)
  next ← (k.ctxs k.current_thread).next
  scheduler wait_mq (record m { kern = record k { current_thread = next } })

unfoldable pub sleep : ℕ → ℕ → ℕ → ℕ → Mail → Option Mail
unfolding fall_asleep scheduler
sleep fuel now seconds wait_mq m = do
  k ← fall_asleep fuel now seconds m.kern
  scheduler wait_mq (record m { kern = k })

unfoldable pub kill : ℕ → Kern → Kern
kill pid k =
    let k0 = enter k in
    if ltb 255 pid then leave k0 else elim (k.threads pid) [
      | none ↦ leave k0
      | some t ↦ leave (record k0 { ctxs = put k.ctxs t (record (k.ctxs t) { zombi = true }) })
    ]

unfoldable pub delete_current_thread : ℕ → Mail → Option Mail
unfolding int_bytes scheduler
delete_current_thread wait_mq m = do
  m1 ←
      send_message wait_mq (int_bytes (m.kern.ctxs m.kern.current_thread).id) 4
        (record m { kern = enter m.kern })
  k ← disable_current_thread m1.kern
  scheduler wait_mq (record m1 { kern = k })

-- The thread that has ended is read and freed, and its entry cleared; the id is its result.
unfoldable pub reap : Text → Mail → Option (ℕ × Mail)
unfolding bytes_int
reap t m = do
  i ← bytes_int t
  ended ← m.kern.threads i
  some (
    i,
    record m {
      kern = record m.kern { threads = (λ x. if i == x then none else m.kern.threads x) };
    },
  )

unfoldable pub wait : ℕ → Mail → Option (Option (ℕ × Mail))
unfolding reap
wait wait_mq m = do
  r ← receive_message wait_mq 4 m
  elim r [ got t m' ↦ (do w ← reap t m'; some (some w)) | waits m' ↦ some none ]
