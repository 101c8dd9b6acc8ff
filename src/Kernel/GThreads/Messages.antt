-- ===== src/Kernel/GThreads/Messages.antt =====
-- Messages in their order, and the calls that leave interruptions disabled.
use cofi_ty_home.Common.{
  ℕ, suc, ◌≡◌, ◌≢◌, refl, sym, ap, ◌∙◌, false, Option, none, some, List, [], ◌∷◌, ◌++◌, Text, take,
  arith, length, ◌>>=◌, zero,
}
use mathlib.Core.List.{append_assoc, append-nil}
use cofi_ty_home.Common.Int.{pos, negsuc, add_ℤ, eq_ℤ}
use cofi_ty_home.Kernel.GThreads.Lists.{GKern, disable_interrupt, enable_interrupt}
use cofi_ty_home.Kernel.GThreads.Switching.{yield}
use cofi_ty_home.Kernel.GThreads.Waiting.{
  Semaphore, MessageQueue, taken, suspended, sem_take, receive_message, send_message,
}

-- `yield` does nothing, whatever the time.
abbrev pub IsDeaf : GKern → Type 0
IsDeaf k = (fuel now : ℕ) → yield fuel now k ≡ some k

disabled-IsDeaf : (k : GKern) → IsDeaf (disable_interrupt k)
unfolding yield disable_interrupt
disabled-IsDeaf k fuel now = refl

one_less : (n : ℕ) → add_ℤ (pos (suc n)) (negsuc 0) ≡ pos n
unfolding add_ℤ
one_less n = ground arith

-- A semTake that does not suspend its caller leaves interruptions disabled: no yield switches to
-- another thread after it.
pub sem_take-IsDeaf :
    (fuel n : ℕ) (sem : Semaphore) (k : GKern)
    → sem.counter ≡ pos (suc n)
    → (k' : GKern) × (sem_take fuel sem k ≡ some (taken (record sem { counter = pos n }, k')))
      × IsDeaf k'
unfolding sem_take
sem_take-IsDeaf fuel n sem k e =
    let some_left : eq_ℤ sem.counter (pos 0) ≡ false = ap (λ z. eq_ℤ z (pos 0)) e ∙ ground arith in
    let less : add_ℤ sem.counter (negsuc 0) ≡ pos n = ap (λ z. add_ℤ z (negsuc 0)) e ∙ one_less n in
    (disable_interrupt k, rw (some_left, less) refl, disabled-IsDeaf k)

-- A message without bytes is not sent, and interruptions stay disabled: no yield switches to another
-- thread after it.
pub send_message-IsDeaf :
    (q : MessageQueue) (t : Text) (k : GKern)
    → (k' : GKern) × (send_message q t 0 k ≡ (q, k')) × IsDeaf k'
unfolding send_message
send_message-IsDeaf q t k = (disable_interrupt k, refl, disabled-IsDeaf k)

-- Several messages, each with its size, sent one after the other.
unfoldable pub send_all : MessageQueue → List (Text × ℕ) → GKern → MessageQueue × GKern
unfolding send_message
send_all q [] k = (q, k)
send_all q (m ∷ ms) k = let r = send_message q m.0 m.1 k in send_all r.0 ms r.1

-- As many receptions as the number says, of which none suspends the caller.
unfoldable pub receive_all : ℕ → ℕ → MessageQueue → GKern → Option (List Text)
unfolding receive_message
receive_all fuel zero q k = some []
receive_all fuel (suc n) q k = do
  r ← receive_message fuel q k
  elim r [
    | suspended x ↦ none
    | taken x ↦ (do t ← x.0; rest ← receive_all fuel n x.1.0 x.1.1; some (t ∷ rest))
  ]

abbrev pub cut : List (Text × ℕ) → List Text
cut [] = []
cut (m ∷ ms) = take m.1 m.0 ∷ cut ms

abbrev pub AllSized : List (Text × ℕ) → Type 0
AllSized [] = Unit
AllSized (m ∷ ms) = (m.1 ≢ 0) × AllSized ms

-- A box for which nobody waits.
abbrev pub box : List Text → MessageQueue
box ts = record { in_box = ts; in_wait = none }

send_message-box :
    (ts : List Text) (t : Text) (n : ℕ) (k : GKern)
    → n ≢ 0
    → send_message (box ts) t n k
      ≡ (box (ts ++ take n t ∷ []), enable_interrupt (disable_interrupt k))
unfolding send_message
send_message-box ts t n k ne = ground arith

send_all-box :
    (ts : List Text) (ms : List (Text × ℕ)) (k : GKern)
    → AllSized ms
    → (k' : GKern) × (send_all (box ts) ms k ≡ (box (ts ++ cut ms), k'))
unfolding send_all
send_all-box ts [] k h = (k, rw (append-nil ts) refl)
send_all-box ts (m ∷ ms) k h =
    let (k', e) =
      send_all-box (ts ++ take m.1 m.0 ∷ []) ms (enable_interrupt (disable_interrupt k)) h.1 in
    (
      k',
      rw (send_message-box ts m.0 m.1 k h.0)
          (e ∙ ap (λ l. (box l, k')) (append_assoc ts (take m.1 m.0 ∷ []) (cut ms))),
    )

receive_all-box :
    (fuel : ℕ) (ts : List Text) (k : GKern) → receive_all fuel (length ts) (box ts) k ≡ some ts
unfolding receive_all receive_message
receive_all-box fuel [] k = refl
receive_all-box fuel (t ∷ ts) k =
    rw (receive_all-box fuel ts (enable_interrupt (disable_interrupt k))) refl

length-cut : (ms : List (Text × ℕ)) → length (cut ms) ≡ length ms
length-cut [] = refl
length-cut (m ∷ ms) = ap suc (length-cut ms)

-- If nobody waits for an empty box, messages that are sent to it one after the other, none of size 0,
-- are received in the same order, each cut to its size, and no reception suspends its caller.
pub receive_all-send_all :
    (fuel : ℕ) (ms : List (Text × ℕ)) (k : GKern)
    → AllSized ms
    → receive_all fuel (length ms) (send_all (box []) ms k).0 (send_all (box []) ms k).1
      ≡ some (cut ms)
receive_all-send_all fuel ms k h =
    let (k', e) = send_all-box [] ms k h in
    rw e (
      ap (λ n. receive_all fuel n (box (cut ms)) k') (sym (length-cut ms))
      ∙ receive_all-box fuel (cut ms) k')
