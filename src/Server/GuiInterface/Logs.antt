-- ===== src/Server/GuiInterface/Logs.antt =====
-- The lines that `logValue` (server/src/sensors.c) writes, as `processTypeHistory` reads them.
use cofi_ty_home.Common.{
  ℕ, zero, suc, ◌+◌, ◌/◌, ◌%◌, ◌-◌, ◌<◌, ◌≡◌, ◌≢◌, refl, ap, some, [], ◌∷◌, ◌++◌, Text, length,
  take, arith, length-append, dec_lt, lt→ltb, le→ltb,
}
use cofi_ty_home.Common.Int.{ℤ, pos, negsuc}
use cofi_ty_home.Server.Sensors.{LogValue}
use cofi_ty_home.Common.Printing.{digits, decimal}
use cofi_ty_home.Server.GuiInterface.History.{first_word, next_token, four_tokens}

-- `fprintf (…, "%d %s %s %d\n", …)`.
unfoldable pub log_line : ℤ → LogValue → Text
unfolding decimal
log_line time v = decimal time ++ 32 ∷ (v.id ++ 32 ∷ (v.name ++ 32 ∷ (decimal v.value ++ 10 ∷ [])))

abbrev pub NoSpace : Text → Type 0
NoSpace [] = Unit
NoSpace (b ∷ t) = (b ≢ 32) × NoSpace t

-- A text that is not empty and has no space.
abbrev pub IsWord : Text → Type 0
IsWord [] = ⊥
IsWord (b ∷ t) = NoSpace (b ∷ t)

first_word-space : (s rest : Text) → NoSpace s → first_word (s ++ 32 ∷ rest) ≡ (s, rest)
first_word-space [] rest h = refl
first_word-space (b ∷ s) rest h = ground (arith, h.0, first_word-space s rest h.1)

first_word-end : (s : Text) → NoSpace s → first_word s ≡ (s, [])
first_word-end [] h = refl
first_word-end (b ∷ s) h = ground (arith, h.0, first_word-end s h.1)

next_token-space : (s rest : Text) → IsWord s → next_token (s ++ 32 ∷ rest) ≡ some (s, rest)
unfolding next_token
next_token-space [] rest h = absurd h
next_token-space (b ∷ s) rest h = ground (arith, h.0, first_word-space s rest h.1)

next_token-end : (s : Text) → IsWord s → next_token s ≡ some (s, [])
unfolding next_token
next_token-end [] h = absurd h
next_token-end (b ∷ s) h = ground (arith, h.0, first_word-end s h.1)

NoSpace-append : (s t : Text) → NoSpace s → NoSpace t → NoSpace (s ++ t)
NoSpace-append [] t h k = k
NoSpace-append (b ∷ s) t h k = (h.0, NoSpace-append s t h.1 k)

IsWord-append : (s t : Text) → NoSpace s → IsWord t → IsWord (s ++ t)
IsWord-append [] t h k = k
IsWord-append (b ∷ s) [] h k = absurd k
IsWord-append (b ∷ s) (c ∷ t) h k = (h.0, NoSpace-append s (c ∷ t) h.1 k)

IsWord-NoSpace : (s : Text) → IsWord s → NoSpace s
IsWord-NoSpace [] h = absurd h
IsWord-NoSpace (b ∷ s) h = h

digits-IsWord : (fuel n : ℕ) → n < fuel → IsWord (digits fuel n)
unfolding digits
digits-IsWord zero n lt = absurd (omega arith)
digits-IsWord (suc fuel) n lt = elim (dec_lt n 10) [
  | yes small ↦ rw (lt→ltb n 10 small) ((λ e. omega (arith, e)), tt)
  | no large ↦ rw (le→ltb n 10 (omega arith)) (
      IsWord-append (digits fuel (n / 10)) ((b'0' + n % 10) ∷ [])
        (IsWord-NoSpace (digits fuel (n / 10)) (digits-IsWord fuel (n / 10) (omega arith)))
        ((λ e. omega (arith, e)), tt))
]

decimal-IsWord : (z : ℤ) → IsWord (decimal z)
unfolding decimal
decimal-IsWord (pos n) = digits-IsWord (suc n) n (omega arith)
decimal-IsWord (negsuc n) = (
  (λ e. omega (arith, e)),
  IsWord-NoSpace (digits (suc (suc n)) (suc n)) (digits-IsWord (suc (suc n)) (suc n) (omega arith)),
)

take-first : (s rest : Text) → take (length s) (s ++ rest) ≡ s
take-first [] rest = refl
take-first (b ∷ s) rest = ap (◌∷◌ b) (take-first s rest)

take-line : (s : Text) → take (length (s ++ 10 ∷ []) - 1) (s ++ 10 ∷ []) ≡ s
take-line s =
    let e : length (s ++ 10 ∷ []) - 1 ≡ length s = omega (arith, length-append s (10 ∷ [])) in
    rw e (take-first s (10 ∷ []))

-- If the id and the name of a value are not empty and have no spaces, the tokens of the line that
-- logValue writes for it are the time, the id, the name and the value.
pub four_tokens-log_line :
    (time : ℤ) (v : LogValue)
    → IsWord v.id
    → IsWord v.name
    → four_tokens (log_line time v) ≡ some (decimal time, (v.id, (v.name, decimal v.value)))
unfolding four_tokens log_line
four_tokens-log_line time v id name = rw (
  next_token-space (decimal time) _ (decimal-IsWord time),
  next_token-space v.id _ id,
  next_token-space v.name _ name,
  next_token-end (decimal v.value ++ 10 ∷ []) (
      IsWord-append (decimal v.value) (10 ∷ [])
        (IsWord-NoSpace (decimal v.value) (decimal-IsWord v.value)) ((λ e. omega (arith, e)), tt)),
  take-line (decimal v.value),
)
