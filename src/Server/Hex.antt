-- ===== src/Server/Hex.antt =====
-- server/src/actionneurs.c: the conversions between numbers and their digits.
use native.Mathlib.Nat.{div-lt_self, div-lt_iff_lt-mul, mod-lt, mod-add-div}
use cofi_ty_home.Common.{
  ap, true, false, ℕ, zero, suc, ◌+◌, ◌-◌, ◌*◌, ◌/◌, ◌%◌, ◌≤◌, ◌<◌, ◌≡◌, Option, none, some, ◌>>=◌,
  [], ◌∷◌, ◌++◌, arith, ◌==◌, leb, ◌&&◌, if◌then◌else◌, length, drop, Text, Bool-cases, inl, inr,
}

-- The character of one digit: letters from ten to fifteen, `'0' + reste` otherwise.
unfoldable pub digit_char : ℕ → ℕ
digit_char reste =
    if reste == 10
    then b'A'
    else if reste == 11
    then b'B'
    else if reste == 12
    then b'C'
    else if reste == 13
    then b'D'
    else if reste == 14
    then b'E'
    else if reste == 15
    then b'F'
    else b'0' + reste

-- The loop `while (n > 0)`, which leaves the digits in reverse order; `none` is a loop that
-- the fuel does not end.
unfoldable pub reverse_digits : ℕ → ℕ → ℕ → Option Text
reverse_digits zero n radix = none
reverse_digits (suc fuel) n radix =
    let rest = reverse_digits fuel (n / radix) radix in
    if n == 0 then some [] else (do ds ← rest; some (digit_char (n % radix) ∷ ds))

-- `strncpy (buffer, reverseBuffer, i)`: the digits replace the first bytes of the buffer.
unfoldable pub overwrite : Text → Text → Text
overwrite ds buffer = ds ++ drop (length ds) buffer

-- `reverseBuffer`, which `gMalloc` gives, has `sizeof (char *) + 1` bytes, for the digits and a zero; no
-- result stands for a byte behind them.
unfoldable pub itochar : ℕ → Text → ℕ → Option Text
unfolding reverse_digits overwrite
itochar to_be_trans buffer radix = do
  ds ← reverse_digits (to_be_trans + 1) to_be_trans radix
  (if leb (length ds + 1) 9 then some (overwrite ds buffer) else none)

-- `none` is the uninitialised result of the `default` case.
unfoldable pub one_char_hex_to_int : ℕ → Option ℕ
one_char_hex_to_int hex =
    if leb b'0' hex && leb hex b'9'
    then some (hex - b'0')
    else if leb b'A' hex && leb hex b'F'
    then some (hex - b'A' + 10)
    else none

-- The two rounds of the loop: `hex[1]` has weight 1, `hex[0]` has weight 16.
unfoldable pub hex_to_int : ℕ → ℕ → Option ℕ
hex_to_int c0 c1 = do
  lo ← one_char_hex_to_int c1
  hi ← one_char_hex_to_int c0
  some (1 * lo + 16 * hi)

pub one_char-digit_char : (d : ℕ) → d < 16 → one_char_hex_to_int (digit_char d) ≡ some d
unfolding one_char_hex_to_int digit_char
one_char-digit_char d h = ground arith

-- The two low digits of a number read back as its low byte.
pub hex_to_int-digit_char :
    (n : ℕ) → hex_to_int (digit_char (n / 16 % 16)) (digit_char (n % 16)) ≡ some (n % 256)
unfolding hex_to_int
hex_to_int-digit_char n =
    rw (one_char-digit_char (n % 16) (omega arith), one_char-digit_char (n / 16 % 16) (omega arith))
      (ap some (omega arith))

-- The number that a reversed text of digits stands for.
unfoldable pub digits_value : ℕ → Text → Option ℕ
unfolding one_char_hex_to_int
digits_value radix [] = some 0
digits_value radix (c ∷ ds) = do
  v ← digits_value radix ds
  d ← one_char_hex_to_int c
  some (d + radix * v)

leb-nine : (n : ℕ) → n ≤ 8 → leb (n + 1) 9 ≡ true
leb-nine n h = ground arith

positive : (n : ℕ) → (n == 0) ≡ false → 0 < n
positive n h = ground arith

-- `radix` to the power `k`.
abbrev pub power : ℕ → ℕ → ℕ
power radix zero = 1
power radix (suc k) = power radix k * radix

-- With more fuel than the number the loop ends, and its digits stand for the number; there are at most
-- `k` of them below the power `k` of the base.
pub reverse_digits-value :
    (fuel k n radix : ℕ)
    → n < fuel
    → n < power radix k
    → 2 ≤ radix
    → radix ≤ 16
    → (ds : Text) × (reverse_digits fuel n radix ≡ some ds)
      × (digits_value radix ds ≡ some n)
      × (length ds ≤ k)
unfolding reverse_digits digits_value
reverse_digits-value zero k n radix h small lo hi = elim h [ ]
reverse_digits-value (suc fuel) zero n radix h small lo hi =
    ([], ground arith, ground arith, omega arith)
reverse_digits-value (suc fuel) (suc k) n radix h small lo hi = elim (Bool-cases (n == 0)) [
  | inl done ↦ ([], rw done, ground arith, omega arith)
  | inr more ↦
      let radix_pos : 0 < radix = omega arith in
      let (ds, run, value, short) =
        reverse_digits-value fuel k (n / radix) radix
          (omega (arith, div-lt_self (positive n more) lo)) ((div-lt_iff_lt-mul radix_pos).1 small)
          lo hi in
      (
        digit_char (n % radix) ∷ ds,
        rw (more, run),
        rw (value, one_char-digit_char (n % radix) (omega (arith, mod-lt n radix_pos)))
            (ap some (mod-add-div n radix)),
        omega (arith, short),
      )
]

-- Two rounds of the loop.
reverse_digits_low :
    (fuel n : ℕ)
    → n < fuel
    → 16 ≤ n
    → n < 65536
    → (rest : Text) × (reverse_digits fuel n 16
        ≡ some (digit_char (n % 16) ∷ digit_char (n / 16 % 16) ∷ rest))
      × (length rest ≤ 2)
unfolding reverse_digits
reverse_digits_low zero n h lo hi = elim h [ ]
reverse_digits_low (suc zero) n h lo hi = absurd (omega arith)
reverse_digits_low (suc (suc fuel)) n h lo hi =
    let (ds, run, _, short) =
      reverse_digits-value fuel 2 (n / 16 / 16) 16 (omega arith) (omega arith) (omega arith)
        (omega arith) in
    let first : (n == 0) ≡ false = ground arith in
    let second : (n / 16 == 0) ≡ false = ground arith in (ds, rw (first, second, run), short)

-- A number of two, three or four digits leaves its two low digits in front, the lowest first.
pub itochar_low :
    (n : ℕ) (buffer : Text)
    → 16 ≤ n
    → n < 65536
    → (rest : Text) × (itochar n buffer 16
        ≡ some (digit_char (n % 16) ∷ digit_char (n / 16 % 16) ∷ rest))
unfolding itochar
itochar_low n buffer h hi =
    let (ds, run, short) = reverse_digits_low (n + 1) n (omega arith) h hi in
    let whole = digit_char (n % 16) ∷ digit_char (n / 16 % 16) ∷ ds in
    (ds ++ drop (length whole) buffer, rw (run, leb-nine (length whole) (omega (arith, short))))
