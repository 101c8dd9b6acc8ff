-- ===== src/Server/Sensors/Bits.antt =====
-- The two bit tests of the decoders, over the characters that a frame is made of.
use cofi_ty_home.Common.{
  ℕ, zero, suc, ◌%◌, ◌<◌, ◌≡◌, refl, some, arith, ℕ_discrete, ltb, if◌then◌else◌,
}
use cofi_ty_home.Common.Int.{pos}
use cofi_ty_home.Server.Hex.{digit_char, one_char_hex_to_int}
use cofi_ty_home.Server.Sensors.{presence_of, contact_of}

-- A property of the numbers under a bound, one entry for each, the largest first.
abbrev Table : (ℕ → Type 0) → ℕ → Type 0
Table P zero = Unit
Table P (suc n) = P n × Table P n

entry : (P : ℕ → Type 0) (n d : ℕ) → d < n → Table P n → P d
entry P zero d small t = absurd (omega arith)
entry P (suc n) d small t = elim (ℕ_discrete d n) [
  | yes last ↦ rw last t.0
  | no other ↦ entry P n d (omega (arith, other)) t.1
]

digit-eq : (c d : ℕ) → one_char_hex_to_int c ≡ some d → (c ≡ digit_char d) × (d < 16)
unfolding one_char_hex_to_int digit_char
digit-eq c d h = ground arith

presence-Table : Table (λ d. presence_of (digit_char d) ≡ pos 1) 16
unfolding presence_of digit_char
presence-Table = (
  refl,
  (
    refl,
    (
      refl,
      (
        refl,
        (
          refl,
          (
            refl,
            (refl, (refl, (refl, (refl, (refl, (refl, (refl, (refl, (refl, (refl, tt)))))))))),
          ),
        ),
      ),
    ),
  ),
)

contact-Table :
    Table (λ d. contact_of (digit_char d) ≡ (if ltb d 10 then pos (d % 2) else pos 0)) 16
unfolding contact_of digit_char
contact-Table = (
  refl,
  (
    refl,
    (
      refl,
      (
        refl,
        (
          refl,
          (
            refl,
            (refl, (refl, (refl, (refl, (refl, (refl, (refl, (refl, (refl, (refl, tt)))))))))),
          ),
        ),
      ),
    ),
  ),
)

-- On every hexadecimal digit the sensor of presence is read as present: the mask `'1'` is a
-- character, and no digit shifted by one has its bits.
pub presence_of-digit : (c d : ℕ) → one_char_hex_to_int c ≡ some d → presence_of c ≡ pos 1
presence_of-digit c d h =
    let (e, lt) = digit-eq c d h in
    rw e (entry (λ x. presence_of (digit_char x) ≡ pos 1) 16 d lt presence-Table)

-- A contact is read as bit 0 of a decimal digit, and as open on every digit from A to F.
pub contact_of-digit :
    (c d : ℕ)
    → one_char_hex_to_int c ≡ some d
    → contact_of c ≡ (if ltb d 10 then pos (d % 2) else pos 0)
contact_of-digit c d h =
    let (e, lt) = digit-eq c d h in
    rw e (
      entry (λ x. contact_of (digit_char x) ≡ (if ltb x 10 then pos (x % 2) else pos 0)) 16 d lt
        contact-Table)
