-- ===== src/Server/Frame.antt =====
-- server/src/actionneurs.c: `struct trame`, its checksum and the two messages for an outlet.
pub mod Checksum
use cofi_ty_home.Common.{
  ℕ, zero, suc, ◌+◌, ◌-◌, ◌*◌, ◌/◌, ◌%◌, ◌≤◌, ◌<◌, ◌≡◌, refl, Bool, Option, none, some, ◌>>=◌, List,
  [], ◌∷◌, ◌++◌, arith, ◌==◌, leb, ◌&&◌, if◌then◌else◌, length, drop, get_elem?, Text, codes,
  Bool-cases, inl, inr,
}
use cofi_ty_home.Server.Hex.{digit_char, one_char_hex_to_int, hex_to_int, itochar}

-- `CHECKSUM` is computed from the rest, so it is no field here.
pub record Trame : Type 0 where
  pub sync : Text
  pub header : Text
  pub lenght : Text
  pub org : Text
  pub body : Text
  pub id : Text
  pub status : Text

-- The two characters at `i` and `i + 1`, read as a byte; `none` is an undefined value.
unfoldable pub byte_at : Text → ℕ → Option ℕ
byte_at t i = do c0 ← get_elem? t i; c1 ← get_elem? t (i + 1); hex_to_int c0 c1

-- `for (i = 0; i < 8; i = i + 2) sum += …`, with the number of rounds that are left.
unfoldable pub sum_bytes : ℕ → ℕ → Text → ℕ → Option ℕ
sum_bytes zero i t sum = some sum
sum_bytes (suc rounds) i t sum = do b ← byte_at t i; sum_bytes rounds (i + 2) t (sum + b)

-- The sum of the whole frame, and what the buffer `checkSum` holds after the last byte.
unfoldable pub frame_sum : Trame → Option ℕ
unfolding sum_bytes byte_at
frame_sum t = do
  s1 ← sum_bytes 4 0 t.body 0
  s2 ← sum_bytes 4 0 t.id s1
  h ← get_elem? t.header 0
  l ← get_elem? t.lenght 0
  b ← hex_to_int h l
  s3 ← sum_bytes 1 0 t.org (s2 + b)
  sum_bytes 1 0 t.status s3

-- The low digit is the first that `itochar` leaves in the buffer.
unfoldable pub calculate_check_sum : Trame → Option Text
unfolding frame_sum
calculate_check_sum t = do
  sum ← frame_sum t
  k0 ← get_elem? t.status 0
  k1 ← get_elem? t.status 1
  check_sum ← itochar sum (k0 ∷ k1 ∷ []) 16
  low ← get_elem? check_sum 0
  high ← get_elem? check_sum 1
  some (high ∷ low ∷ [])

unfoldable pub trame_of : Text → Text → Trame
trame_of body id = record {
  sync = codes "A55A";
  header = codes "6";
  lenght = codes "B";
  org = codes "05";
  body = body;
  id = id;
  status = codes "10";
}

-- The `strcpy` and the chain of `strcat`. The checksum is two bytes without a terminator, so the
-- last `strcat` goes on with what follows them in memory, `beyond`.
unfoldable pub concat_trame : Trame → Text → Text → Text
concat_trame t check_sum beyond =
    t.sync
    ++ (t.header
        ++ (t.lenght ++ (t.org ++ (t.body ++ (t.id ++ (t.status ++ (check_sum ++ beyond)))))))

unfoldable pub create_message_open : Text → Text → Option Text
unfolding trame_of concat_trame calculate_check_sum
create_message_open id beyond = do
  let t = trame_of (codes "50000000") id
  c ← calculate_check_sum t
  some (concat_trame t c beyond)

unfoldable pub create_message_close : Text → Text → Option Text
unfolding trame_of concat_trame calculate_check_sum
create_message_close id beyond = do
  let t = trame_of (codes "70000000") id
  c ← calculate_check_sum t
  some (concat_trame t c beyond)

open_test : create_message_open (codes "FF9F1E05") [] ≡ some (codes "A55A6B0550000000FF9F1E051091")
unfolding create_message_open itochar digit_char hex_to_int one_char_hex_to_int
open_test = refl
