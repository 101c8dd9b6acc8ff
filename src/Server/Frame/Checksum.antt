-- ===== src/Server/Frame/Checksum.antt =====
-- The checksum of a frame, and what a receiver makes of the frames that the server sends.
use cofi_ty_home.Common.{
  ℕ, ◌+◌, ◌/◌, ◌%◌, ◌≤◌, ◌<◌, ◌≡◌, refl, Bool, true, false, Option, none, some, [], ◌∷◌, arith,
  ◌==◌, ap, length, take, drop, get_elem?, Text, codes,
}
use cofi_ty_home.Server.Hex.{
  digit_char, one_char_hex_to_int, hex_to_int, itochar_low, hex_to_int-digit_char,
}
use cofi_ty_home.Server.Frame.{
  Trame, frame_sum, calculate_check_sum, trame_of, concat_trame, create_message_open,
  create_message_close,
}

abbrev if_read : Option ℕ → (ℕ → Bool) → Bool
if_read none test = false
if_read (some b) test = test b

-- A receiver adds up the bytes of the wire and compares the last one with the sum's low byte.
unfoldable pub receiver_accepts : ℕ → Text → Bool
receiver_accepts sum [] = false
receiver_accepts sum (c ∷ []) = false
receiver_accepts sum (c ∷ d ∷ []) = if_read (hex_to_int c d) (λ b. b == sum % 256)
receiver_accepts sum (c ∷ d ∷ e ∷ t) =
    if_read (hex_to_int c d) (λ b. receiver_accepts (sum + b) (e ∷ t))

-- Four bytes in eight hexadecimal characters.
abbrev pub IsHexId : Text → Type 0
IsHexId (c0 ∷ c1 ∷ c2 ∷ c3 ∷ c4 ∷ c5 ∷ c6 ∷ c7 ∷ []) =
    (b0 : ℕ) × (b1 : ℕ) × (b2 : ℕ) × (b3 : ℕ) × (hex_to_int c0 c1 ≡ some b0)
    × (hex_to_int c2 c3 ≡ some b1)
    × (hex_to_int c4 c5 ≡ some b2)
    × (hex_to_int c6 c7 ≡ some b3)
IsHexId _ = ⊥

-- If the frame's sum is defined and has two, three or four hexadecimal digits, and the status has two
-- characters, then the checksum is the low byte of the sum in two digits, the high one first.
pub check_sum-frame_sum :
    (t : Trame) (sum k0 k1 : ℕ)
    → frame_sum t ≡ some sum
    → 16 ≤ sum
    → sum < 65536
    → get_elem? t.status 0 ≡ some k0
    → get_elem? t.status 1 ≡ some k1
    → calculate_check_sum t ≡ some (digit_char (sum / 16 % 16) ∷ digit_char (sum % 16) ∷ [])
unfolding calculate_check_sum
check_sum-frame_sum t sum k0 k1 s two four e0 e1 =
    let (rest, run) = itochar_low sum (k0 ∷ k1 ∷ []) two four in rw (s, e0, e1, run)

-- The constant bytes of the two messages.
hex_50 : hex_to_int b'5' b'0' ≡ some 80
unfolding hex_to_int one_char_hex_to_int
hex_50 = refl

hex_70 : hex_to_int b'7' b'0' ≡ some 112
unfolding hex_to_int one_char_hex_to_int
hex_70 = refl

hex_00 : hex_to_int b'0' b'0' ≡ some 0
unfolding hex_to_int one_char_hex_to_int
hex_00 = refl

hex_6b : hex_to_int b'6' b'B' ≡ some 107
unfolding hex_to_int one_char_hex_to_int
hex_6b = refl

hex_05 : hex_to_int b'0' b'5' ≡ some 5
unfolding hex_to_int one_char_hex_to_int
hex_05 = refl

hex_10 : hex_to_int b'1' b'0' ≡ some 16
unfolding hex_to_int one_char_hex_to_int
hex_10 = refl

ruleset constants = (hex_50, hex_70, hex_00, hex_6b, hex_05, hex_10)

abbrev low_byte : ℕ → Text
low_byte n = digit_char (n / 16 % 16) ∷ digit_char (n % 16) ∷ []

-- A frame of 28 bytes that a receiver accepts, from the sender `id`.
pub record IsGoodFrame (id f : Text) : Type 0 where
  pub whole : length f ≡ 28
  pub sync : take 4 f ≡ codes "A55A"
  pub accepted : receiver_accepts 0 (drop 4 f) ≡ true
  pub sender : take 8 (drop 16 f) ≡ id

-- A message that begins with such a frame.
pub record IsGoodMessage (id message : Text) : Type 0 where
  pub enough : 28 ≤ length message
  pub good : IsGoodFrame id (take 28 message)

hex_to_int-bound : (c0 c1 b : ℕ) → hex_to_int c0 c1 ≡ some b → b < 256
unfolding hex_to_int one_char_hex_to_int
hex_to_int-bound c0 c1 b h = ground arith

module _ (c0 c1 c2 c3 c4 c5 c6 c7 b0 b1 b2 b3 : ℕ) (h0 : hex_to_int c0 c1 ≡ some b0)
    (h1 : hex_to_int c2 c3 ≡ some b1) (h2 : hex_to_int c4 c5 ≡ some b2)
    (h3 : hex_to_int c6 c7 ≡ some b3) where
  abbrev id : Text
  id = c0 ∷ c1 ∷ c2 ∷ c3 ∷ c4 ∷ c5 ∷ c6 ∷ c7 ∷ []

  abbrev id_sum : ℕ
  id_sum = b0 + b1 + b2 + b3

  id_sum-small : id_sum < 2000
  id_sum-small = omega (
    arith,
    hex_to_int-bound c0 c1 b0 h0,
    hex_to_int-bound c2 c3 b1 h1,
    hex_to_int-bound c4 c5 b2 h2,
    hex_to_int-bound c6 c7 b3 h3,
  )

  open_sum : frame_sum (trame_of (codes "50000000") id) ≡ some (208 + id_sum)
  unfolding frame_sum trame_of
  open_sum = simp (h0, h1, h2, h3, constants) (ap some (omega arith))

  close_sum : frame_sum (trame_of (codes "70000000") id) ≡ some (240 + id_sum)
  unfolding frame_sum trame_of
  close_sum = simp (h0, h1, h2, h3, constants) (ap some (omega arith))

  open_check_sum :
      calculate_check_sum (trame_of (codes "50000000") id) ≡ some (low_byte (208 + id_sum))
  unfolding trame_of
  open_check_sum =
      check_sum-frame_sum _ (208 + id_sum) b'1' b'0' open_sum (omega arith)
        (omega (arith, id_sum-small)) refl refl

  close_check_sum :
      calculate_check_sum (trame_of (codes "70000000") id) ≡ some (low_byte (240 + id_sum))
  unfolding trame_of
  close_check_sum =
      check_sum-frame_sum _ (240 + id_sum) b'1' b'0' close_sum (omega arith)
        (omega (arith, id_sum-small)) refl refl

  open_frame :
      (beyond : Text)
      → (message : Text) × (create_message_open id beyond ≡ some message) × IsGoodMessage id message
  unfolding create_message_open trame_of concat_trame receiver_accepts
  open_frame beyond = (
    concat_trame (trame_of (codes "50000000") id) (low_byte (208 + id_sum)) beyond,
    rw open_check_sum,
    record {
      enough = omega arith;
      good = record {
        whole = refl;
        sync = refl;
        accepted =
            simp (h0, h1, h2, h3, constants, hex_to_int-digit_char (208 + id_sum)) (ground arith);
        sender = refl;
      };
    },
  )

  close_frame :
      (beyond : Text)
      → (message : Text) × (create_message_close id beyond ≡ some message)
        × IsGoodMessage id message
  unfolding create_message_close trame_of concat_trame receiver_accepts
  close_frame beyond = (
    concat_trame (trame_of (codes "70000000") id) (low_byte (240 + id_sum)) beyond,
    rw close_check_sum,
    record {
      enough = omega arith;
      good = record {
        whole = refl;
        sync = refl;
        accepted =
            simp (h0, h1, h2, h3, constants, hex_to_int-digit_char (240 + id_sum)) (ground arith);
        sender = refl;
      };
    },
  )

-- For an id of four bytes in hexadecimal the message to open an outlet is built, and the 28 bytes
-- that are sent of it form a frame that a receiver accepts and that carries the id, whatever
-- bytes follow the unterminated checksum in memory.
pub create_message_open-IsGoodMessage :
    (id beyond : Text)
    → IsHexId id
    → (message : Text) × (create_message_open id beyond ≡ some message) × IsGoodMessage id message
create_message_open-IsGoodMessage (c0 ∷ c1 ∷ c2 ∷ c3 ∷ c4 ∷ c5 ∷ c6 ∷ c7 ∷ []) beyond h =
    open_frame c0 c1 c2 c3 c4 c5 c6 c7 h.0 h.1 h.2 h.3 h.4 h.5 h.6 h.7 beyond
create_message_open-IsGoodMessage _ beyond h = absurd h

-- The same of the message to close an outlet.
pub create_message_close-IsGoodMessage :
    (id beyond : Text)
    → IsHexId id
    → (message : Text) × (create_message_close id beyond ≡ some message) × IsGoodMessage id message
create_message_close-IsGoodMessage (c0 ∷ c1 ∷ c2 ∷ c3 ∷ c4 ∷ c5 ∷ c6 ∷ c7 ∷ []) beyond h =
    close_frame c0 c1 c2 c3 c4 c5 c6 c7 h.0 h.1 h.2 h.3 h.4 h.5 h.6 h.7 beyond
create_message_close-IsGoodMessage _ beyond h = absurd h
