-- ===== src/Server/SensorsNetwork.antt =====
-- server/src/sensorsNetwork.c: the stream from the sensors, which is cut into frames.
pub mod Framing
use cofi_ty_home.Common.{
  ℕ, ◌≡◌, Bool, true, false, Option, none, some, ◌>>=◌, List, [], ◌∷◌, ◌++◌, ◌==◌, ltb,
  if◌then◌else◌, length, Text,
}
use cofi_ty_home.Server.Sensors.{Conversion, House, decode_trame}

-- The bytes before the first zero.
unfoldable pub c_text : Text → Text
c_text [] = []
c_text (b ∷ bs) = if b == 0 then [] else b ∷ c_text bs

-- What the loop over `strlen (buff)` goes through after a `recv` into a buffer of zeros; `none` is
-- a buffer that is full and has no zero, which `strlen` runs over.
unfoldable pub filled : ℕ → Text → Option Text
unfolding c_text
filled size chunk = if ltb (length (c_text chunk)) size then some (c_text chunk) else none

-- `pending` is `data`, whose length is `j`, and the house that `decodeTrame` changes.
pub record Incoming : Type 0 where
  pub pending : Text
  pub house : House

unfoldable pub rec_byte : Conversion → ℕ → Incoming → Incoming
rec_byte c b s =
    let d = s.pending ++ b ∷ [] in
    if length d == 28
    then record { pending = []; house = decode_trame c d s.house }
    else record s { pending = d }

unfoldable pub rec_bytes : Conversion → Text → Incoming → Incoming
rec_bytes c [] s = s
rec_bytes c (b ∷ bs) s = rec_bytes c bs (rec_byte c b s)

-- The loop of the thread, for the chunks that `recv` has given so far.
unfoldable pub sensors_msg_rec : Conversion → List Text → Incoming → Option Incoming
unfolding filled
sensors_msg_rec c [] s = some s
sensors_msg_rec c (chunk ∷ chunks) s = do
  t ← filled 128 chunk
  sensors_msg_rec c chunks (rec_bytes c t s)
