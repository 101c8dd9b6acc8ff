-- ===== src/Server/GuiNetwork.antt =====
-- server/src/guiNetwork.c: the stream from a client, which is cut into commands by its braces.
pub mod Clients
pub mod Commands
use cofi_ty_home.Common.{
  ℕ, ◌+◌, ◌-◌, ◌≡◌, Bool, true, false, Option, none, some, List, [], ◌∷◌, ◌++◌, ◌==◌, ltb,
  if◌then◌else◌, length, Text, not, ◌>>=◌,
}
use cofi_ty_home.Common.Int.{ℤ, pos, negsuc}
use cofi_ty_home.Server.SensorsNetwork.{filled}

abbrev pub increment : ℤ → ℤ
increment (pos n) = pos (n + 1)
increment (negsuc n) = if n == 0 then pos 0 else negsuc (n - 1)

abbrev pub decrement : ℤ → ℤ
decrement (pos n) = if n == 0 then negsuc 0 else pos (n - 1)
decrement (negsuc n) = negsuc (n + 1)

abbrev pub is_zero : ℤ → Bool
is_zero (pos n) = n == 0
is_zero (negsuc n) = false

-- `traite`, whose length is `j`, `blocs`, and the calls of `processCommand`, the first one first.
pub record Client : Type 0 where
  pub traite : Text
  pub blocs : ℤ
  pub commands : List Text

unfoldable pub count_brace : ℕ → ℤ → ℤ
count_brace b blocs =
    if b == b'{' then increment blocs else if b == b'}' then decrement blocs else blocs

-- One byte; `none` is a byte behind the end of `traite`, or a command that fills it and leaves no
-- zero behind it.
unfoldable pub gui_byte : ℕ → Client → Option Client
unfolding count_brace
gui_byte b s =
    let traite = s.traite ++ b ∷ [] in
    let blocs = count_brace b s.blocs in
    if not (ltb (length s.traite) 8191)
    then none
    else if is_zero blocs
    then some (record { traite = []; blocs = pos 0; commands = s.commands ++ traite ∷ [] })
    else some (record s { traite = traite; blocs = blocs })

unfoldable pub gui_bytes : Text → Client → Option Client
gui_bytes [] s = some s
gui_bytes (b ∷ bs) s = do s' ← gui_byte b s; gui_bytes bs s'

-- The loop of the thread, for the chunks that `recv` has given so far; an empty one ends the client.
unfoldable pub gui_msg_rec : List Text → Client → Option Client
unfolding filled
gui_msg_rec [] s = some s
gui_msg_rec (chunk ∷ chunks) s = do
  t ← filled 8192 chunk
  s' ← gui_bytes t s
  if length t == 0 then some s' else gui_msg_rec chunks s'
