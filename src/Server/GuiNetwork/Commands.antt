-- ===== src/Server/GuiNetwork/Commands.antt =====
-- The commands that reach `processCommand` are the objects that the client sends, however the
-- network cuts the stream.
use mathlib.Core.List.{append_assoc, append-nil}
use cofi_ty_home.Common.{
  ℕ, ◌+◌, ◌-◌, ◌<◌, ◌≡◌, refl, ◌∙◌, ap, Option, none, some, ◌>>=◌, List, [], ◌∷◌, ◌++◌, arith, ◌==◌,
  if◌then◌else◌, length, length-append, Text,
}
use cofi_ty_home.Common.Int.{pos}
use cofi_ty_home.Server.SensorsNetwork.Framing.{join, AreChunks, filled-IsChunk}
use cofi_ty_home.Server.GuiNetwork.{Client, count_brace, gui_byte, gui_bytes, gui_msg_rec}

-- The braces that are open after a byte, and the texts that close `d` braces with their last byte
-- and not before.
abbrev deeper : ℕ → ℕ → ℕ
deeper d b = if b == b'{' then d + 1 else if b == b'}' then d - 1 else d

abbrev pub Closes : ℕ → Text → Type 0
Closes d [] = ⊥
Closes d (b ∷ []) = deeper d b ≡ 0
Closes d (b ∷ c ∷ bs) = (0 < deeper d b) × Closes (deeper d b) (c ∷ bs)

-- A command as the clients send it: an object in braces that fits the buffer.
abbrev pub IsObject : Text → Type 0
IsObject [] = ⊥
IsObject (b ∷ bs) = (b ≡ b'{') × Closes 1 bs × (length bs < 8191)

abbrev pub AreObjects : List Text → Type 0
AreObjects [] = Unit
AreObjects (t ∷ ts) = IsObject t × AreObjects ts

abbrev pub NotEmpty : List Text → Type 0
NotEmpty [] = Unit
NotEmpty (t ∷ ts) = (0 < length t) × NotEmpty ts

gui_bytes-append :
    (xs ys : Text) (s : Client) → gui_bytes (xs ++ ys) s ≡ (gui_bytes xs s >>= λ r. gui_bytes ys r)
unfolding gui_bytes
gui_bytes-append [] ys s = refl
gui_bytes-append (x ∷ xs) ys s = go (gui_byte x s) (λ r. gui_bytes-append xs ys r)
  where
    go :
        (r : Option Client)
        → ((r' : Client) → gui_bytes (xs ++ ys) r' ≡ (gui_bytes xs r' >>= λ q. gui_bytes ys q))
        → (r >>= λ r'. gui_bytes (xs ++ ys) r')
          ≡ ((r >>= λ r'. gui_bytes xs r') >>= λ r'. gui_bytes ys r')
    go none rest = refl
    go (some r) rest = rest r

brace_more : (b d : ℕ) → 0 < d → count_brace b (pos d) ≡ pos (deeper d b)
unfolding count_brace
brace_more b d h = ground arith

gui_byte_more :
    (b d : ℕ) (t : Text) (cs : List Text)
    → 0 < d
    → 0 < deeper d b
    → length t < 8191
    → gui_byte b (record { traite = t; blocs = pos d; commands = cs })
      ≡ some (record { traite = t ++ b ∷ []; blocs = pos (deeper d b); commands = cs })
unfolding gui_byte
gui_byte_more b d t cs h more short = rw (brace_more b d h) (ground arith)

gui_byte_last :
    (b d : ℕ) (t : Text) (cs : List Text)
    → 0 < d
    → deeper d b ≡ 0
    → length t < 8191
    → gui_byte b (record { traite = t; blocs = pos d; commands = cs })
      ≡ some (record { traite = []; blocs = pos 0; commands = cs ++ (t ++ b ∷ []) ∷ [] })
unfolding gui_byte
gui_byte_last b d t cs h last short = rw (brace_more b d h) (ground arith)

gui_byte_first :
    (cs : List Text)
    → gui_byte b'{' (record { traite = []; blocs = pos 0; commands = cs })
      ≡ some (record { traite = b'{' ∷ []; blocs = pos 1; commands = cs })
unfolding gui_byte count_brace
gui_byte_first cs = refl

closing :
    (bs : Text) (d : ℕ) (t : Text) (cs : List Text)
    → 0 < d
    → Closes d bs
    → length t + length bs < 8192
    → gui_bytes bs (record { traite = t; blocs = pos d; commands = cs })
      ≡ some (record { traite = []; blocs = pos 0; commands = cs ++ (t ++ bs) ∷ [] })
unfolding gui_bytes
closing [] d t cs h k short = absurd k
closing (b ∷ []) d t cs h k short = rw (gui_byte_last b d t cs h k (omega arith))
closing (b ∷ c ∷ bs) d t cs h k short = rw (gui_byte_more b d t cs h k.0 (omega arith)) (
    closing (c ∷ bs) (deeper d b) (t ++ b ∷ []) cs k.0 k.1 (omega (arith, length-append t (b ∷ [])))
    ∙ ap (λ x. some (record { traite = []; blocs = pos 0; commands = cs ++ x ∷ [] }))
        (append_assoc t (b ∷ []) (c ∷ bs)))

abbrev waiting : List Text → Client
waiting cs = record { traite = []; blocs = pos 0; commands = cs }

one_object :
    (t : Text) (cs : List Text)
    → IsObject t
    → gui_bytes t (waiting cs) ≡ some (waiting (cs ++ t ∷ []))
unfolding gui_bytes
one_object [] cs h = absurd h
one_object (b ∷ bs) cs h =
    rw (h.0, gui_byte_first cs) (closing bs 1 (b'{' ∷ []) cs (omega arith) h.1 (omega (arith, h.2)))

objects :
    (ts : List Text) (cs : List Text)
    → AreObjects ts
    → gui_bytes (join ts) (waiting cs) ≡ some (waiting (cs ++ ts))
unfolding gui_bytes
objects [] cs h = rw (append-nil cs)
objects (t ∷ ts) cs h =
    rw (gui_bytes-append t (join ts) (waiting cs), one_object t cs h.0)
      (objects ts (cs ++ t ∷ []) h.1 ∙ ap (λ x. some (waiting x)) (append_assoc cs (t ∷ []) ts))

chunks-join :
    (chunks : List Text) (s : Client)
    → AreChunks 8192 chunks
    → NotEmpty chunks
    → gui_msg_rec chunks s ≡ gui_bytes (join chunks) s
unfolding gui_msg_rec gui_bytes
chunks-join [] s h k = refl
chunks-join (t ∷ ts) s h k =
    rw (filled-IsChunk 8192 t h.0, gui_bytes-append t (join ts) s)
      (go (gui_bytes t s) (λ r. chunks-join ts r h.1 k.1))
  where
    go :
        (r : Option Client)
        → ((r' : Client) → gui_msg_rec ts r' ≡ gui_bytes (join ts) r')
        → (r >>= λ s'. if length t == 0 then some s' else gui_msg_rec ts s')
          ≡ (r >>= λ r'. gui_bytes (join ts) r')
    go none rest = refl
    go (some r) rest = ground (arith, rest r)

-- If a client sends objects in braces of less than 8192 bytes each, and the network cuts the stream
-- into chunks that are not empty, shorter than the buffer and without zeros, then `processCommand`
-- is called for exactly these objects, in order, and nothing is left over.
pub gui_msg_rec-AreObjects :
    (chunks objs : List Text)
    → AreChunks 8192 chunks
    → NotEmpty chunks
    → AreObjects objs
    → join chunks ≡ join objs
    → gui_msg_rec chunks (record { traite = []; blocs = pos 0; commands = [] })
      ≡ some (record { traite = []; blocs = pos 0; commands = objs })
gui_msg_rec-AreObjects chunks objs h k o e =
    chunks-join chunks (waiting []) h k ∙ ap (λ x. gui_bytes x (waiting [])) e ∙ objects objs [] o
