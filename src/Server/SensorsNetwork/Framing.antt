-- ===== src/Server/SensorsNetwork/Framing.antt =====
-- The frames that reach `decodeTrame` do not depend on how the network cuts the stream.
use mathlib.Core.List.{append_assoc, append-nil}
use cofi_ty_home.Common.{
  ℕ, ◌<◌, ◌≡◌, refl, sym, ◌∙◌, ap, some, List, [], ◌∷◌, ◌++◌, arith, lt→ltb, length, length-append,
  Text, ℕ_discrete,
}
use cofi_ty_home.Server.Sensors.{Conversion, House, decode_trame}
use cofi_ty_home.Server.SensorsNetwork.{
  c_text, filled, Incoming, rec_byte, rec_bytes, sensors_msg_rec,
}

abbrev pub join : List Text → Text
join [] = []
join (t ∷ ts) = t ++ join ts

-- A chunk that the receiver can delimit: no zero in it, and shorter than the buffer.
abbrev pub IsChunk : ℕ → Text → Type 0
IsChunk size t = (c_text t ≡ t) × (length t < size)

abbrev pub AreChunks : ℕ → List Text → Type 0
AreChunks size [] = Unit
AreChunks size (t ∷ ts) = IsChunk size t × AreChunks size ts

abbrev pub AllFrames : List Text → Type 0
AllFrames [] = Unit
AllFrames (f ∷ fs) = (length f ≡ 28) × AllFrames fs

-- The frames, one after the other.
abbrev pub decode_all : Conversion → List Text → House → House
decode_all c [] h = h
decode_all c (f ∷ fs) h = decode_all c fs (decode_trame c f h)

pub filled-IsChunk : (size : ℕ) (t : Text) → IsChunk size t → filled size t ≡ some t
unfolding filled
filled-IsChunk size t h = rw (h.0, lt→ltb _ _ h.1)

rec_bytes-append :
    (c : Conversion) (xs ys : Text) (s : Incoming)
    → rec_bytes c (xs ++ ys) s ≡ rec_bytes c ys (rec_bytes c xs s)
unfolding rec_bytes
rec_bytes-append c [] ys s = refl
rec_bytes-append c (x ∷ xs) ys s = rec_bytes-append c xs ys (rec_byte c x s)

rec-join :
    (c : Conversion) (chunks : List Text) (s : Incoming)
    → AreChunks 128 chunks
    → sensors_msg_rec c chunks s ≡ some (rec_bytes c (join chunks) s)
unfolding sensors_msg_rec rec_bytes
rec-join c [] s h = refl
rec-join c (t ∷ ts) s h =
    rw (filled-IsChunk 128 t h.0, rec_bytes-append c t (join ts) s)
      (rec-join c ts (rec_bytes c t s) h.1)

-- What the receiver has made of a stream.
pub record IsCut (c : Conversion) (stream : Text) (h : House) (r : Incoming) : Type 0 where
  pub frames : List Text
  pub whole : stream ≡ join frames ++ r.pending
  pub sized : AllFrames frames
  pub rest : length r.pending < 28
  pub decoded : r.house ≡ decode_all c frames h

rec_byte_last :
    (c : Conversion) (b : ℕ) (s : Incoming)
    → length s.pending ≡ 27
    → rec_byte c b s ≡ record { pending = []; house = decode_trame c (s.pending ++ b ∷ []) s.house }
unfolding rec_byte
rec_byte_last c b s e = ground (arith, length-append s.pending (b ∷ []))

rec_byte_more :
    (c : Conversion) (b : ℕ) (s : Incoming)
    → length s.pending < 27
    → rec_byte c b s ≡ record { pending = s.pending ++ b ∷ []; house = s.house }
unfolding rec_byte
rec_byte_more c b s e = ground (arith, length-append s.pending (b ∷ []))

rec_bytes-IsCut :
    (c : Conversion) (xs : Text) (s : Incoming)
    → length s.pending < 28
    → IsCut c (s.pending ++ xs) s.house (rec_bytes c xs s)
unfolding rec_bytes
rec_bytes-IsCut c [] s short = record {
  frames = [];
  whole = append-nil s.pending;
  sized = tt;
  rest = short;
  decoded = refl;
}
rec_bytes-IsCut c (x ∷ xs) s short = elim (ℕ_discrete (length s.pending) 27) [
  | yes last ↦
      let k =
        rec_bytes-IsCut c xs
          (record { pending = []; house = decode_trame c (s.pending ++ x ∷ []) s.house })
          (omega arith) in
      rw (rec_byte_last c x s last) (record {
        frames = (s.pending ++ x ∷ []) ∷ k.frames;
        whole =
            sym (append_assoc s.pending (x ∷ []) xs)
            ∙ ap (◌++◌ (s.pending ++ x ∷ [])) k.whole
            ∙ sym (append_assoc (s.pending ++ x ∷ []) (join k.frames) _);
        sized = (omega (arith, length-append s.pending (x ∷ [])), k.sized);
        rest = k.rest;
        decoded = k.decoded;
      })
  | no more ↦
      let k =
        rec_bytes-IsCut c xs (record { pending = s.pending ++ x ∷ []; house = s.house })
          (omega (arith, length-append s.pending (x ∷ []), more)) in
      rw (rec_byte_more c x s (omega (arith, more))) (record {
        frames = k.frames;
        whole = sym (append_assoc s.pending (x ∷ []) xs) ∙ k.whole;
        sized = k.sized;
        rest = k.rest;
        decoded = k.decoded;
      })
]

-- However the network cuts a stream without zeros into chunks of less than 128 bytes, the receiver
-- decodes its frames of 28 bytes in order, each once, and keeps the bytes behind the last one,
-- which are less than a frame.
pub sensors_msg_rec-IsCut :
    (c : Conversion) (chunks : List Text) (h : House)
    → AreChunks 128 chunks
    → (r : Incoming) × (sensors_msg_rec c chunks (record { pending = []; house = h }) ≡ some r)
      × IsCut c (join chunks) h r
sensors_msg_rec-IsCut c chunks h all = (
  rec_bytes c (join chunks) (record { pending = []; house = h }),
  rec-join c chunks (record { pending = []; house = h }) all,
  rec_bytes-IsCut c (join chunks) (record { pending = []; house = h }) (omega arith),
)
