-- ===== src/Server/GuiInterface/Effects.antt =====
-- What each command leaves as it is.
use cofi_ty_home.Common.{
  ◌≡◌, refl, ◌∙◌, Bool-cases, inl, inr, Option, none, some, Text, arith, codes,
}
use cofi_ty_home.Server.GuiInterface.Desk.{
  Json, Desk, Outcome, done, exits, undefined, Outside, use_of, and_then,
}
use cofi_ty_home.Common.Int.{ℤ}
use cofi_ty_home.Server.Configuration.{Parse, reduced, ended, corrupted}
use cofi_ty_home.Server.Configuration.Files.{reparse_files}
use cofi_ty_home.Server.GuiInterface.Initialise.{process_type_initialise}
use cofi_ty_home.Server.GuiInterface.Update.{process_type_update}
use cofi_ty_home.Server.GuiInterface.History.{process_type_history}
use cofi_ty_home.Server.GuiInterface.Edits.{
  read_whole_file, write_whole_file, process_type_edits, process_type_edata, answer_edata,
  after_reparse, temporary,
}
use cofi_ty_home.Server.GuiInterface.Dispatch.{
  MsgType, initialise, configuration, command, update, data_msg, close, history, hdata, logs_msg,
  ldata, edits, edata, msg_type, process_type_command, process_type_close, process_as,
}

-- The desk of an outcome, whether the program goes on or ends.
abbrev pub Leaves {ℓ} : {A : Type 0} → (A → Desk) → (Desk → Type ℓ) → Outcome A → Type ℓ
Leaves g P (done a) = P (g a)
Leaves g P (exits d) = P d
Leaves g P undefined = Unit {ℓ}

abbrev pub itself : Desk → Desk
itself d = d

-- The configuration is the same; what the actuators have done is the same.
abbrev pub SameHouse : Desk → Desk → Type 0
SameHouse d d' = d'.config ≡ d.config

abbrev pub SameWorld : Desk → Desk → Type 0
SameWorld d d' = d'.world ≡ d.world

abbrev pub Same : Desk → Desk → Type 0
Same d d' = SameHouse d d' × SameWorld d d'

-- What a command may change: a COMMAND what the actuators have done, an EDATA the
-- configuration, and every other one neither.
abbrev pub MayChange : Option MsgType → Desk → Desk → Type 0
MayChange (some command) d d' = SameHouse d d'
MayChange (some edata) d d' = SameWorld d d'
MayChange _ d d' = Same d d'

-- The answer to an EDATA changes neither the configuration nor the world.
pub answer_edata-Same :
    {J : Type 0} (o : Json J) (w : Outside) (flag n : ℤ) (content : Text) (d : Desk)
    → Same d (answer_edata o w flag n content d)
unfolding answer_edata
answer_edata-Same o w flag n content d = ground arith

module _ {J : Type 0} (o : Json J) (w : Outside) (P : Desk → Type 0) where
  -- An EDATA ends before the files are read again, with all as it was, or by the result of that.
  pub edata-Leaves :
      (m : J) (d : Desk)
      → ((d' : Desk) → SameHouse d d' → SameWorld d d' → P d')
      → ((n : ℤ) (content : Text) (d1 : Desk)
          → SameHouse d d1
          → SameWorld d d1
          → Leaves itself P
              (after_reparse o w n content d1 (reparse_files (w.parser d1) n temporary d1.config)))
      → Leaves itself P (process_type_edata o w m d)
  unfolding process_type_edata write_whole_file
  edata-Leaves m d kept after = text (o.get_string (o.object_get m (codes "file")))
    where
      text :
          (t : Option Text)
          → Leaves itself P (
              use_of t (λ content. and_then (write_whole_file o w temporary content d) (λ d1.
                after_reparse o w (o.get_int (o.object_get m (codes "name"))) content d1 (
                  reparse_files
                    (w.parser d1)
                    (o.get_int (o.object_get m (codes "name")))
                    temporary
                    d1.config))))
      text none = tt
      text (some content) = elim (Bool-cases (w.fopen_write d temporary)) [
        | inl opened ↦ rw opened (after _ content _ refl refl)
        | inr missing ↦ rw missing (kept _ refl refl)
      ]

module _ {J : Type 0} (o : Json J) (w : Outside) (base : Desk) where
  initialise-Same :
      (d : Desk) → Same base d → Leaves itself (Same base) (process_type_initialise o d)
  unfolding process_type_initialise
  initialise-Same d h = ground (arith, h)

  update-Same :
      (m : J) (d : Desk) → Same base d → Leaves itself (Same base) (process_type_update o m d)
  unfolding process_type_update
  update-Same m d h = ground (arith, h)

  history-Same :
      (m : J) (d : Desk) → Same base d → Leaves itself (Same base) (process_type_history o w m d)
  unfolding process_type_history
  history-Same m d h = ground (arith, h)

  edits-Same :
      (m : J) (d : Desk) → Same base d → Leaves itself (Same base) (process_type_edits o w m d)
  unfolding process_type_edits read_whole_file
  edits-Same m d h = ground (arith, h)

  edata-SameWorld :
      (m : J) (d : Desk)
      → SameWorld base d
      → Leaves itself (SameWorld base) (process_type_edata o w m d)
  edata-SameWorld m d h =
      edata-Leaves o w (SameWorld base) m d (λ d' c e. e ∙ h)
        (λ n content d1 c e. after d1 n content _ (e ∙ h))
    where
      after :
          (d1 : Desk) (n : ℤ) (content : Text) (r : Parse)
          → SameWorld base d1
          → Leaves itself (SameWorld base) (after_reparse o w n content d1 r)
      after d1 n content (reduced c) e = (answer_edata-Same o w _ n content _).1 ∙ e
      after d1 n content ended e = e
      after d1 n content corrupted e = tt

  command-SameHouse :
      (m : J) (d : Desk)
      → SameHouse base d
      → Leaves itself (SameHouse base) (process_type_command o w m d)
  unfolding process_type_command
  command-SameHouse m d h = ground (arith, h)

  pub process_as-MayChange :
      (t : Option MsgType) (m : J) (d : Desk)
      → Same base d
      → Leaves itself (MayChange t base) (process_as o w t m d)
  unfolding process_as process_type_close
  process_as-MayChange none m d h = h
  process_as-MayChange (some initialise) m d h = initialise-Same _ h
  process_as-MayChange (some configuration) m d h = h
  process_as-MayChange (some command) m d h = command-SameHouse m _ h.0
  process_as-MayChange (some update) m d h = update-Same m d h
  process_as-MayChange (some data_msg) m d h = h
  process_as-MayChange (some close) m d h = h
  process_as-MayChange (some history) m d h = history-Same m _ h
  process_as-MayChange (some hdata) m d h = h
  process_as-MayChange (some logs_msg) m d h = h
  process_as-MayChange (some ldata) m d h = h
  process_as-MayChange (some edits) m d h = edits-Same m _ h
  process_as-MayChange (some edata) m d h = edata-SameWorld m _ h.1

module _ {J : Type 0} (o : Json J) (w : Outside) where
  abbrev pub type_of_command : Text → Option MsgType
  unfolding msg_type
  type_of_command text = msg_type (o.get_int (o.object_get (o.parse text) (codes "type")))
