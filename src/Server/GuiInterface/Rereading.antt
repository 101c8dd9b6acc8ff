-- ===== src/Server/GuiInterface/Rereading.antt =====
-- No command leaves the configuration half built.
use cofi_ty_home.Common.{refl, sym, Option, none, some, Text, codes}
use mathlib.Core.Path.{subst}
use cofi_ty_home.Common.Int.{ℤ}
use cofi_ty_home.Server.Configuration.{Parse, reduced, ended, corrupted}
use cofi_ty_home.Server.Configuration.Wiring.{IsWired, Yields}
use cofi_ty_home.Server.Configuration.Reloading.{reparse_files-IsWired}
use cofi_ty_home.Server.GuiInterface.Desk.{
  Json, Desk, Outcome, done, exits, undefined, Outside, use_of,
}
use cofi_ty_home.Server.World.{World, Run, ok, exited}
use cofi_ty_home.Server.World
use cofi_ty_home.Server.Actuators.Effects.{IsSettled, Ends}
use cofi_ty_home.Server.Actions.{apply_action_by_name}
use cofi_ty_home.Server.Actions.Laws.{apply_action_by_name-IsSettled}
use cofi_ty_home.Server.GuiInterface.Edits.{process_type_edata, after_reparse, temporary}
use cofi_ty_home.Server.GuiInterface.Dispatch.{
  MsgType, initialise, configuration, command, update, data_msg, close, history, hdata, logs_msg,
  ldata, edits, edata, process_as, process_command, process_type_command, with_world,
}
use cofi_ty_home.Server.GuiInterface.Effects.{
  Leaves, itself, Same, SameHouse, MayChange, edata-Leaves, answer_edata-Same, process_as-MayChange,
  SameWorld, type_of_command,
}

abbrev pub WiredDesk : Desk → Type 0
WiredDesk d = IsWired d.config

abbrev pub SettledDesk : Desk → Type 0
SettledDesk d = IsSettled d.world

-- The desk behind a command, if the program goes on.
abbrev pub Completes : (Desk → Type 0) → Outcome Desk → Type 0
Completes P (done d) = P d
Completes P (exits d) = Unit
Completes P undefined = Unit

module _ {J : Type 0} (o : Json J) (w : Outside) where
  edata-IsWired :
      (m : J) (d : Desk) → WiredDesk d → Leaves itself WiredDesk (process_type_edata o w m d)
  edata-IsWired m d h =
      edata-Leaves o w WiredDesk m d (λ d' c e. subst IsWired (sym c) h)
        (λ n content d1 c e.
          after d1 n content _ (subst IsWired (sym c) h)
            (reparse_files-IsWired (w.parser d1) n temporary d1.config))
    where
      after :
          (d1 : Desk) (n : ℤ) (content : Text) (r : Parse)
          → WiredDesk d1
          → Yields IsWired r
          → Leaves itself WiredDesk (after_reparse o w n content d1 r)
      after d1 n content (reduced c) h1 k =
          subst IsWired (sym (answer_edata-Same o w _ n content _).0) k
      after d1 n content ended h1 k = h1
      after d1 n content corrupted h1 k = tt

  -- A command that leaves the configuration as it is.
  unchanged :
      (d : Desk) (r : Outcome Desk)
      → WiredDesk d
      → Leaves itself (SameHouse d) r
      → Leaves itself WiredDesk r
  unchanged d (done d') h e = subst IsWired (sym e) h
  unchanged d (exits d') h e = subst IsWired (sym e) h
  unchanged d undefined h e = tt

  same : (d : Desk) (r : Outcome Desk) → Leaves itself (Same d) r → Leaves itself (SameHouse d) r
  same d (done d') e = e.0
  same d (exits d') e = e.0
  same d undefined e = tt

  process_as-IsWired :
      (t : Option MsgType) (m : J) (d : Desk)
      → WiredDesk d
      → Leaves itself (MayChange t d) (process_as o w t m d)
      → Leaves itself WiredDesk (process_as o w t m d)
  unfolding process_as
  process_as-IsWired (some command) m d h e = unchanged d _ h e
  process_as-IsWired (some edata) m d h e = edata-IsWired m _ h
  process_as-IsWired (some initialise) m d h e = unchanged d _ h (same d _ e)
  process_as-IsWired (some configuration) m d h e = h
  process_as-IsWired (some update) m d h e = unchanged d _ h (same d _ e)
  process_as-IsWired (some data_msg) m d h e = h
  process_as-IsWired (some close) m d h e = h
  process_as-IsWired (some history) m d h e = unchanged d _ h (same d _ e)
  process_as-IsWired (some hdata) m d h e = h
  process_as-IsWired (some logs_msg) m d h e = h
  process_as-IsWired (some ldata) m d h e = h
  process_as-IsWired (some edits) m d h e = unchanged d _ h (same d _ e)
  process_as-IsWired none m d h e = h

  pub process_command-IsWired :
      (text : Text) (d : Desk)
      → IsWired d.config
      → Leaves itself WiredDesk (process_command o w text d)
  unfolding process_command
  process_command-IsWired text d h =
      let t = type_of_command o w text in
      let m = o.object_get (o.parse text) (codes "message") in
      process_as-IsWired t m d h (process_as-MayChange o w d t m d (refl, refl))

  -- A command leaves the world as it was, or as the actions of a COMMAND leave it.
  after_world-IsSettled :
      (d : Desk) (r : Outcome Desk)
      → IsSettled d.world
      → Leaves itself (SameWorld d) r
      → Leaves itself SettledDesk r
  after_world-IsSettled d (done d') h e = subst IsSettled (sym e) h
  after_world-IsSettled d (exits d') h e = subst IsSettled (sym e) h
  after_world-IsSettled d undefined h e = tt

  same_world :
      (d : Desk) (r : Outcome Desk) → Leaves itself (Same d) r → Leaves itself (SameWorld d) r
  same_world d (done d') e = e.1
  same_world d (exits d') e = e.1
  same_world d undefined e = tt

  command-Completes :
      (m : J) (d : Desk) → IsSettled d.world → Completes SettledDesk (process_type_command o w m d)
  unfolding process_type_command
  command-Completes m d h = named (o.get_string m)
    where
      ran : (r : Run) → Ends IsSettled r → Completes SettledDesk (with_world o w d r)
      ran (ok v) k = k
      ran (exited v) k = tt
      ran World.undefined k = tt

      named :
          (t : Option Text)
          → Completes SettledDesk (
              use_of t
                (λ nom. with_world o w d (apply_action_by_name w.env d.config.actions nom d.world)))
      named none = tt
      named (some nom) = ran _ (apply_action_by_name-IsSettled w.env d.config.actions nom d.world h)

  completed : (P : Desk → Type 0) (r : Outcome Desk) → Leaves itself P r → Completes P r
  completed P (done d) h = h
  completed P (exits d) h = tt
  completed P undefined h = tt

  process_as-IsSettled :
      (t : Option MsgType) (m : J) (d : Desk)
      → IsSettled d.world
      → Leaves itself (MayChange t d) (process_as o w t m d)
      → Completes SettledDesk (process_as o w t m d)
  unfolding process_as
  process_as-IsSettled (some command) m d h e = command-Completes m _ h
  process_as-IsSettled (some edata) m d h e =
      completed SettledDesk _ (after_world-IsSettled d _ h e)
  process_as-IsSettled (some initialise) m d h e =
      completed SettledDesk _ (after_world-IsSettled d _ h (same_world d _ e))
  process_as-IsSettled (some configuration) m d h e = h
  process_as-IsSettled (some update) m d h e =
      completed SettledDesk _ (after_world-IsSettled d _ h (same_world d _ e))
  process_as-IsSettled (some data_msg) m d h e = h
  process_as-IsSettled (some close) m d h e = h
  process_as-IsSettled (some history) m d h e =
      completed SettledDesk _ (after_world-IsSettled d _ h (same_world d _ e))
  process_as-IsSettled (some hdata) m d h e = h
  process_as-IsSettled (some logs_msg) m d h e = h
  process_as-IsSettled (some ldata) m d h e = h
  process_as-IsSettled (some edits) m d h e =
      completed SettledDesk _ (after_world-IsSettled d _ h (same_world d _ e))
  process_as-IsSettled none m d h e = h

  pub process_command-IsSettled :
      (text : Text) (d : Desk)
      → IsSettled d.world
      → Completes SettledDesk (process_command o w text d)
  unfolding process_command
  process_command-IsSettled text d h =
      let t = type_of_command o w text in
      let m = o.object_get (o.parse text) (codes "message") in
      process_as-IsSettled t m d h (process_as-MayChange o w d t m d (refl, refl))
