-- ===== src/Server/System/Reacting.antt =====
-- From a frame to the rules that it makes fire.
use cofi_ty_home.Common.{arith, ap, ◌∙◌, ℕ, ◌+◌, suc, ◌≡◌, refl, true, List, [], ◌∷◌, ◌++◌, Text}
use cofi_ty_home.Common.Int.{ℤ}
use cofi_ty_home.Common.Search.{NoneOf}
use cofi_ty_home.Server.Sensors.{Sensor, Conversion, has_key, frame_id, decoded, logged, LogValue}
use cofi_ty_home.Server.Sensors.Decoding.{decode_trame-known}
use cofi_ty_home.Server.Rules.Firing.{AllReadable, fire_all, firing, apply_rules-firing}
use cofi_ty_home.Server.GuiInterface.Desk.{Json, Outside}
use cofi_ty_home.Server.System.{
  System, Status, running, stopped, crashed, ◌then_run◌, turned, framed, woken, after_run, house,
  handle, try_checking_rules, run,
}

-- The system behind a frame that has changed the sensors to `ss` and written `lines`.
abbrev pub heard : List Sensor → List LogValue → System → System
heard ss lines s = record s {
  desk = record s.desk { config = record s.desk.config { sensors = ss } };
  log = lines ++ s.log;
}

abbrev with_coins : ℕ → System → System
with_coins n s = record s { check_rules = n }

one_more : (n : ℕ) → n + 1 ≡ suc n
one_more n = omega arith

then_run_self : (r : Status) → r then_run (λ s. running s) ≡ r
then_run_self (running s) = refl
then_run_self stopped = refl
then_run_self crashed = refl

-- If a frame comes from a sensor, the first one with that id or name, and the conditions of the rules
-- can be read behind it, then the next turn of the thread of the rules logs and applies, in their
-- order, exactly the rules all of whose conditions hold of the values that the frame has brought;
-- the sensor alone has changed, its values are in the log, and the coins are as many as before.
pub run-fire_all :
    {J : Type 0} (o : Json J) (out : Outside) (conv : Conversion) (trame : Text) (now : ℤ)
    (s : System) (before : List Sensor) (x : Sensor) (after : List Sensor)
    → s.desk.config.sensors ≡ before ++ x ∷ after
    → NoneOf (has_key (frame_id trame)) before
    → has_key (frame_id trame) x ≡ true
    → AllReadable (before ++ decoded conv trame x.decode x ∷ after) now s.desk.config.rules
    → run o out conv (framed trame ∷ woken now ∷ []) s
      ≡ after_run
          (heard
            (before ++ decoded conv trame x.decode x ∷ after)
            (logged x.decode (decoded conv trame x.decode x))
            s)
          (fire_all out.env
            (firing (before ++ decoded conv trame x.decode x ∷ after) now s.desk.config.rules)
            s.desk.world)
unfolding run handle try_checking_rules
run-fire_all o out conv trame now s before x after e clear hit readable =
    rw (decode_trame-known conv trame (house s) before x after e clear hit) (
      then_run_self _
      ∙ ap (turned o out conv now (with_coins (s.check_rules + 1) s')) (one_more s.check_rules)
      ∙ ap (after_run s') (
          apply_rules-firing s'.desk.config.sensors now out.env s.desk.config.rules s.desk.world
            readable))
  where
    s' : System
    s' =
        heard (before ++ decoded conv trame x.decode x ∷ after)
          (logged x.decode (decoded conv trame x.decode x)) s
