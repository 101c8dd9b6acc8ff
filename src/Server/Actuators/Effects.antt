-- ===== src/Server/Actuators/Effects.antt =====
-- What the functions of the actuators leave behind: keys, the grabbed keyboard, the two processes,
-- and the frames of the outlets.
use cofi_ty_home.Common.{
  ℕ, ◌+◌, ◌-◌, ◌<◌, length, ◌≡◌, refl, Bool, true, false, Option, none, some, List, [], ◌∷◌, arith,
  ◌==◌, ◌&&◌, if◌then◌else◌, Text, take, take-append, replicate, Bool-cases, inl, inr,
}
use cofi_ty_home.Server.Frame.Checksum.{IsHexId, IsGoodFrame, create_message_close-IsGoodMessage}
use cofi_ty_home.Server.World.{
  Key, Process, mplayer, armagetronad, Event, overruns, leaks, frame, says, grab, fake_key, starts,
  closes, World, Env, Run, ok, exited, undefined, emit,
}
use cofi_ty_home.Server.Actuators.{
  Fct, open_courrant, close_courrant, open_volets, close_volets, open_caffe, close_caffe,
  open_chauffage, close_chauffage, press_key_forward, press_key_backwards, press_key_f1,
  press_key_f2, press_key_f3, press_key_f4, press_key_f5, press_key_enter, press_key_up,
  press_key_down, press_key_escape, press_key_q, press_key_d, action_mystere, fin_mystere,
  jeu_mystere, fin_jeu_mystere, send_trame, send_key, run_fin_mystere, run_action_mystere,
  run_jeu_mystere, run_fin_jeu_mystere, run_fct,
}

-- How often an event of a kind has happened.
abbrev bit : Bool → ℕ
bit true = 1
bit false = 0

abbrev same_process : Process → Process → Bool
same_process mplayer mplayer = true
same_process armagetronad armagetronad = true
same_process _ _ = false

abbrev pub started : Process → List Event → ℕ
started p [] = 0
started p (starts q ∷ es) = bit (same_process p q) + started p es
started p (_ ∷ es) = started p es

abbrev pub closed : Process → List Event → ℕ
closed p [] = 0
closed p (closes q ∷ es) = bit (same_process p q) + closed p es
closed p (_ ∷ es) = closed p es

abbrev eq_Bool : Bool → Bool → Bool
eq_Bool true b = b
eq_Bool false true = false
eq_Bool false false = true

-- Presses (`true`) or releases (`false`) of the key of code `k`.
abbrev pub key_events : ℕ → Bool → List Event → ℕ
key_events k b [] = 0
key_events k b (fake_key c a ∷ es) = bit (c == k && eq_Bool a b) + key_events k b es
key_events k b (_ ∷ es) = key_events k b es

abbrev pub grabs : Bool → List Event → ℕ
grabs b [] = 0
grabs b (grab a ∷ es) = bit (eq_Bool a b) + grabs b es
grabs b (_ ∷ es) = grabs b es

-- Each pipe that is open is remembered by its flag, no key is down, the keyboard is free.
pub record IsSettled (w : World) : Type 0 where
  pub player : started mplayer w.events ≡ closed mplayer w.events + bit w.on_going
  pub game : started armagetronad w.events ≡ closed armagetronad w.events + bit w.on_going_jeu
  pub keys : (k : ℕ) → key_events k true w.events ≡ key_events k false w.events
  pub keyboard : grabs true w.events ≡ grabs false w.events

-- A property of the world that a run ends in, if the program goes on.
abbrev pub Ends : (World → Type 0) → Run → Type 0
Ends P (ok w) = P w
Ends P (exited w) = Unit
Ends P undefined = Unit

Ends-if :
    (P : World → Type 0) (r q : Run) (b : Bool)
    → (b ≡ true → Ends P r)
    → (b ≡ false → Ends P q)
    → Ends P (if b then r else q)
Ends-if P r q true f g = f refl
Ends-if P r q false f g = g refl

send_key-IsSettled :
    (env : Env) (k : Key) (m : Option Key) (w : World)
    → IsSettled w
    → IsSettled (send_key env k m w)
unfolding send_key
send_key-IsSettled env k none w s = elim (Bool-cases (env.keysym_to_keycode k == 0)) [
  | inl missing ↦ rw missing s
  | inr found ↦ rw found (record {
    player = s.player;
    game = s.game;
    keys = λ j. ground (arith, s.keys j);
    keyboard = ground arith;
  })
]
send_key-IsSettled env k (some m) w s = elim (Bool-cases (env.keysym_to_keycode k == 0)) [
  | inl missing ↦ rw missing s
  | inr found ↦ rw found (record {
    player = s.player;
    game = s.game;
    keys = λ j. ground (arith, s.keys j);
    keyboard = ground arith;
  })
]

fin-IsSettled : (w : World) → IsSettled w → IsSettled (run_fin_mystere w)
unfolding run_fin_mystere
fin-IsSettled w s = record {
  player = ground arith;
  game = ground arith;
  keys = λ k. ground (arith, s.keys k);
  keyboard = ground arith;
}

fin_jeu-IsSettled : (w : World) → IsSettled w → IsSettled (run_fin_jeu_mystere w)
unfolding run_fin_jeu_mystere
fin_jeu-IsSettled w s = record {
  player = ground arith;
  game = ground arith;
  keys = λ k. ground (arith, s.keys k);
  keyboard = ground arith;
}

-- A new player starts behind the old one's end.
start_player-IsSettled :
    (w : World)
    → IsSettled w
    → w.on_going ≡ false
    → IsSettled (emit (starts mplayer) (record w { on_going = true }))
start_player-IsSettled w s e = record {
  player = ground arith;
  game = ground arith;
  keys = λ k. ground (arith, s.keys k);
  keyboard = ground arith;
}

fin-on_going : (w : World) → (run_fin_mystere w).on_going ≡ false
unfolding run_fin_mystere
fin-on_going w = ground arith

action-IsSettled : (env : Env) (w : World) → IsSettled w → Ends IsSettled (run_action_mystere env w)
unfolding run_action_mystere
action-IsSettled env w s =
    elim (Bool-cases (env.popen (record (run_fin_mystere w) { on_going = true }) mplayer)) [
      | inl opens ↦ rw opens (start_player-IsSettled _ (fin-IsSettled w s) (fin-on_going w))
      | inr fails ↦ rw fails tt
    ]

jeu-IsSettled : (env : Env) (w : World) → IsSettled w → Ends IsSettled (run_jeu_mystere env w)
unfolding run_jeu_mystere
jeu-IsSettled env w s =
    Ends-if IsSettled _ _ w.on_going_jeu (λ already. s)
      λ fresh.
        Ends-if IsSettled _ _ (env.popen (record w { on_going_jeu = true }) armagetronad)
          (λ opens. record {
            player = ground arith;
            game = ground arith;
            keys = λ k. ground (arith, s.keys k);
            keyboard = ground arith;
          })
          (λ fails. tt)

quiet-IsSettled : (t : Text) (w : World) → IsSettled w → IsSettled (emit (says t) w)
quiet-IsSettled t w s = record {
  player = ground arith;
  game = ground arith;
  keys = λ k. ground (arith, s.keys k);
  keyboard = ground arith;
}

send_trame-IsSettled : (m : Option Text) (w : World) → IsSettled w → Ends IsSettled (send_trame m w)
unfolding send_trame
send_trame-IsSettled none w s = tt
send_trame-IsSettled (some m) w s = record {
  player = ground arith;
  game = ground arith;
  keys = λ k. ground (arith, s.keys k);
  keyboard = ground arith;
}

-- Whatever function of an actuator runs, if the program goes on then every pipe that is open is
-- remembered by its flag, every key that was pressed is released and the keyboard is not grabbed,
-- provided that this held before.
pub run_fct-IsSettled :
    (env : Env) (f : Fct) (id : Text) (w : World)
    → IsSettled w
    → Ends IsSettled (run_fct env f id w)
unfolding run_fct
run_fct-IsSettled env open_courrant id w s = send_trame-IsSettled _ w s
run_fct-IsSettled env close_courrant id w s = send_trame-IsSettled _ w s
run_fct-IsSettled env open_volets id w s = quiet-IsSettled _ w s
run_fct-IsSettled env close_volets id w s = quiet-IsSettled _ w s
run_fct-IsSettled env open_caffe id w s = quiet-IsSettled _ w s
run_fct-IsSettled env close_caffe id w s = quiet-IsSettled _ w s
run_fct-IsSettled env open_chauffage id w s = quiet-IsSettled _ w s
run_fct-IsSettled env close_chauffage id w s = quiet-IsSettled _ w s
run_fct-IsSettled env press_key_forward id w s = send_key-IsSettled env _ none w s
run_fct-IsSettled env press_key_backwards id w s = send_key-IsSettled env _ none w s
run_fct-IsSettled env press_key_f1 id w s = send_key-IsSettled env _ none w s
run_fct-IsSettled env press_key_f2 id w s = send_key-IsSettled env _ none w s
run_fct-IsSettled env press_key_f3 id w s = send_key-IsSettled env _ none w s
run_fct-IsSettled env press_key_f4 id w s = send_key-IsSettled env _ none w s
run_fct-IsSettled env press_key_f5 id w s = send_key-IsSettled env _ none w s
run_fct-IsSettled env press_key_enter id w s = send_key-IsSettled env _ none w s
run_fct-IsSettled env press_key_up id w s = send_key-IsSettled env _ none w s
run_fct-IsSettled env press_key_down id w s = send_key-IsSettled env _ none w s
run_fct-IsSettled env press_key_escape id w s = send_key-IsSettled env _ none w s
run_fct-IsSettled env press_key_q id w s = send_key-IsSettled env _ none w s
run_fct-IsSettled env press_key_d id w s = send_key-IsSettled env _ none w s
run_fct-IsSettled env action_mystere id w s = action-IsSettled env w s
run_fct-IsSettled env fin_mystere id w s = fin-IsSettled w s
run_fct-IsSettled env jeu_mystere id w s = jeu-IsSettled env w s
run_fct-IsSettled env fin_jeu_mystere id w s = fin_jeu-IsSettled w s

-- Closing an outlet whose id is four bytes in hexadecimal queues one frame of 28 bytes, which a
-- receiver accepts and which carries that id. Before that it writes one byte or more behind the buffer
-- of the frame, and leaves two bytes that nobody gives back; it does nothing else.
pub run_fct-close_courrant :
    (env : Env) (id : Text) (w : World)
    → IsHexId id
    → (f : Text) × (n : ℕ) × (run_fct env close_courrant id w
        ≡ ok (emit (frame f) (emit (overruns n) (emit (leaks 2) w))))
      × (0 < n)
      × IsGoodFrame id f
unfolding run_fct
run_fct-close_courrant env id w h =
    let (m, e, good) = create_message_close-IsGoodMessage id (env.beyond w) h in
    (
      take 28 m,
      length m + 1 - 28,
      rw (e, send_trame, take-append 28 m (replicate 28 0) good.enough),
      omega (arith, good.enough),
      good.good,
    )
