-- ===== src/Server/Actuators.antt =====
-- server/src/actionneurs.c, actionneurs.h: the actuators, the functions that a name selects for
-- them, and what those functions do.
pub mod Dispatch
pub mod Effects
use cofi_ty_home.Common.{
  ℕ, ◌+◌, ◌-◌, length, ◌≡◌, Bool, true, false, ◌||◌, Option, none, some, List, [], ◌∷◌, ◌++◌, ◌==◌,
  if◌then◌else◌, Text, codes, str_eq, take, replicate,
}
use cofi_ty_home.Common.Search.{find_first}
use cofi_ty_home.Server.Frame.{create_message_open, create_message_close}
use cofi_ty_home.Server.World.{
  Key, right, left, f1, f2, f3, f4, f5, return, up, down, escape, q, d, Process, mplayer,
  armagetronad, Event, overruns, leaks, frame, says, grab, fake_key, sync, starts, writes, closes,
  shell, World, Env, Run, ok, exited, undefined, ◌then_run◌, emit, emits,
}

pub data TypeActionneur : Type 0 where
  courrant volets caffe chauffage virtualkeyboard mystere : TypeActionneur

pub record Actionneur : Type 0 where
  pub type : TypeActionneur
  pub id : Text
  pub name : Text

-- The functions that `fct` may point to.
pub data Fct : Type 0 where
  open_courrant close_courrant open_volets close_volets open_caffe close_caffe : Fct
  open_chauffage close_chauffage : Fct
  press_key_forward press_key_backwards press_key_f1 press_key_f2 press_key_f3 : Fct
  press_key_f4 press_key_f5 press_key_enter press_key_up press_key_down : Fct
  press_key_escape press_key_q press_key_d : Fct
  action_mystere fin_mystere jeu_mystere fin_jeu_mystere : Fct

-- A null pointer is `none`.
pub record ActionFct : Type 0 where
  pub fct : Option Fct
  pub actionneur : Option Actionneur

-- The first actuator with that id or that name.
unfoldable pub get_actionneur : List Actionneur → Text → Option Actionneur
unfolding find_first
get_actionneur actionneurs id_or_name =
    find_first (λ a. str_eq a.id id_or_name || str_eq a.name id_or_name) actionneurs

-- A chain of `if (strcmp (fctName, …) == 0)`, tried in order.
abbrev pub choose : List (Text × Fct) → Text → Option Fct
choose [] name = none
choose ((s, f) ∷ r) name = if str_eq name s then some f else choose r name

-- The names that `setActionneurFct` compares with, for each type of actuator.
unfoldable pub fct_table : TypeActionneur → List (Text × Fct)
fct_table courrant = (codes "open", open_courrant) ∷ (codes "close", close_courrant) ∷ []
fct_table volets = (codes "open", open_volets) ∷ (codes "close", close_volets) ∷ []
fct_table caffe = (codes "open", open_caffe) ∷ (codes "close", close_caffe) ∷ []
fct_table chauffage = (codes "open", open_chauffage) ∷ (codes "close", close_chauffage) ∷ []
fct_table virtualkeyboard =
    (codes "next", press_key_forward)
    ∷ (codes "previous", press_key_backwards)
    ∷ (codes "previous", press_key_backwards)
    ∷ (codes "f1", press_key_f1)
    ∷ (codes "f2", press_key_f2)
    ∷ (codes "f3", press_key_f3)
    ∷ (codes "f4", press_key_f4)
    ∷ (codes "f5", press_key_f5)
    ∷ (codes "enter", press_key_enter)
    ∷ (codes "up", press_key_up)
    ∷ (codes "down", press_key_down)
    ∷ (codes "escape", press_key_escape)
    ∷ (codes "q", press_key_q)
    ∷ (codes "d", press_key_d)
    ∷ []
fct_table mystere =
    (codes "action", action_mystere)
    ∷ (codes "fin", fin_mystere)
    ∷ (codes "jeu", jeu_mystere)
    ∷ (codes "finJeu", fin_jeu_mystere)
    ∷ []

unfoldable pub fct_of : TypeActionneur → Text → Option Fct
unfolding fct_table
fct_of type fct_name = choose (fct_table type) fct_name

-- A name that is not found leaves `fct` as it was; `none` is the read of a null actuator.
unfoldable pub set_actionneur_fct : ActionFct → Text → Option (ActionFct × List Event)
unfolding fct_of
set_actionneur_fct a fct_name = elim a.actionneur [
  | none ↦ none
  | some actionneur ↦ elim (fct_of actionneur.type fct_name) [
    | none ↦ some (a, says (codes "Fonction not found : " ++ fct_name) ∷ [])
    | some f ↦ some (record a { fct = some f }, [])
  ]
]

-- The message and its zero overwrite a buffer of 28 zeros, and what lies behind it, before
-- `sensorsNetworkSend (trame, 28)`; the two bytes of the checksum are never given back. `gMalloc` gives
-- each of the buffers.
unfoldable pub send_trame : Option Text → World → Run
send_trame none w = undefined
send_trame (some message) w = ok (
    emit (frame (take 28 (message ++ replicate 28 0)))
      (emit (overruns (length message + 1 - 28)) (emit (leaks 2) w)))

-- A modifier key of code `modcode`, if there is one.
abbrev modified : Option ℕ → Bool → List Event
modified none pressed = []
modified (some modcode) pressed = fake_key modcode pressed ∷ []

-- `modsym` is `none` for 0.
unfoldable pub send_key : Env → Key → Option Key → World → World
unfolding emits
send_key env keysym modsym w =
    let keycode = env.keysym_to_keycode keysym in
    let modcode : Option ℕ = elim modsym [
      | none ↦ none
      | some m ↦ some (env.keysym_to_keycode m)
    ] in
    if keycode == 0
    then w
    else emits
        (grab true
          ∷ (modified modcode true
              ++ (fake_key keycode true
                  ∷ fake_key keycode false
                  ∷ (modified modcode false ++ (sync ∷ grab false ∷ [])))))
        w

unfoldable pub run_fin_mystere : World → World
unfolding emits
run_fin_mystere w =
    if w.on_going
    then record (emits (writes mplayer (codes "q\n") ∷ closes mplayer ∷ []) w) { on_going = false }
    else w

unfoldable pub run_action_mystere : Env → World → Run
unfolding run_fin_mystere
run_action_mystere env w =
    let w' : World = record (run_fin_mystere w) { on_going = true } in
    if env.popen w' mplayer then ok (emit (starts mplayer) w') else exited w'

unfoldable pub run_jeu_mystere : Env → World → Run
run_jeu_mystere env w =
    let w' : World = record w { on_going_jeu = true } in
    if w.on_going_jeu
    then ok w
    else if env.popen w' armagetronad
    then ok (emit (starts armagetronad) w')
    else exited w'

unfoldable pub run_fin_jeu_mystere : World → World
unfolding emits
run_fin_jeu_mystere w =
    if w.on_going_jeu
    then record (emits (shell (codes "killall -q armagetronad.real") ∷ closes armagetronad ∷ [])
        w) { on_going_jeu = false }
    else w

-- A call of the function with the id of its actuator.
unfoldable pub run_fct : Env → Fct → Text → World → Run
unfolding send_trame send_key run_fin_mystere run_action_mystere run_jeu_mystere run_fin_jeu_mystere
run_fct env open_courrant id w = send_trame (create_message_open id (env.beyond w)) w
run_fct env close_courrant id w = send_trame (create_message_close id (env.beyond w)) w
run_fct env open_volets id w = ok (emit (says (codes "Ouvrir les volets")) w)
run_fct env close_volets id w = ok (emit (says (codes "Fermer les volets")) w)
run_fct env open_caffe id w = ok (emit (says (codes "Demarrer la machine a caffe!!")) w)
run_fct env close_caffe id w = ok (emit (says (codes "Arreter la machine a caffe!!")) w)
run_fct env open_chauffage id w = ok (emit (says (codes "Demarrer le chauffage!")) w)
run_fct env close_chauffage id w = ok (emit (says (codes "Arreter le chauffage!")) w)
run_fct env press_key_forward id w = ok (send_key env right none w)
run_fct env press_key_backwards id w = ok (send_key env left none w)
run_fct env press_key_f1 id w = ok (send_key env f1 none w)
run_fct env press_key_f2 id w = ok (send_key env f2 none w)
run_fct env press_key_f3 id w = ok (send_key env f3 none w)
run_fct env press_key_f4 id w = ok (send_key env f4 none w)
run_fct env press_key_f5 id w = ok (send_key env f5 none w)
run_fct env press_key_enter id w = ok (send_key env return none w)
run_fct env press_key_up id w = ok (send_key env up none w)
run_fct env press_key_down id w = ok (send_key env down none w)
run_fct env press_key_escape id w = ok (send_key env escape none w)
run_fct env press_key_q id w = ok (send_key env q none w)
run_fct env press_key_d id w = ok (send_key env d none w)
run_fct env action_mystere id w = run_action_mystere env w
run_fct env fin_mystere id w = ok (run_fin_mystere w)
run_fct env jeu_mystere id w = run_jeu_mystere env w
run_fct env fin_jeu_mystere id w = ok (run_fin_jeu_mystere w)
