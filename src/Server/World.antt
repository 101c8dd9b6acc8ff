-- ===== src/Server/World.antt =====
-- What the actions of the server do to the world outside: frames, screen, keyboard, processes.
-- X11, `popen` and the memory behind an unterminated text are parameters.
use cofi_ty_home.Common.{ℕ, Bool, List, [], ◌∷◌, Text}

-- The keys that `SendKey` is called for.
pub data Key : Type 0 where
  right left f1 f2 f3 f4 f5 return up down escape q d : Key

pub data Process : Type 0 where
  mplayer armagetronad : Process

pub data Event : Type 0 where
  -- `mq_send` to the queue of the sensors' network
  frame : Text → Event
  -- `puts`, `printf`
  says : Text → Event
  -- `XTestGrabControl`, `XTestFakeKeyEvent`, `XSync`
  grab : Bool → Event
  fake_key : ℕ → Bool → Event
  sync : Event
  -- `popen`, `fputs` to the pipe, `pclose`, `system`
  starts : Process → Event
  writes : Process → Text → Event
  closes : Process → Event
  shell : Text → Event
  -- a line of the log of rules or of sensors
  logs : Text → Event
  -- bytes that are written behind a buffer, and bytes that nobody can give back any more
  overruns leaks : ℕ → Event

-- `onGoing` and `onGoingJeu`, and what has happened so far, the newest first.
pub record World : Type 0 where
  pub events : List Event
  pub on_going : Bool
  pub on_going_jeu : Bool

-- What the code gets from X11, the C library and the memory.
pub record Env : Type 0 where
  pub keysym_to_keycode : Key → ℕ
  pub popen : World → Process → Bool
  pub beyond : World → Text

pub data Run : Type 0 where
  ok : World → Run
  exited : World → Run
  -- a null or indeterminate value is used
  undefined : Run

infixl 5 ◌then_run◌
abbrev pub ◌then_run◌ : Run → (World → Run) → Run
ok w then_run f = f w
exited w then_run f = exited w
undefined then_run f = undefined

abbrev pub emit : Event → World → World
emit e w = record w { events = e ∷ w.events }

-- The events of a list, the first one first.
unfoldable pub emits : List Event → World → World
emits [] w = w
emits (e ∷ es) w = emits es (emit e w)
