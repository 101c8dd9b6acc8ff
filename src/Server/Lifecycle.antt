-- ===== src/Server/Lifecycle.antt =====
-- server/src/init.c, sensorsNetwork.c, guiNetwork.c, initCheckRules.c, timedCheck.c: what the server
-- takes when it starts, and gives back when it ends. The system's calls are parameters.
pub mod Balance
pub mod Ending
use cofi_ty_home.Common.{ℕ, ◌+◌, ◌≡◌, Bool, true, false, List, [], ◌∷◌, if◌then◌else◌}

-- The allocator; the mutex of the sensors; the semaphore `checkRules`; the handler of the timer's
-- signal and the alarm that is to come; the
-- queue and the socket of the sensors; the socket on which clients are accepted; the threads; the
-- texts that `parseConfig` copies.
pub data Thing : Type 0 where
  allocator mutex semaphore alarm_handler pending_alarm sensors_queue sensors_socket accept_socket :
      Thing
  rules_thread sensors_receiver sensors_sender connexion_thread : Thing
  con_ip name_log_sensors name_log_rules : Thing

pub data Move : Type 0 where
  takes gives_back : Thing → Move
  -- `parseAll` and `parseConfig`, `cleanMemory`
  parses cleans : Move

-- Whether the system gives a thing, takes it back, connects the socket, and the files are right.
pub record Calls : Type 0 where
  pub gives : List Move → Thing → Bool
  pub takes_back : List Move → Thing → Bool
  pub connects : List Move → Bool
  pub binds : List Move → Bool
  pub files_right : List Move → Bool

-- What has been done, the newest first; `lost` is a thread that could not be made, whose identifier
-- has no value.
pub data Life : Type 0 where
  alive ended : List Move → Life
  lost : Life

infixl 5 ◌then_go◌
abbrev pub ◌then_go◌ : Life → (List Move → Life) → Life
alive a then_go f = f a
ended a then_go f = ended a
lost then_go f = lost

abbrev pub take_thing : Thing → List Move → Life
take_thing t a = alive (takes t ∷ a)

-- `pthread_cancel` and the other calls that do not return -1.
abbrev pub give_back : Thing → List Move → Life
give_back t a = alive (gives_back t ∷ a)

module _ (c : Calls) where
  -- A call under `FAIL`.
  abbrev pub take_checked : Thing → List Move → Life
  take_checked t a = if c.gives a t then alive (takes t ∷ a) else ended a

  abbrev pub give_back_checked : Thing → List Move → Life
  give_back_checked t a = if c.takes_back a t then alive (gives_back t ∷ a) else ended a

  abbrev pub passes : Bool → List Move → Life
  passes b a = if b then alive a else ended a

  -- `pthread_create` and `pthread_detach`.
  abbrev pub start_thread : Thing → List Move → Life
  start_thread t a = if c.gives a t then alive (takes t ∷ a) else lost

  unfoldable pub sensors_network_start : List Move → Life
  sensors_network_start a =
      take_checked sensors_queue a
      then_go take_checked sensors_socket
      then_go (λ a1. passes (c.connects a1) a1)
      then_go start_thread sensors_receiver
      then_go start_thread sensors_sender

  unfoldable pub sensors_network_stop : List Move → Life
  sensors_network_stop a =
      give_back sensors_receiver a
      then_go give_back sensors_sender
      then_go give_back_checked sensors_socket
      then_go give_back_checked sensors_queue

  unfoldable pub gui_network_start : List Move → Life
  gui_network_start a = start_thread connexion_thread a

  -- The thread of the connexions up to its loop.
  unfoldable pub gui_network_connexion : List Move → Life
  gui_network_connexion a = take_checked accept_socket a then_go (λ a1. passes (c.binds a1) a1)

  -- The thread of the connexions; its clients are a list of their own.
  unfoldable pub gui_network_end : List Move → Life
  gui_network_end a = give_back connexion_thread a

  unfoldable pub init_rules : List Move → Life
  init_rules a = take_thing semaphore a then_go start_thread rules_thread

  unfoldable pub end_rules : List Move → Life
  end_rules a = give_back rules_thread a then_go give_back semaphore

  -- `parseAll`, and the copies of `parseConfig`.
  unfoldable pub parse_files : List Move → Life
  parse_files a =
      passes (c.files_right a) (parses ∷ a)
      then_go take_checked con_ip
      then_go take_checked name_log_sensors
      then_go take_checked name_log_rules

  unfoldable pub init : List Move → Life
  unfolding parse_files init_rules sensors_network_start gui_network_start
  init a =
      take_thing allocator a
      then_go take_thing mutex
      then_go parse_files
      then_go init_rules
      then_go take_thing alarm_handler
      then_go take_thing pending_alarm
      then_go sensors_network_start
      then_go gui_network_start

  -- `stopTimedCheck` sets another handler; the alarm still comes.
  unfoldable pub destroy : List Move → Life
  unfolding gui_network_end sensors_network_stop end_rules
  destroy a =
      gui_network_end a
      then_go sensors_network_stop
      then_go give_back alarm_handler
      then_go end_rules
      then_go give_back mutex
      then_go (λ a1. alive (cleans ∷ a1))
      then_go give_back name_log_rules
      then_go give_back allocator
