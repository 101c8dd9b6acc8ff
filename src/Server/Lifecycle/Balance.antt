-- ===== src/Server/Lifecycle/Balance.antt =====
-- server/src/init.c: what `init` takes and `destroy` gives back, one by one.
use cofi_ty_home.Common.{ℕ, ◌+◌, ◌≡◌, refl, Bool, true, false, List, [], ◌∷◌, ◌==◌}
use cofi_ty_home.Server.Lifecycle.{
  Thing, allocator, mutex, semaphore, alarm_handler, pending_alarm, sensors_queue, sensors_socket,
  accept_socket, rules_thread, sensors_receiver, sensors_sender, connexion_thread, con_ip,
  name_log_sensors, name_log_rules, Move, takes, gives_back, parses, cleans,
}

abbrev number : Thing → ℕ
number allocator = 0
number mutex = 1
number semaphore = 2
number alarm_handler = 3
number sensors_queue = 4
number sensors_socket = 5
number accept_socket = 6
number rules_thread = 7
number sensors_receiver = 8
number sensors_sender = 9
number connexion_thread = 10
number pending_alarm = 11
number con_ip = 12
number name_log_sensors = 13
number name_log_rules = 14

abbrev one_if : Bool → ℕ
one_if true = 1
one_if false = 0

-- How often a thing has been taken, and given back.
abbrev pub taken : Thing → List Move → ℕ
taken t [] = 0
taken t (takes u ∷ a) = one_if (number t == number u) + taken t a
taken t (_ ∷ a) = taken t a

abbrev pub given : Thing → List Move → ℕ
given t [] = 0
given t (gives_back u ∷ a) = one_if (number t == number u) + given t a
given t (_ ∷ a) = given t a

-- What `init` has done, step by step.
abbrev pub configured : List Move
configured =
    takes name_log_rules
    ∷ takes name_log_sensors
    ∷ takes con_ip
    ∷ parses
    ∷ takes mutex
    ∷ takes allocator
    ∷ []

abbrev pub ruled : List Move
ruled = takes rules_thread ∷ takes semaphore ∷ configured

abbrev pub timed : List Move
timed = takes pending_alarm ∷ takes alarm_handler ∷ ruled

abbrev pub networked : List Move
networked =
    takes sensors_sender
    ∷ takes sensors_receiver
    ∷ takes sensors_socket
    ∷ takes sensors_queue
    ∷ timed

abbrev pub started : List Move
started = takes connexion_thread ∷ networked

-- The thread of the connexions has come to its loop.
abbrev pub listening : List Move
listening = takes accept_socket ∷ started

-- What `destroy` does.
abbrev pub all_back : List Move → List Move
all_back a =
    gives_back allocator
    ∷ gives_back name_log_rules
    ∷ cleans
    ∷ gives_back mutex
    ∷ gives_back semaphore
    ∷ gives_back rules_thread
    ∷ gives_back alarm_handler
    ∷ gives_back sensors_queue
    ∷ gives_back sensors_socket
    ∷ gives_back sensors_sender
    ∷ gives_back sensors_receiver
    ∷ gives_back connexion_thread
    ∷ a

-- How often a thing is not given back.
abbrev pub kept : Thing → ℕ
kept accept_socket = 1
kept pending_alarm = 1
kept con_ip = 1
kept name_log_sensors = 1
kept _ = 0

pub balanced : (t : Thing) → taken t (all_back listening) ≡ given t (all_back listening) + kept t
balanced allocator = refl
balanced mutex = refl
balanced semaphore = refl
balanced alarm_handler = refl
balanced pending_alarm = refl
balanced con_ip = refl
balanced name_log_sensors = refl
balanced name_log_rules = refl
balanced sensors_queue = refl
balanced sensors_socket = refl
balanced accept_socket = refl
balanced rules_thread = refl
balanced sensors_receiver = refl
balanced sensors_sender = refl
balanced connexion_thread = refl
