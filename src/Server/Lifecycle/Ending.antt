-- ===== src/Server/Lifecycle/Ending.antt =====
-- server/src/init.c: the server starts and ends.
use cofi_ty_home.Common.{◌≡◌, List}
use cofi_ty_home.Server.Lifecycle.{Move, Life, alive, ended, lost}

-- A list of acts, if the program goes on.
abbrev Reaches : List Move → Life → Type 0
Reaches l (alive a) = a ≡ l
Reaches l (ended a) = Unit
Reaches l lost = Unit
