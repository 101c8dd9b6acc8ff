-- ===== src/Server/Actions.antt =====
-- server/src/actions.c, actions.h: named actions, each a list of calls.
pub mod Laws
use cofi_ty_home.Common.{Option, none, some, List, [], ◌∷◌, ◌++◌, Text, codes, str_eq}
use cofi_ty_home.Common.Search.{find_first}
use cofi_ty_home.Server.World.{World, Env, Run, ok, undefined, ◌then_run◌, says, emit}
use cofi_ty_home.Server.Actuators.{ActionFct, run_fct}

pub record Action : Type 0 where
  pub nom : Text
  pub action_fcts : List ActionFct

unfoldable pub get_action : List Action → Text → Option Action
unfolding find_first
get_action actions nom = find_first (λ a. str_eq a.nom nom) actions

-- `current->fct (current->actionneur->id)`: both pointers are read.
unfoldable pub call_fct : Env → ActionFct → World → Run
call_fct env c w = elim c.fct [
  | none ↦ undefined
  | some f ↦ elim c.actionneur [ none ↦ undefined | some a ↦ run_fct env f a.id w ]
]

unfoldable pub apply_fcts : Env → List ActionFct → World → Run
unfolding call_fct
apply_fcts env [] w = ok w
apply_fcts env (c ∷ cs) w = call_fct env c w then_run apply_fcts env cs

-- The pointer is read before anything else.
unfoldable pub apply_action : Env → Option Action → World → Run
unfolding apply_fcts
apply_action env none w = undefined
apply_action env (some a) w = apply_fcts env a.action_fcts w

-- `getAction` prints a message when it finds nothing, and its result is applied all the same.
unfoldable pub apply_action_by_name : Env → List Action → Text → World → Run
unfolding get_action apply_action
apply_action_by_name env actions nom w = elim (get_action actions nom) [
  | none ↦ apply_action env none (emit (says (codes "Action not recognized : " ++ nom)) w)
  | some a ↦ apply_action env (some a) w
]
