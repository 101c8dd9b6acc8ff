-- ===== src/Server/Actions/Laws.antt =====
-- What applying an action does.
use cofi_ty_home.Common.{◌≡◌, refl, Option, none, some, List, [], ◌∷◌, ◌++◌, arith, Text, str_eq}
use cofi_ty_home.Common.Search.{find_first-none, NoneOf}
use cofi_ty_home.Server.World.{World, Env, Run, ok, exited, undefined, ◌then_run◌, Event}
use cofi_ty_home.Server.Actuators.{Actionneur, Fct, ActionFct, fct_of, set_actionneur_fct}
use cofi_ty_home.Server.Actuators.Effects.{IsSettled, Ends, run_fct-IsSettled}
use cofi_ty_home.Server.Actions.{
  Action, get_action, call_fct, apply_fcts, apply_action, apply_action_by_name,
}

pub Ends-then_run :
    (P : World → Type 0) (r : Run) (k : World → Run)
    → Ends P r
    → ((w : World) → P w → Ends P (k w))
    → Ends P (r then_run k)
Ends-then_run P (ok w) k p next = next w p
Ends-then_run P (exited w) k p next = tt
Ends-then_run P undefined k p next = tt

call_fct-IsSettled :
    (env : Env) (c : ActionFct) (w : World) → IsSettled w → Ends IsSettled (call_fct env c w)
unfolding call_fct
call_fct-IsSettled env c w s = go c.fct c.actionneur
  where
    go :
        (f : Option Fct) (a : Option Actionneur)
        → Ends IsSettled (call_fct env (record { fct = f; actionneur = a }) w)
    go none a = tt
    go (some f) none = tt
    go (some f) (some a) = run_fct-IsSettled env f a.id w s

pub apply_fcts-IsSettled :
    (env : Env) (cs : List ActionFct) (w : World)
    → IsSettled w
    → Ends IsSettled (apply_fcts env cs w)
unfolding apply_fcts
apply_fcts-IsSettled env [] w s = s
apply_fcts-IsSettled env (c ∷ cs) w s =
    Ends-then_run IsSettled (call_fct env c w) (apply_fcts env cs) (call_fct-IsSettled env c w s)
      λ w' s'. apply_fcts-IsSettled env cs w' s'

pub apply_action-IsSettled :
    (env : Env) (a : Option Action) (w : World)
    → IsSettled w
    → Ends IsSettled (apply_action env a w)
unfolding apply_action
apply_action-IsSettled env none w s = tt
apply_action-IsSettled env (some a) w s = apply_fcts-IsSettled env a.action_fcts w s

-- If every open pipe is remembered, no key is down and the keyboard is free, then this holds after
-- an action has been applied by its name too, if the program goes on.
pub apply_action_by_name-IsSettled :
    (env : Env) (actions : List Action) (nom : Text) (w : World)
    → IsSettled w
    → Ends IsSettled (apply_action_by_name env actions nom w)
unfolding apply_action_by_name
apply_action_by_name-IsSettled env actions nom w s = go (get_action actions nom)
  where
    go :
        (r : Option Action)
        → Ends IsSettled (elim r [ none ↦ undefined | some a ↦ apply_action env (some a) w ])
    go none = tt
    go (some a) = apply_fcts-IsSettled env a.action_fcts w s

then_run-then_run :
    (r : Run) (f g h : World → Run)
    → ((w : World) → h w ≡ (f w then_run g))
    → (r then_run h) ≡ ((r then_run f) then_run g)
then_run-then_run (ok w) f g h e = e w
then_run-then_run (exited w) f g h e = refl
then_run-then_run undefined f g h e = refl

-- The calls of a list run one after the other, and what ends the program ends the list.
pub apply_fcts-append :
    (env : Env) (cs ds : List ActionFct) (w : World)
    → apply_fcts env (cs ++ ds) w ≡ (apply_fcts env cs w then_run apply_fcts env ds)
unfolding apply_fcts
apply_fcts-append env [] ds w = refl
apply_fcts-append env (c ∷ cs) ds w =
    then_run-then_run (call_fct env c w) (apply_fcts env cs) (apply_fcts env ds) _
      λ w'. apply_fcts-append env cs ds w'

get_action-none :
    (actions : List Action) (nom : Text)
    → NoneOf (λ a. str_eq a.nom nom) actions
    → get_action actions nom ≡ none
unfolding get_action
get_action-none actions nom = find_first-none _ actions

-- A name that no action has makes the server read a null pointer.
pub apply_action_by_name-unknown :
    (env : Env) (actions : List Action) (nom : Text) (w : World)
    → NoneOf (λ a. str_eq a.nom nom) actions
    → apply_action_by_name env actions nom w ≡ undefined
unfolding apply_action_by_name
apply_action_by_name-unknown env actions nom w missing =
    rw (get_action-none actions nom missing, apply_action_by_name)

-- An action whose function name is not documented for its actuator is loaded with a null function
-- pointer, and applying it makes the server call that pointer.
pub apply_action-unknown_fct :
    (env : Env) (nom fct_name : Text) (a : Actionneur) (rest : List ActionFct) (w : World)
    → fct_of a.type fct_name ≡ none
    → (c : ActionFct) (es : List Event)
    → set_actionneur_fct (record { fct = none; actionneur = some a }) fct_name ≡ some (c, es)
    → apply_action env (some (record { nom = nom; action_fcts = c ∷ rest })) w ≡ undefined
unfolding apply_action set_actionneur_fct
apply_action-unknown_fct env nom fct_name a rest w missing c es e = ground arith
