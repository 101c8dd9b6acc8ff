-- ===== src/Server/Configuration/ActionBuilding.antt =====
-- The actions that a right file gives.
use cofi_ty_home.Common.{
  ◌<◌, ◌≡◌, ◌∙◌, ap, true, Option, none, some, List, [], ◌∷◌, ◌++◌, lt→ltb, Text, length, Each, map,
  Option-cases, inl, inr,
}
use mathlib.Core.List.{append_assoc, append-nil}
use cofi_ty_home.Server.Actuators.{
  Actionneur, ActionFct, get_actionneur, fct_of, set_actionneur_fct,
}
use cofi_ty_home.Server.Actions.{Action}
use cofi_ty_home.Server.Configuration.{
  Config, Reduction, action_id, one_actionneur_fct, Parser, reduced,
}
use cofi_ty_home.Server.Configuration.Reducing.{reduce, reduce_all}
use cofi_ty_home.Server.Configuration.Building.{split_last_self}
use cofi_ty_home.Server.Configuration.Sentences.{
  OneAction, functions_reductions, actions_reductions,
}

abbrev pub fct_for : Option Actionneur → Text → ActionFct
fct_for none fct = record { fct = none; actionneur = none }
fct_for (some a) fct = record { fct = fct_of a.type fct; actionneur = some a }

-- What a sentence says: the first actuator with that id or name, and its function of that name.
abbrev pub function_of : Config → Text × Text → ActionFct
function_of c (id, fct) = fct_for (get_actionneur c.actionneurs id) fct

abbrev pub action_of : Config → OneAction → Action
action_of c a = record { nom = a.nom; action_fcts = map (function_of c) a.functions }

abbrev pub FunctionFits : Config → Text × Text → Type 0
FunctionFits c (id, fct) = (a : Actionneur) × (get_actionneur c.actionneurs id ≡ some a)

abbrev pub ActionFits : Config → OneAction → Type 0
ActionFits c a = (length a.nom < 20) × Each (FunctionFits c) a.functions

-- A configuration whose current action is `a`.
abbrev at_action : Config → List Action → Action → Config
at_action c before a = record c { actions = before ++ a ∷ [] }

module _ (p : Parser) (memory : (c : Config) → p.g_malloc c ≡ true) where
  reduce-one_actionneur_fct :
      (c : Config) (before : List Action) (a : Action) (id fct : Text)
      → FunctionFits c (id, fct)
      → reduce p (one_actionneur_fct id fct) (at_action c before a)
        ≡ reduced (
            at_action c before
              (record a { action_fcts = a.action_fcts ++ function_of c (id, fct) ∷ [] }))
  unfolding reduce set_actionneur_fct
  reduce-one_actionneur_fct c before a id fct (x, found) = elim (Option-cases (fct_of x.type fct)) [
    | inl unknown ↦ rw (
      split_last_self before a,
      memory (at_action c before a),
      found,
      set_actionneur_fct,
      unknown,
      found,
    )
    | inr (f, known) ↦ rw (
      split_last_self before a,
      memory (at_action c before a),
      found,
      set_actionneur_fct,
      known,
      found,
    )
  ]

  reduce-action_id :
      (c : Config) (nom : Text)
      → length nom < 20
      → reduce p (action_id nom) c
        ≡ reduced (at_action c c.actions (record { nom = nom; action_fcts = [] }))
  unfolding reduce
  reduce-action_id c nom fits = rw (memory c, lt→ltb (length nom) 20 fits)

  functions-map :
      (fs : List (Text × Text)) (c : Config) (before : List Action) (a : Action)
      (rs : List Reduction)
      → Each (FunctionFits c) fs
      → reduce_all p (functions_reductions fs ++ rs) (at_action c before a)
        ≡ reduce_all p rs (
            at_action c before (record a { action_fcts = a.action_fcts ++ map (function_of c) fs }))
  unfolding reduce_all functions_reductions
  functions-map [] c before a rs fits = rw (append-nil a.action_fcts)
  functions-map ((id, fct) ∷ fs) c before a rs (fit, fits) =
      rw (reduce-one_actionneur_fct c before a id fct fit) (
        functions-map fs c before
          (record a { action_fcts = a.action_fcts ++ function_of c (id, fct) ∷ [] }) rs fits
        ∙ ap (λ l. reduce_all p rs (at_action c before (record a { action_fcts = l })))
            (append_assoc a.action_fcts (function_of c (id, fct) ∷ []) _))

  -- If there is memory for all nodes, the names of the actions are short and the actuators that they
  -- name are there, then a file of actions adds an action for each of its sentences, in their order:
  -- its name, and for each function the first actuator with that id or name and the function that
  -- this name selects for its type, or a null pointer if there is none; nothing else changes.
  pub reduce_all-actions :
      (xs : List OneAction) (c : Config)
      → Each (ActionFits c) xs
      → reduce_all p (actions_reductions xs) c
        ≡ reduced (record c { actions = c.actions ++ map (action_of c) xs })
  unfolding reduce_all actions_reductions
  reduce_all-actions [] c fits = rw (append-nil c.actions)
  reduce_all-actions (x ∷ xs) c ((short, fit), fits) = rw (reduce-action_id c x.nom short) (
      functions-map x.functions c c.actions (record { nom = x.nom; action_fcts = [] })
        (actions_reductions xs) fit
      ∙ reduce_all-actions xs (at_action c c.actions (action_of c x)) fits
      ∙ ap (λ l. reduced (record c { actions = l }))
          (append_assoc c.actions (action_of c x ∷ []) _))
