-- ===== src/Server/Actuators/Dispatch.antt =====
-- Which function a name selects: `setActionneurFct` against the table of the configuration file
-- server/config/actionneurs.
use cofi_ty_home.Common.{
  ◌≡◌, refl, ap, ◌↔◌, some, List, [], ◌∷◌, arith, Text, codes, str_eq, eq_of_str_eq, Bool-cases,
  inl, inr,
}
use cofi_ty_home.Server.Actuators.{
  TypeActionneur, courrant, volets, caffe, chauffage, virtualkeyboard, mystere, Fct, open_courrant,
  close_courrant, open_volets, close_volets, open_caffe, close_caffe, open_chauffage,
  close_chauffage, press_key_forward, press_key_backwards, press_key_f1, press_key_f2, press_key_f3,
  press_key_f4, press_key_f5, press_key_enter, press_key_up, press_key_down, press_key_escape,
  press_key_q, press_key_d, action_mystere, fin_mystere, jeu_mystere, fin_jeu_mystere, choose,
  fct_table, fct_of,
}

-- The documented type and name of each function.
unfoldable pub documented : Fct → TypeActionneur × Text
documented open_courrant = (courrant, codes "open")
documented close_courrant = (courrant, codes "close")
documented open_volets = (volets, codes "open")
documented close_volets = (volets, codes "close")
documented open_caffe = (caffe, codes "open")
documented close_caffe = (caffe, codes "close")
documented open_chauffage = (chauffage, codes "open")
documented close_chauffage = (chauffage, codes "close")
documented press_key_forward = (virtualkeyboard, codes "next")
documented press_key_backwards = (virtualkeyboard, codes "previous")
documented press_key_f1 = (virtualkeyboard, codes "f1")
documented press_key_f2 = (virtualkeyboard, codes "f2")
documented press_key_f3 = (virtualkeyboard, codes "f3")
documented press_key_f4 = (virtualkeyboard, codes "f4")
documented press_key_f5 = (virtualkeyboard, codes "f5")
documented press_key_enter = (virtualkeyboard, codes "enter")
documented press_key_up = (virtualkeyboard, codes "up")
documented press_key_down = (virtualkeyboard, codes "down")
documented press_key_escape = (virtualkeyboard, codes "escape")
documented press_key_q = (virtualkeyboard, codes "q")
documented press_key_d = (virtualkeyboard, codes "d")
documented action_mystere = (mystere, codes "action")
documented fin_mystere = (mystere, codes "fin")
documented jeu_mystere = (mystere, codes "jeu")
documented fin_jeu_mystere = (mystere, codes "finJeu")

-- Every entry of a table is documented for the type.
abbrev AllDocumented : TypeActionneur → List (Text × Fct) → Type 0
AllDocumented type [] = Unit
AllDocumented type ((s, f) ∷ r) = (documented f ≡ (type, s)) × AllDocumented type r

choose-documented :
    (type : TypeActionneur) (table : List (Text × Fct)) (name : Text) (f : Fct)
    → AllDocumented type table
    → choose table name ≡ some f
    → documented f ≡ (type, name)
choose-documented type [] name f all e = cc
choose-documented type ((s, g) ∷ r) name f all e = elim (Bool-cases (str_eq name s)) [
  | inl hit ↦ ground (arith, eq_of_str_eq name s)
  | inr miss ↦ choose-documented type r name f all.1 (ground arith)
]

fct_table-AllDocumented : (type : TypeActionneur) → AllDocumented type (fct_table type)
unfolding fct_table documented
fct_table-AllDocumented courrant = (refl, (refl, tt))
fct_table-AllDocumented volets = (refl, (refl, tt))
fct_table-AllDocumented caffe = (refl, (refl, tt))
fct_table-AllDocumented chauffage = (refl, (refl, tt))
fct_table-AllDocumented virtualkeyboard = ground arith
fct_table-AllDocumented mystere = ground arith

fct_of-documented :
    (type : TypeActionneur) (name : Text) (f : Fct)
    → fct_of type name ≡ some f
    → documented f ≡ (type, name)
unfolding fct_of
fct_of-documented type name f =
    choose-documented type (fct_table type) name f (fct_table-AllDocumented type)

documented-fct_of : (f : Fct) → fct_of (documented f).0 (documented f).1 ≡ some f
unfolding fct_of documented str_eq
documented-fct_of open_courrant = refl
documented-fct_of _ = refl

-- A name selects a function for a type of actuator exactly when the documentation lists it there.
pub fct_of_iff :
    (type : TypeActionneur) (name : Text) (f : Fct)
    → (fct_of type name ≡ some f) ↔ (documented f ≡ (type, name))
fct_of_iff type name f = (
  fct_of-documented type name f,
  λ e.
      rw (← ap (λ (p : TypeActionneur × Text). p.0) e, ← ap (λ (p : TypeActionneur × Text). p.1) e)
        (documented-fct_of f),
)
