-- ===== src/Kernel/Links.antt =====
-- Linked lists that end in null, over any way to read the link of a node.
use mathlib.Core.Path.{subst}
use cofi_ty_home.Common.{ℕ, ◌≡◌, refl, sym, ◌∙◌, ap, ◌≢◌, Option, none, some, List, [], ◌∷◌, ◌++◌}
use cofi_ty_home.Kernel.Threads.Ring.{Differ, NoDup}

-- From the pointer `q` the links lead through the nodes and end.
abbrev pub Linked : (ℕ → Option ℕ) → Option ℕ → List ℕ → Type 0
Linked n q [] = q ≡ none
Linked n q (x ∷ xs) = (q ≡ some x) × Linked n (n x) xs

abbrev pub head : List ℕ → Option ℕ
head [] = none
head (x ∷ xs) = some x

pub Linked-head : (n : ℕ → Option ℕ) (q : Option ℕ) (xs : List ℕ) → Linked n q xs → q ≡ head xs
Linked-head n q [] h = h
Linked-head n q (x ∷ xs) h = h.0

-- A change of the links of two nodes that are not in the list.
pub Linked-frame :
    (n m : ℕ → Option ℕ) (p r : ℕ)
    → ((y : ℕ) → y ≢ p → y ≢ r → m y ≡ n y)
    → (q : Option ℕ) (xs : List ℕ) → Differ p xs
    → Differ r xs
    → Linked n q xs
    → Linked m q xs
Linked-frame n m p r same q [] dp dr h = h
Linked-frame n m p r same q (x ∷ xs) dp dr h = (
  h.0,
  Linked-frame n m p r same (m x) xs dp.1 dr.1
      (subst (λ o. Linked n o xs) (sym (same x (λ e. dp.0 (sym e)) (λ e. dr.0 (sym e)))) h.1),
)

pub Differ-append : (y : ℕ) (xs ys : List ℕ) → Differ y xs → Differ y ys → Differ y (xs ++ ys)
Differ-append y [] ys h k = k
Differ-append y (x ∷ xs) ys h k = (h.0, Differ-append y xs ys h.1 k)

pub Differ-right : (y : ℕ) (xs ys : List ℕ) → Differ y (xs ++ ys) → Differ y ys
Differ-right y [] ys h = h
Differ-right y (x ∷ xs) ys h = Differ-right y xs ys h.1

pub Differ-left : (y : ℕ) (xs ys : List ℕ) → Differ y (xs ++ ys) → Differ y xs
Differ-left y [] ys h = tt
Differ-left y (x ∷ xs) ys h = (h.0, Differ-left y xs ys h.1)

pub Differ-middle :
    (y : ℕ) (xs : List ℕ) (z : ℕ) (ys : List ℕ)
    → Differ y (xs ++ ys)
    → y ≢ z
    → Differ y (xs ++ z ∷ ys)
Differ-middle y [] z ys h ne = (ne, h)
Differ-middle y (x ∷ xs) z ys h ne = (h.0, Differ-middle y xs z ys h.1 ne)

pub NoDup-middle :
    (xs : List ℕ) (z : ℕ) (ys : List ℕ)
    → NoDup (xs ++ ys)
    → Differ z (xs ++ ys)
    → NoDup (xs ++ z ∷ ys)
NoDup-middle [] z ys h d = (d, h)
NoDup-middle (x ∷ xs) z ys h d =
    (Differ-middle x xs z ys h.0 (λ e. d.0 (sym e)), NoDup-middle xs z ys h.1 d.1)

pub NoDup-right : (xs ys : List ℕ) → NoDup (xs ++ ys) → NoDup ys
NoDup-right [] ys h = h
NoDup-right (x ∷ xs) ys h = NoDup-right xs ys h.1

-- The last node that a loop has passed.
abbrev pub last_of : Option ℕ → List ℕ → Option ℕ
last_of prev [] = prev
last_of prev (x ∷ xs) = last_of (some x) xs

pub last_of-differs :
    (t p : ℕ) (prev : Option ℕ) (x : ℕ) (before after : List ℕ)
    → Differ t (x ∷ before ++ after)
    → last_of prev (x ∷ before) ≡ some p
    → t ≢ p
last_of-differs t p prev x [] after d e i =
    d.0 (i ∙ sym (ap (λ o. elim o [ none ↦ x | some z ↦ z ]) e))
last_of-differs t p prev x (y ∷ before) after d e i =
    last_of-differs t p (some x) y before after d.1 e i

-- A node `t` is linked in behind the node `p`, the last of `before`.
pub Linked-insert :
    (n m : ℕ → Option ℕ) (t p : ℕ) (prev q : Option ℕ) (x : ℕ) (before after : List ℕ)
    → Linked n q (x ∷ before ++ after)
    → last_of prev (x ∷ before) ≡ some p
    → NoDup (x ∷ before ++ after)
    → Differ t (x ∷ before ++ after)
    → ((y : ℕ) → y ≢ p → y ≢ t → m y ≡ n y)
    → m p ≡ some t
    → m t ≡ head after
    → Linked m q (x ∷ before ++ t ∷ after)
Linked-insert n m t p prev q x [] after h last nd dt same mp mt =
    let e : x ≡ p = ap (λ o. elim o [ none ↦ x | some z ↦ z ]) last in
    (
      h.0,
      (
        ap m e ∙ mp,
        subst (λ o. Linked m o after) (Linked-head n (n x) after h.1 ∙ sym mt)
            (Linked-frame n m p t same (n x) after (subst (λ z. Differ z after) e nd.0) dt.1 h.1),
      ),
    )
Linked-insert n m t p prev q x (y ∷ before) after h last nd dt same mp mt = (
  h.0,
  subst (λ o. Linked m o (y ∷ before ++ t ∷ after))
      (sym (same x (last_of-differs x p prev y before after nd.0 last) (λ e. dt.0 (sym e))))
      (Linked-insert n m t p (some x) (n x) y before after h.1 last nd.1 dt.1 same mp mt),
)

pub last_of-some :
    (prev : Option ℕ) (x : ℕ) (before : List ℕ) → (p : ℕ) × (last_of prev (x ∷ before) ≡ some p)
last_of-some prev x [] = (x, refl)
last_of-some prev x (y ∷ before) = last_of-some (some x) y before

-- The node `t` behind the node `p`, the last of `before`, is passed over.
pub Linked-remove :
    (n m : ℕ → Option ℕ) (t p : ℕ) (prev q : Option ℕ) (x : ℕ) (before after : List ℕ)
    → Linked n q (x ∷ before ++ t ∷ after)
    → last_of prev (x ∷ before) ≡ some p
    → NoDup (x ∷ before ++ t ∷ after)
    → ((y : ℕ) → y ≢ p → m y ≡ n y)
    → m p ≡ n t
    → Linked m q (x ∷ before ++ after)
Linked-remove n m t p prev q x [] after h last nd same mp =
    let e : x ≡ p = ap (λ o. elim o [ none ↦ x | some z ↦ z ]) last in
    let far : Differ p after = subst (λ z. Differ z after) e nd.0.1 in
    (
      h.0,
      subst (λ o. Linked m o after) (sym (ap m e ∙ mp))
          (Linked-frame n m p p (λ y ne _. same y ne) (n t) after far far h.1.1),
    )
Linked-remove n m t p prev q x (y ∷ before) after h last nd same mp = (
  h.0,
  subst (λ o. Linked m o (y ∷ before ++ after))
      (sym (same x (last_of-differs x p prev y before (t ∷ after) nd.0 last)))
      (Linked-remove n m t p (some x) (n x) y before after h.1 last nd.1 same mp),
)
