-- ===== src/Common/Search.antt =====
-- The search of a linked list for its first node that passes a test.
use mathlib.Core.Bool.{Bool, true, false}
use mathlib.Core.List.{List, [], ◌∷◌, ◌++◌}
use mathlib.Core.Option.{Option, none, some}
use mathlib.Core.Path.{◌≡◌, refl, ap}
use native.Mathlib.Omega.{arith}
use cofi_ty_home.Common.Lists.{length}
use cofi_ty_home.Common.Tests.{if◌then◌else◌, Bool-cases}
use mathlib.Core.Logic.{inl, inr}

module _ {ℓ} {A : Type ℓ} (test : A → Bool) where
  unfoldable pub find_first : List A → Option A
  find_first [] = none
  find_first (x ∷ xs) = if test x then some x else find_first xs

  -- No node passes.
  abbrev pub NoneOf : List A → Type 0
  NoneOf [] = Unit
  NoneOf (x ∷ xs) = (test x ≡ false) × NoneOf xs

  -- The result of a search for the first node: the node, behind nodes that do not pass.
  abbrev pub IsFirst : List A → Option A → Type ℓ
  IsFirst xs none = Unit {ℓ} × NoneOf xs
  IsFirst xs (some a) =
      (before : List A) × (after : List A) × (xs ≡ before ++ a ∷ after)
      × NoneOf before
      × (test a ≡ true)

  pub find_first-IsFirst : (xs : List A) → IsFirst xs (find_first xs)
  unfolding find_first
  find_first-IsFirst [] = (tt, tt)
  find_first-IsFirst (x ∷ xs) = elim (Bool-cases (test x)) [
    | inl hit ↦ rw hit ([], xs, refl, tt, hit)
    | inr miss ↦ rw miss (skip (find_first xs) miss (find_first-IsFirst xs))
  ]
    where
      skip : (r : Option A) → test x ≡ false → IsFirst xs r → IsFirst (x ∷ xs) r
      skip none miss (_, rest) = (tt, (miss, rest))
      skip (some a) miss (before, after, e, clear, hit) =
          (x ∷ before, after, ap (◌∷◌ x) e, (miss, clear), hit)

  pub find_first-none : (xs : List A) → NoneOf xs → find_first xs ≡ none
  unfolding find_first
  find_first-none [] h = refl
  find_first-none (x ∷ xs) h = ground (arith, find_first-none xs h.1)

  pub find_first-append :
      (before : List A) (a : A) (after : List A)
      → NoneOf before
      → test a ≡ true
      → find_first (before ++ a ∷ after) ≡ some a
  unfolding find_first
  find_first-append [] a after h hit = ground arith
  find_first-append (x ∷ xs) a after h hit = ground (arith, find_first-append xs a after h.1)

  -- The first node that passes is changed in place.
  unfoldable pub update_first : (A → A) → List A → List A
  update_first f [] = []
  update_first f (x ∷ xs) = if test x then f x ∷ xs else x ∷ update_first f xs

  pub update_first-append :
      (f : A → A) (before : List A) (a : A) (after : List A)
      → NoneOf before
      → test a ≡ true
      → update_first f (before ++ a ∷ after) ≡ before ++ f a ∷ after
  unfolding update_first
  update_first-append f [] a after h hit = ground arith
  update_first-append f (x ∷ xs) a after h hit =
      ground (arith, update_first-append f xs a after h.1)

  pub length-update_first : (f : A → A) (xs : List A) → length (update_first f xs) ≡ length xs
  unfolding update_first
  length-update_first f [] = refl
  length-update_first f (x ∷ xs) = ground (arith, length-update_first f xs)
