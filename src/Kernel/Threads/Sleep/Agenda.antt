-- ===== src/Kernel/Threads/Sleep/Agenda.antt =====
-- Sleeping and waking keep the ring of active threads and the list of sleeping ones.
use cofi_ty_home.Common.{
  ℕ, zero, suc, ◌≤◌, ◌<◌, ◌≡◌, refl, sym, ap, ◌≢◌, Option, some, List, [], ◌∷◌, ◌++◌, arith, length,
  dec_lt,
}
use cofi_ty_home.Kernel.Threads.{Ctxs}
use cofi_ty_home.Kernel.Threads.Ring.{Differ}
use cofi_ty_home.Kernel.Links.{Linked, head, last_of}
use cofi_ty_home.Kernel.Threads.Sleep.{find_slot}

-- The times of the threads ascend, from `lo`.
abbrev pub Ascending : (ℕ → ℕ) → ℕ → List ℕ → Type 0
Ascending f lo [] = Unit
Ascending f lo (x ∷ xs) = (lo ≤ f x) × Ascending f (f x) xs

-- Every thread wakes before, or every one not before, a time.
abbrev pub AllBefore : (ℕ → ℕ) → ℕ → List ℕ → Type 0
AllBefore f t [] = Unit
AllBefore f t (x ∷ xs) = (f x < t) × AllBefore f t xs

abbrev pub NoneBefore : (ℕ → ℕ) → ℕ → List ℕ → Type 0
NoneBefore f t [] = Unit
NoneBefore f t (x ∷ xs) = (t ≤ f x) × NoneBefore f t xs

pub Ascending-NoneBefore :
    (f : ℕ → ℕ) (lo t : ℕ) (xs : List ℕ) → t ≤ lo → Ascending f lo xs → NoneBefore f t xs
Ascending-NoneBefore f lo t [] le h = tt
Ascending-NoneBefore f lo t (x ∷ xs) le h =
    (omega (arith, h.0), Ascending-NoneBefore f (f x) t xs (omega (arith, h.0)) h.1)

pub Ascending-insert :
    (f : ℕ → ℕ) (lo t : ℕ) (before after : List ℕ)
    → lo ≤ f t
    → AllBefore f (f t) before
    → NoneBefore f (f t) after
    → Ascending f lo (before ++ after)
    → Ascending f lo (before ++ t ∷ after)
Ascending-insert f lo t [] [] le b n a = (le, tt)
Ascending-insert f lo t [] (x ∷ after) le b n a = (le, (n.0, a.1))
Ascending-insert f lo t (x ∷ before) after le b n a =
    (a.0, Ascending-insert f (f x) t before after (omega (arith, b.0)) b.1 n a.1)

-- Other times of threads that are not in the list.
pub Ascending-frame :
    (f g : ℕ → ℕ) (p lo hi : ℕ) (xs : List ℕ)
    → ((y : ℕ) → y ≢ p → g y ≡ f y)
    → Differ p xs
    → lo ≤ hi
    → Ascending f hi xs
    → Ascending g lo xs
Ascending-frame f g p lo hi [] same d le a = tt
Ascending-frame f g p lo hi (x ∷ xs) same d le a =
    let e : g x ≡ f x = same x (λ i. d.0 (sym i)) in
    (omega (arith, a.0, e), Ascending-frame f g p (g x) (f x) xs same d.1 (omega (arith, e)) a.1)

pub Ascending-same :
    (f g : ℕ → ℕ) (lo hi : ℕ) (xs : List ℕ)
    → ((y : ℕ) → g y ≡ f y)
    → lo ≤ hi
    → Ascending f hi xs
    → Ascending g lo xs
Ascending-same f g lo hi [] same le a = tt
Ascending-same f g lo hi (x ∷ xs) same le a =
    (omega (arith, a.0, same x), Ascending-same f g (g x) (f x) xs same (omega (arith, same x)) a.1)

-- Where the loop of `sleep` stops.
pub record Slot (f : ℕ → ℕ) (t : ℕ) (prev : Option ℕ) (xs : List ℕ)
    (r : Option (Option ℕ × Option ℕ)) : Type 0 where
  pub before : List ℕ
  pub after : List ℕ
  pub split : xs ≡ before ++ after
  pub result : r ≡ some (last_of prev before, head after)
  pub early : AllBefore f t before
  pub late : NoneBefore f t after

abbrev pub next_of : Ctxs → ℕ → Option ℕ
next_of c y = (c y).next

abbrev pub time_of : Ctxs → ℕ → ℕ
time_of c y = (c y).time_to_wait

slot_over :
    (fuel : ℕ) (c : Ctxs) (t x : ℕ) (prev : Option ℕ)
    → time_of c x < t
    → find_slot (suc fuel) c t prev (some x) ≡ find_slot fuel c t (some x) (c x).next
unfolding find_slot
slot_over fuel c t x prev lt = ground arith

slot_stop :
    (fuel : ℕ) (c : Ctxs) (t x : ℕ) (prev : Option ℕ)
    → t ≤ time_of c x
    → find_slot (suc fuel) c t prev (some x) ≡ some (prev, some x)
unfolding find_slot
slot_stop fuel c t x prev le = ground arith

pub find_slot-Slot :
    (fuel : ℕ) (c : Ctxs) (t lo : ℕ) (prev q : Option ℕ) (xs : List ℕ)
    → Linked (next_of c) q xs
    → Ascending (time_of c) lo xs
    → length xs < fuel
    → Slot (time_of c) t prev xs (find_slot fuel c t prev q)
unfolding find_slot
find_slot-Slot zero c t lo prev q xs h a lt = absurd (omega arith)
find_slot-Slot (suc fuel) c t lo prev q [] h a lt =
    rw h (record { before = []; after = []; split = refl; result = refl; early = tt; late = tt })
find_slot-Slot (suc fuel) c t lo prev q (x ∷ xs) h a lt = elim (dec_lt (time_of c x) t) [
  | no late ↦
      rw (h.0, slot_stop fuel c t x prev (omega (arith, late)))
        (record {
          before = [];
          after = x ∷ xs;
          split = refl;
          result = refl;
          early = tt;
          late = (
            omega (arith, late),
            Ascending-NoneBefore (time_of c) (time_of c x) t xs (omega (arith, late)) a.1,
          );
        })
  | yes early ↦
      let s = find_slot-Slot fuel c t (time_of c x) (some x) (c x).next xs h.1 a.1 (omega arith) in
      rw (h.0, slot_over fuel c t x prev early)
        (record {
          before = x ∷ s.before;
          after = s.after;
          split = ap (◌∷◌ x) s.split;
          result = s.result;
          early = (early, s.early);
          late = s.late;
        })
]
