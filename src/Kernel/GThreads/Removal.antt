-- ===== src/Kernel/GThreads/Removal.antt =====
-- The removal of a thread takes exactly this thread out of its list.
use cofi_ty_home.Common.{
  ℕ, zero, suc, ◌<◌, ◌≡◌, ◌≢◌, refl, sym, ◌∙◌, ap, Bool, Option, none, some, List, [], ◌∷◌, ◌++◌,
  if◌then◌else◌, arith, length,
}
use cofi_ty_home.Kernel.Threads.Ring.{Differ, NoDup}
use cofi_ty_home.Kernel.Links.{Linked, Linked-remove, Linked-head, head, last_of, last_of-some}
use cofi_ty_home.Kernel.GThreads.Lists.{
  Store, write, write_next, is_at, find_previous, Removal, remove, or_else, removed_behind,
}

abbrev pub link : Store → ℕ → Option ℕ
link s p = (s p).next

-- The first node of a list that is not empty, with a tail.
head-append :
    (before : List ℕ) (r : ℕ) (after : List ℕ) → (m : ℕ) × (head (before ++ r ∷ after) ≡ some m)
head-append [] r after = (r, refl)
head-append (x ∷ before) r after = (x, refl)

-- What follows a node of a list.
Linked-next :
    (n : ℕ → Option ℕ) (q : Option ℕ) (r : ℕ) (before after : List ℕ)
    → Linked n q (before ++ r ∷ after)
    → n r ≡ head after
Linked-next n q r [] after h = Linked-head n (n r) after h.1
Linked-next n q r (x ∷ before) after h = Linked-next n (n x) r before after h.1

find_previous-found :
    (fuel : ℕ) (s : Store) (r i p : ℕ) (prev : Option ℕ) (before after : List ℕ)
    → Linked (link s) (link s i) (before ++ r ∷ after)
    → Differ r before
    → last_of prev (i ∷ before) ≡ some p
    → length before < fuel
    → find_previous fuel s r i ≡ some (some p)
unfolding find_previous
find_previous-found zero s r i p prev before after h d last lt = absurd (omega arith)
find_previous-found (suc fuel) s r i p prev [] after h d last lt = ground (arith, h.0, last)
find_previous-found (suc fuel) s r i p prev (x ∷ before) after h d last lt =
    let (m, e) = head-append before r after in
    let n : link s x ≡ some m = Linked-head (link s) (link s x) (before ++ r ∷ after) h.1 ∙ e in
    let rest = find_previous-found fuel s r x p (some i) before after h.1 d.1 last (omega arith) in
    ground (arith, h.0, d.0, n, rest)

abbrev pub or_option : Option ℕ → Option ℕ → Option ℕ
or_option none q = q
or_option (some p) q = some p

or_else-or_option : (h : ℕ) (q : Option ℕ) → or_else h q ≡ or_option q (some h)
or_else-or_option h none = refl
or_else-or_option h (some q) = refl

-- What a removal makes of the list `before ++ r ∷ after`.
pub record Removed (s : Store) (current : Option ℕ) (r : ℕ) (before after : List ℕ)
    (result : Option (Option Removal)) : Type 0 where
  pub removal : Removal
  pub ok : result ≡ some (some removal)
  pub linked : Linked (link removal.store) removal.first (before ++ after)
  -- The current thread, if it is removed, is the next one, or the first one of the list.
  pub moved :
      removal.current
      ≡ (if is_at r current then or_option (head after) (head (before ++ after)) else current)
  pub frame : (y : ℕ) → Differ y before → link removal.store y ≡ link s y
  pub ids : (y : ℕ) → (removal.store y).id ≡ (s y).id

pub write_next_self : (s : Store) (p : ℕ) (q : Option ℕ) → link (write_next s p q) p ≡ q
unfolding write
write_next_self s p q = ground arith

pub write_next-other :
    (s : Store) (p : ℕ) (q : Option ℕ) (y : ℕ) → y ≢ p → link (write_next s p q) y ≡ link s y
unfolding write
write_next-other s p q y ne = ground arith

pub write_next-id : (s : Store) (p : ℕ) (q : Option ℕ) (y : ℕ) → (write_next s p q y).id ≡ (s y).id
unfolding write
write_next-id s p q y = ground arith

remove-first :
    (fuel : ℕ) (s : Store) (current : Option ℕ) (r : ℕ)
    → remove fuel s (some r) current r
      ≡ some (
          some (record {
            store = s;
            first = link s r;
            current = if is_at r current then link s r else current;
          }))
unfolding remove
remove-first fuel s current r = ground arith

remove-behind :
    (fuel : ℕ) (s : Store) (current : Option ℕ) (h p r : ℕ)
    → h ≢ r
    → find_previous fuel s r h ≡ some (some p)
    → remove fuel s (some h) current r ≡ some (some (removed_behind s h p current r))
unfolding remove
remove-behind fuel s current h p r ne found = ground (arith, found)

same-choice : (b : Bool) (x y c : Option ℕ) → x ≡ y → (if b then x else c) ≡ (if b then y else c)
same-choice b x y c e = rw e refl

or_option_self : (q : Option ℕ) → q ≡ or_option q q
or_option_self none = refl
or_option_self (some p) = refl

last_of-Differ :
    (y p : ℕ) (prev : Option ℕ) (x : ℕ) (before : List ℕ)
    → Differ y (x ∷ before)
    → last_of prev (x ∷ before) ≡ some p
    → y ≢ p
last_of-Differ y p prev x [] d last e =
    d.0 (e ∙ sym (ap (λ o. elim o [ none ↦ x | some z ↦ z ]) last))
last_of-Differ y p prev x (z ∷ before) d last e = last_of-Differ y p (some x) z before d.1 last e

-- With fuel for the nodes before it, the removal of a thread takes exactly it out of a list without
-- repetitions, and the current thread is another one only if it was this one.
pub remove-Removed :
    (fuel : ℕ) (s : Store) (q current : Option ℕ) (r : ℕ) (before after : List ℕ)
    → Linked (link s) q (before ++ r ∷ after)
    → NoDup (before ++ r ∷ after)
    → Differ r before
    → length before < fuel
    → Removed s current r before after (remove fuel s q current r)
remove-Removed fuel s q current r [] after h nd d lt =
    let next = Linked-head (link s) (link s r) after h.1 in
    rw h.0 (record {
      removal = record {
        store = s;
        first = link s r;
        current = if is_at r current then link s r else current;
      };
      ok = remove-first fuel s current r;
      linked = h.1;
      moved =
          same-choice (is_at r current) (link s r) (or_option (head after) (head after)) current
            (next ∙ or_option_self (head after));
      frame = λ y _. refl;
      ids = λ y. refl;
    })
remove-Removed fuel s q current r (i ∷ before) after h nd d lt =
    let (p, last) = last_of-some none i before in
    let s' = write_next s p (link s r) in
    let found = find_previous-found fuel s r i p none before after h.1 d.1 last (omega arith) in
    let passed = write_next_self s p (link s r) in
    let next = Linked-next (link s) (link s i) r before after h.1 in
    rw h.0 (record {
      removal = removed_behind s i p current r;
      ok = remove-behind fuel s current i p r (λ e. d.0 (sym e)) found;
      linked =
          Linked-remove (link s) (link s') r p none (some i) i before after (refl, h.1) last nd
            (λ y ne. write_next-other s p (link s r) y ne) passed;
      moved =
          same-choice (is_at r current) (or_else i (link s' p)) (or_option (head after) (some i))
            current
            (or_else-or_option i (link s' p) ∙ ap (λ o. or_option o (some i)) (passed ∙ next));
      frame =
          λ y far. write_next-other s p (link s r) y (last_of-Differ y p none i before far last);
      ids = λ y. write_next-id s p (link s r) y;
    })
