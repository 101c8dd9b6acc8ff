-- ===== src/Kernel/Memory/Join.antt =====
-- The second merge: the block before takes the units, or links to the block.
use cofi_ty_home.Common.{
  ℕ, ◌+◌, ◌≤◌, ◌<◌, ◌≡◌, refl, sym, ◌∙◌, ap, ◌≢◌, ◌⊎◌, inl, inr, List, [], ◌∷◌, arith, ℕ_discrete,
}
use cofi_ty_home.Kernel.Memory.{Header, Cells, write, merge_previous}
use cofi_ty_home.Kernel.Memory.Blocks.{Block, Sorted, Sorted-le, inside, inside_join, cover, total}
use cofi_ty_home.Kernel.Memory.Ring.{Tail, IsBlock, Seg, Has, Tail-frame}
use cofi_ty_home.Kernel.Memory.Place.{Seg-le}
use cofi_ty_home.Kernel.Memory.Merge.{Sorted-at, inside_at}

pub previous_others : (c : Cells) (bp p x : ℕ) → x ≢ p → merge_previous c bp p x ≡ c x
unfolding merge_previous write
previous_others c bp p x ne = ground arith

previous_apart :
    (c : Cells) (bp p : ℕ)
    → p + (c p).size ≢ bp
    → merge_previous c bp p p ≡ record (c p) { ptr = bp }
unfolding merge_previous write
previous_apart c bp p ne = ground arith

previous_touch :
    (c : Cells) (bp p : ℕ)
    → p + (c p).size ≡ bp
    → p ≢ bp
    → merge_previous c bp p p
      ≡ record { ptr = (c bp).ptr; size = (c p).size + (c bp).size; s_code = (c p).s_code }
unfolding merge_previous write
previous_touch c bp p touch np = ground arith

pub Seg-frame :
    (c d : Cells) (bp a z lo : ℕ) (bs : List Block)
    → Seg c a bs z
    → Sorted lo bs bp
    → a < bp
    → ((x : ℕ) → x ≢ bp → d x ≡ c x)
    → Seg d a bs z
Seg-frame c d bp a z lo [] seg s lt same = seg
Seg-frame c d bp a z lo ((x, n) ∷ bs) seg s lt same =
    let below : x < bp = omega (arith, Sorted-le (x + n) bs bp s.2) in
    let e : d x ≡ c x = same x (λ e. omega arith) in
    (
      ap (λ (h : Header). h.ptr) (same a (λ e. omega arith)) ∙ seg.0,
      (ap (λ (h : Header). h.size) e ∙ seg.1.0, ap (λ (h : Header). h.s_code) e ∙ seg.1.1),
      Seg-frame c d bp x z (x + n) bs seg.2 s.2 below same,
    )

-- The list from a node on, with a block of `n` units at `bp` in it.
pub record Joined (base : ℕ) (c d : Cells) (a sa bp n p hi : ℕ) (before after : List Block)
    : Type 0 where
  pub size : ℕ
  pub rest : List Block
  pub sized : (d a).size ≡ size
  pub code : (d a).s_code ≡ (c a).s_code
  pub le : sa ≤ size
  pub kept : a + sa < bp → size ≡ sa
  pub tail : Tail base d (d a).ptr rest
  pub sorted : Sorted (a + size) rest hi
  pub covers :
      (u : ℕ)
      → inside a size u + cover rest u
        ≡ inside a sa u + cover before u + (inside bp n u + cover after u)
  pub units : size + total rest ≡ sa + total before + (n + total after)
  pub place : (p ≡ a) ⊎ Has p rest

module _ (base : ℕ) (c : Cells) (bp n p hi : ℕ) (after : List Block) (block : IsBlock c bp n)
    (pos : 0 < n) (tail : Tail base c (c bp).ptr after) (sorted : Sorted (bp + n) after hi) where
  abbrev d : Cells
  d = merge_previous c bp p

  Tail-d : p < bp → Tail base d (c bp).ptr after
  Tail-d lt =
      Tail-frame base c d bp (c bp).ptr (bp + n) after hi sorted (omega arith)
        (λ x above. previous_others c bp p x (λ e. omega arith)) tail

  pub merge_previous-Joined :
      (a sa : ℕ) (before : List Block)
      → (c a).size ≡ sa
      → Seg c a before p
      → Sorted (a + sa) before bp
      → a < bp
      → Joined base c d a sa bp n p hi before after
  unfolding cover total
  merge_previous-Joined a sa [] size seg s lt = elim (ℕ_discrete (a + sa) bp) [
    | yes touch ↦
        let e : d a
            ≡ record { ptr = (c bp).ptr; size = (c a).size + (c bp).size; s_code = (c a).s_code } =
          rw (← seg) (previous_touch c bp a (omega (arith, size)) (λ e. omega arith)) in
        record {
          size = sa + n;
          rest = after;
          sized = rw e (omega (arith, size, block.0));
          code = rw e;
          le = omega arith;
          kept = λ h. absurd (omega arith);
          tail = rw e (Tail-d (omega arith));
          sorted = Sorted-at (bp + n) (a + (sa + n)) after hi (omega arith) sorted;
          covers = λ u. omega (arith, inside_join a sa n u, inside_at (a + sa) bp n u touch);
          units = omega arith;
          place = inl (sym seg);
        }
    | no apart ↦
        let e : d a ≡ record (c a) { ptr = bp } =
          rw (← seg) (previous_apart c bp a (λ e. apart (omega (arith, size)))) in
        let f : d bp ≡ c bp = previous_others c bp p bp (λ e. omega arith) in
        record {
          size = sa;
          rest = (bp, n) ∷ after;
          sized = rw e size;
          code = rw e;
          le = omega arith;
          kept = λ h. refl;
          tail = rw e (refl, rw f block, rw f (Tail-d (omega arith)));
          sorted = (omega arith, pos, sorted);
          covers = λ u. omega arith;
          units = omega arith;
          place = inl (sym seg);
        }
  ]
  merge_previous-Joined a sa ((x, m) ∷ before) size seg s lt =
      let under : x < bp = omega (arith, Sorted-le (x + m) before bp s.2) in
      let j = merge_previous-Joined x m before seg.1.0 seg.2 s.2 under in
      let ne : a ≢ p = λ e. omega (arith, Seg-le c x p (x + m) before bp seg.2 s.2 (omega arith)) in
      let e : d a ≡ c a = previous_others c bp p a ne in
      record {
        size = sa;
        rest = (x, j.size) ∷ j.rest;
        sized = rw e size;
        code = rw e;
        le = omega arith;
        kept = λ h. refl;
        tail = rw e (seg.0, (j.sized, j.code ∙ seg.1.1), j.tail);
        sorted = (s.0, omega (arith, j.le, s.1), j.sorted);
        covers = λ u. omega (arith, j.covers u);
        units = omega (arith, j.units);
        place = inr j.place;
      }
