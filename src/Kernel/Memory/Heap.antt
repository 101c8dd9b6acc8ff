-- ===== src/Kernel/Memory/Heap.antt =====
-- The heap of memory.c between the calls: which units are free and which a client holds.
use native.Mathlib.Nat.{div-add-mod', mod-lt}
use cofi_ty_home.Common.{
  ℕ, ◌+◌, ◌*◌, ◌/◌, ◌≤◌, ◌<◌, ◌≡◌, refl, ◌∙◌, ap, Option, some, List, [], ◌∷◌, ◌++◌, arith, length,
  dec_lt,
}
use cofi_ty_home.Kernel.Memory.{Header, Cells, Memory, Layout, size_alloc}
use cofi_ty_home.Kernel.Memory.Blocks.{Block, Sorted, inside, inside_in, cover, total}
use cofi_ty_home.Kernel.Memory.Ring.{IsBlock}
use cofi_ty_home.Kernel.Memory.Free.{IsFreeList, Freed, IsLayout, top}
use cofi_ty_home.Kernel.Memory.Carve.{Carved}

-- Each block that a client holds is not empty and has its header.
abbrev pub AllHeld : Cells → List Block → Type 0
AllHeld c [] = Unit
AllHeld c ((b, s) ∷ bs) = (0 < s) × IsBlock c b s × AllHeld c bs

-- The heap is cut into the blocks `free` of the free list and the blocks `held`: each of its units
-- is in exactly one of them, and no unit outside it is in any.
pub record IsHeap (l : Layout) (m : Memory) (free held : List Block) : Type 0 where
  pub freep : ℕ
  pub at_freep : m.freep ≡ some freep
  pub free_list : IsFreeList l.base (top l) m.cells freep free
  pub headers : AllHeld m.cells held
  pub cut : (u : ℕ) → cover free u + cover held u ≡ inside l.heap (size_alloc / l.unit) u
  pub all_units : total free + total held ≡ size_alloc / l.unit

-- The fuel that the loops need at most: twice round a list of blocks of one unit each.
abbrev pub rounds : Layout → ℕ
rounds l = 2 * (size_alloc / l.unit) + 3

length-total : (lo : ℕ) (bs : List Block) (hi : ℕ) → Sorted lo bs hi → length bs ≤ total bs
unfolding total
length-total lo [] hi h = omega arith
length-total lo ((b, s) ∷ bs) hi h = omega (arith, length-total (b + s) bs hi h.2)

inside_bounds : (b s u : ℕ) → inside b s u ≡ 1 → (b ≤ u) × (u < b + s)
unfolding inside
inside_bounds b s u h = ground arith

inside_le : (b s u : ℕ) → inside b s u ≤ 1
unfolding inside
inside_le b s u = ground arith

AllHeld-frame :
    (c d : Cells) (held : List Block)
    → ((x : ℕ) → 1 ≤ cover held x → d x ≡ c x)
    → AllHeld c held
    → AllHeld d held
unfolding cover
AllHeld-frame c d [] same h = tt
AllHeld-frame c d ((b, s) ∷ bs) same h =
    let here = inside_in b s b (omega arith) (omega (arith, h.0)) in
    let e : d b ≡ c b = same b (omega (arith, here)) in
    (
      h.0,
      (ap (λ (x : Header). x.size) e ∙ h.1.0, ap (λ (x : Header). x.s_code) e ∙ h.1.1),
      AllHeld-frame c d bs (λ x le. same x (omega arith)) h.2,
    )

pub AllHeld-drop :
    (c : Cells) (pre : List Block) (b s : ℕ) (post : List Block)
    → AllHeld c (pre ++ (b, s) ∷ post)
    → AllHeld c (pre ++ post) × (0 < s) × IsBlock c b s
AllHeld-drop c [] b s post h = (h.2, h.0, h.1)
AllHeld-drop c ((x, n) ∷ pre) b s post h =
    let (rest, pos, block) = AllHeld-drop c pre b s post h.2 in ((h.0, h.1, rest), pos, block)

pub cover-drop :
    (pre : List Block) (b s : ℕ) (post : List Block) (u : ℕ)
    → cover (pre ++ (b, s) ∷ post) u ≡ inside b s u + cover (pre ++ post) u
unfolding cover
cover-drop [] b s post u = refl
cover-drop ((x, n) ∷ pre) b s post u = omega (arith, cover-drop pre b s post u)

total-drop :
    (pre : List Block) (b s : ℕ) (post : List Block)
    → total (pre ++ (b, s) ∷ post) ≡ s + total (pre ++ post)
unfolding total
total-drop [] b s post = refl
total-drop ((x, n) ∷ pre) b s post = omega (arith, total-drop pre b s post)

pub has_units : (l : Layout) → IsLayout l → l.unit ≤ size_alloc → 0 < size_alloc / l.unit
has_units l ok le = elim (dec_lt 0 (size_alloc / l.unit)) [
  | yes pos ↦ pos
  | no none_at_all ↦
      let zero_units : size_alloc / l.unit ≡ 0 = omega (arith, none_at_all) in
      let parts = div-add-mod' size_alloc l.unit in
      absurd (omega (arith, mod-lt size_alloc ok.unit_pos, rw zero_units at parts))
]

module _ (l : Layout) (ok : IsLayout l) where
  pub heap_bounds :
      (m : Memory) (free held : List Block) (u : ℕ)
      → IsHeap l m free held
      → 1 ≤ cover free u + cover held u
      → (l.heap ≤ u) × (u < top l)
  heap_bounds m free held u h some_block =
      inside_bounds l.heap (size_alloc / l.unit) u
        (omega (arith, h.cut u, inside_le l.heap (size_alloc / l.unit) u))

  pub once :
      (m : Memory) (free held : List Block) (u : ℕ)
      → IsHeap l m free held
      → cover free u + cover held u ≤ 1
  once m free held u h = omega (arith, h.cut u, inside_le l.heap (size_alloc / l.unit) u)

  pub length-free :
      (m : Memory) (free held : List Block)
      → IsHeap l m free held
      → length free ≤ size_alloc / l.unit
  length-free m free held h =
      omega (arith, length-total l.base free (top l) h.free_list.sorted, h.all_units)

  pub Carved-IsHeap :
      (m : Memory) (free held : List Block) (n : ℕ) (r : Option (Option ℕ × Memory))
      → IsHeap l m free held
      → 0 < n
      → (k : Carved l.base (top l) m.cells free n r)
      → IsHeap l (record { freep = some k.freep; cells = k.cells }) k.list ((k.at, n) ∷ held)
  unfolding cover total
  Carved-IsHeap m free held n r h pos k = record {
    freep = k.freep;
    at_freep = refl;
    free_list = k.is_free_list;
    headers = (
      pos,
      k.block,
      AllHeld-frame m.cells k.cells held
          (λ x le.
            k.others x (omega (arith, once m free held x h))
              (λ e. omega (arith, ok.base_lt, (heap_bounds m free held x h (omega arith)).0)))
          h.headers,
    );
    cut = λ u. omega (arith, k.covers u, h.cut u);
    all_units = omega (arith, k.units, h.all_units);
  }

  pub Freed-IsHeap :
      (m : Memory) (free pre post : List Block) (bp sz : ℕ) (r : Option Memory)
      → IsHeap l m free (pre ++ (bp, sz) ∷ post)
      → (k : Freed l.base (top l) m.cells free bp sz r)
      → IsHeap l (record { freep = some k.place; cells = k.cells }) k.list (pre ++ post)
  Freed-IsHeap m free pre post bp sz r h k =
      let (rest, pos, block) = AllHeld-drop m.cells pre bp sz post h.headers in
      let drop = cover-drop pre bp sz post in
      record {
        freep = k.place;
        at_freep = refl;
        free_list = k.is_free_list;
        headers =
            AllHeld-frame m.cells k.cells (pre ++ post)
              (λ x le.
                k.others x (omega (arith, drop x, once m free (pre ++ (bp, sz) ∷ post) x h))
                  (λ e. omega (
                    arith,
                    ok.base_lt,
                    drop x,
                    (heap_bounds m free (pre ++ (bp, sz) ∷ post) x h (omega (arith, drop x))).0,
                  ))
                  (λ e. omega (
                    arith,
                    drop x,
                    once m free (pre ++ (bp, sz) ∷ post) x h,
                    inside_in bp sz x (omega (arith, e)) (omega (arith, e, pos)),
                  )))
              rest;
        cut = λ u. omega (arith, k.covers u, drop u, h.cut u);
        all_units = omega (arith, k.units, total-drop pre bp sz post, h.all_units);
      }
