-- ===== src/Kernel/Memory/Free.antt =====
-- `gFree`: the free list gains exactly the units of the block.
use mathlib.Core.Path.{subst}
use native.Mathlib.Nat.{mul-le-mul_right, div-add-mod'}
use cofi_ty_home.Common.{
  ℕ, ◌+◌, ◌-◌, ◌*◌, ◌/◌, ◌%◌, ◌≤◌, ◌<◌, ◌≡◌, sym, ◌∙◌, ap, ◌≢◌, ◌⊎◌, inl, inr, Option, some, false,
  List, [], ◌∷◌, ◌++◌, arith, length, length-append, le→ltb, lt→leb,
}
use cofi_ty_home.Kernel.Memory.{
  Header, Cells, Layout, Memory, secret_code, size_alloc, merge_next, merge_previous, insert_block,
  outside, g_free_at, g_free,
}
use cofi_ty_home.Kernel.Memory.Blocks.{
  Block, Sorted, Gap-of_cover, inside, inside_in, cover, cover-append, total, total-append,
}
use cofi_ty_home.Kernel.Memory.Ring.{Tail, IsBlock, Seg, Has, Tail-split, Has-split}
use cofi_ty_home.Kernel.Memory.Place.{Opened, find_place_lem, Seg-lt}
use cofi_ty_home.Kernel.Memory.Merge.{Merged, merge_next-Merged}
use cofi_ty_home.Kernel.Memory.Join.{Joined, merge_previous-Joined, previous_others, Seg-frame}

-- The circular list of the blocks `bs`, with `freep` at one of its nodes.
pub record IsFreeList (base hi : ℕ) (c : Cells) (f : ℕ) (bs : List Block) : Type 0 where
  pub base_size : (c base).size ≡ 0
  pub ring : Tail base c (c base).ptr bs
  pub sorted : Sorted base bs hi
  pub node : (f ≡ base) ⊎ Has f bs

-- What a call of `gFree` on the block of `sz` units at `bp` makes of the list `bs`.
pub record Freed (base hi : ℕ) (c : Cells) (bs : List Block) (bp sz : ℕ) (r : Option Memory)
    : Type 0 where
  pub place : ℕ
  pub cells : Cells
  pub list : List Block
  pub result : r ≡ some (record { freep = some place; cells = cells })
  pub is_free_list : IsFreeList base hi cells place list
  pub covers : (u : ℕ) → cover list u ≡ cover bs u + inside bp sz u
  pub units : total list ≡ total bs + sz
  pub others : (x : ℕ) → cover bs x ≡ 0 → x ≢ base → x ≢ bp → cells x ≡ c x

pub Seg-cover :
    (c : Cells) (a z lo : ℕ) (bs : List Block) (hi : ℕ)
    → Seg c a bs z
    → Sorted lo bs hi
    → (z ≡ a) ⊎ (1 ≤ cover bs z)
unfolding cover
Seg-cover c a z lo [] hi seg s = inl (sym seg)
Seg-cover c a z lo ((x, n) ∷ bs) hi seg s = elim (Seg-cover c x z (x + n) bs hi seg.2 s.2) [
  | inl e ↦ inr (omega (arith, inside_in x n z (omega arith) (omega arith)))
  | inr covered ↦ inr (omega arith)
]

module _ (base hi : ℕ) (c : Cells) (f bp sz fuel : ℕ) where
  insert_split :
      (before after : List Block) (p : ℕ)
      → (c base).size ≡ 0
      → IsBlock c bp sz
      → Opened c base p bp sz hi before after
      → (f ≡ base) ⊎ (Has f before ⊎ Has f after)
      → length before + length after + 2 ≤ fuel
      → Freed base hi c (before ++ after) bp sz (insert_block fuel bp f c)
  unfolding insert_block
  insert_split before after p size block o node enough = record {
    place = p;
    cells = merge_previous c1 bp p;
    list = j.rest;
    result = rw (find_place_lem c base p bp sz hi before after f fuel o node enough);
    is_free_list = record {
      base_size = j.sized ∙ kept;
      ring = j.tail;
      sorted = subst (λ x. Sorted x j.rest hi) (omega (arith, kept)) j.sorted;
      node = j.place;
    };
    covers = λ u. omega (
      arith,
      j.covers u,
      m.covers u,
      cover-append before after u,
      ap (λ n. inside base n u) kept,
    );
    units = omega (arith, j.units, m.units, total-append before after, kept);
    others = λ x free nb np.
        previous_others c1 bp p x (λ e. elim front_cover [
          | inl at_base ↦ nb (e ∙ at_base)
          | inr covered ↦ omega (arith, cover-append before after x, ap (cover before) e)
        ])
        ∙ m.others x np;
  }
    where
      p_lt : p < bp
      p_lt = Seg-lt c base p base before bp o.front o.low o.base_lt

      c1 : Cells
      c1 = merge_next c bp p

      m : Merged base c c1 bp sz hi after
      m = merge_next-Merged base c bp p sz hi after block o.pos o.base_lt p_lt o.back o.high

      size1 : (c1 base).size ≡ 0
      size1 = ap (λ (h : Header). h.size) (m.others base (λ e. omega (arith, o.base_lt))) ∙ size

      seg1 : Seg c1 base before p
      seg1 = Seg-frame c c1 bp base p base before o.front o.low o.base_lt m.others

      j : Joined base c1 (merge_previous c1 bp p) base 0 bp m.size p hi before m.rest
      j =
          merge_previous-Joined base c1 bp m.size p hi m.rest m.block m.pos m.tail m.sorted base 0
            before size1 seg1 (subst (λ x. Sorted x before bp) (omega arith) o.low) o.base_lt

      kept : j.size ≡ 0
      kept = j.kept (omega (arith, o.base_lt))

      front_cover : (p ≡ base) ⊎ (1 ≤ cover before p)
      front_cover = Seg-cover c base p base before bp o.front o.low

  node_split :
      (before after : List Block)
      → (f ≡ base) ⊎ Has f (before ++ after)
      → (f ≡ base) ⊎ (Has f before ⊎ Has f after)
  node_split before after (inl e) = inl e
  node_split before after (inr h) = inr (Has-split f before after h)

  pub insert_block-Freed :
      (bs : List Block)
      → IsFreeList base hi c f bs
      → IsBlock c bp sz
      → 0 < sz
      → base < bp
      → bp + sz ≤ hi
      → ((u : ℕ) → bp ≤ u → u < bp + sz → cover bs u ≡ 0)
      → length bs + 2 ≤ fuel
      → Freed base hi c bs bp sz (insert_block fuel bp f c)
  insert_block-Freed bs l block pos low top clear enough =
      let g = Gap-of_cover base bs hi bp sz l.sorted (omega arith) pos top clear in
      let (p, front, back) =
        Tail-split base c base g.before g.after
          (subst (λ x. Tail base c (c base).ptr x) g.split l.ring) in
      let o : Opened c base p bp sz hi g.before g.after = record {
        front = front;
        back = back;
        low = g.low;
        high = g.high;
        pos = pos;
        base_lt = low;
      } in
      subst (λ x. Freed base hi c x bp sz (insert_block fuel bp f c)) (sym g.split)
        (insert_split g.before g.after p l.base_size block o
          (node_split g.before g.after (subst (λ x. (f ≡ base) ⊎ Has f x) g.split l.node))
          (omega (arith, ap length g.split, length-append g.before g.after)))

-- `base` lies below the heap, and the size of a header does not divide that of the heap, as with
-- headers of 24 or of 12 bytes.
pub record IsLayout (l : Layout) : Type 0 where
  pub unit_pos : 0 < l.unit
  pub remainder : 0 < size_alloc % l.unit
  pub base_lt : l.base < l.heap

-- The first unit behind the heap.
abbrev pub top : Layout → ℕ
top l = l.heap + size_alloc / l.unit

module _ (l : Layout) (ok : IsLayout l) where
  outside-false : (ap : ℕ) → l.heap ≤ ap → ap ≤ top l → outside l ap ≡ false
  outside-false ap lo hi =
      let a = mul-le-mul_right l.unit lo in
      let b = mul-le-mul_right l.unit hi in
      let c = div-add-mod' size_alloc l.unit in
      let r = ok.remainder in
      rw (le→ltb _ _ a, lt→leb (l.heap * l.unit + size_alloc) (ap * l.unit) (omega arith))

  g_free-insert :
      (fuel f ap : ℕ) (m : Memory)
      → m.freep ≡ some f
      → outside l ap ≡ false
      → (m.cells (ap - 1)).s_code ≡ secret_code
      → g_free l fuel (some ap) m ≡ insert_block fuel (ap - 1) f m.cells
  unfolding g_free g_free_at
  g_free-insert fuel f ap m e inside code = ground arith

  -- A block of the heap that is not free, with its header intact, goes into the free list: the list
  -- then covers the units that it covered and those of the block, each once.
  pub g_free-Freed :
      (fuel f bp sz : ℕ) (m : Memory) (bs : List Block)
      → m.freep ≡ some f
      → IsFreeList l.base (top l) m.cells f bs
      → IsBlock m.cells bp sz
      → 0 < sz
      → l.heap ≤ bp
      → bp + sz ≤ top l
      → ((u : ℕ) → bp ≤ u → u < bp + sz → cover bs u ≡ 0)
      → length bs + 2 ≤ fuel
      → Freed l.base (top l) m.cells bs bp sz (g_free l fuel (some (bp + 1)) m)
  g_free-Freed fuel f bp sz m bs e free block pos low high clear enough =
      let back : bp + 1 - 1 ≡ bp = omega arith in
      rw
        (
          g_free-insert fuel f (bp + 1) m e (outside-false (bp + 1) (omega arith) (omega arith))
              (rw back block.1),
          back,
        )
        (insert_block-Freed l.base (top l) m.cells f bp sz fuel bs free block pos
          (omega (arith, ok.base_lt)) high clear enough)
