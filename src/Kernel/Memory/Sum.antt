-- ===== src/Kernel/Memory/Sum.antt =====
-- `getGMemFree` counts the bytes of the free blocks, from wherever `freep` stands.
use mathlib.Core.Path.{subst}
use native.Mathlib.Nat.{add-mul}
use cofi_ty_home.Common.{
  ℕ, zero, suc, ◌+◌, ◌*◌, ◌/◌, ◌≤◌, ◌<◌, ◌≡◌, sym, ◌∙◌, ap, ◌≢◌, ◌⊎◌, inl, inr, some, List, [], ◌∷◌,
  ◌++◌, arith, length, length-append,
}
use cofi_ty_home.Kernel.Memory.{Cells, Memory, Layout, size_alloc, sum_free, get_g_mem_free}
use cofi_ty_home.Kernel.Memory.Blocks.{Block, Sorted, total, total-append}
use cofi_ty_home.Kernel.Memory.Ring.{Tail, Has, Tail-split}
use cofi_ty_home.Kernel.Memory.Free.{IsLayout, top}
use cofi_ty_home.Kernel.Memory.First.{Has-at, Sorted-has}
use cofi_ty_home.Kernel.Memory.Heap.{IsHeap, rounds, length-free}

module _ (l : Layout) (base hi f : ℕ) (c : Cells) where
  sum_over :
      (g p r : ℕ)
      → p ≢ f
      → sum_free l g f (c p).ptr c ≡ some r
      → sum_free l (suc g) f p c ≡ some ((c p).size * l.unit + r)
  unfolding sum_free
  sum_over g p r ne e = ground arith

  sum_end : (g : ℕ) → sum_free l (suc g) f f c ≡ some ((c f).size * l.unit)
  unfolding sum_free
  sum_end g = ground arith

  -- Through the blocks to `base`.
  sum_to_base :
      (fuel k q r lo : ℕ) (bs : List Block)
      → Tail base c q bs
      → Sorted lo bs hi
      → f ≤ lo
      → length bs + k ≤ fuel
      → ((g : ℕ) → k ≤ g → sum_free l g f base c ≡ some r)
      → sum_free l fuel f q c ≡ some (total bs * l.unit + r)
  unfolding total
  sum_to_base fuel k q r lo [] tail s le enough go =
      rw tail (go fuel (omega arith) ∙ ap some (omega arith))
  sum_to_base zero k q r lo ((x, n) ∷ bs) tail s le enough go = absurd (omega arith)
  sum_to_base (suc fuel) k q r lo ((x, n) ∷ bs) tail s le enough go = rw tail.0 (
      sum_over fuel x (total bs * l.unit + r) (λ e. omega arith)
        (sum_to_base fuel k (c x).ptr r (x + n) bs tail.2 s.2 (omega arith) (omega arith) go)
      ∙ ap some
          (omega (arith, tail.1.0, add-mul n (total bs) l.unit, ap (λ y. y * l.unit) tail.1.0)))

  -- Through the blocks to the one at `freep`.
  sum_to_node :
      (fuel q lo sf : ℕ) (pre post : List Block)
      → Tail base c q (pre ++ (f, sf) ∷ post)
      → Sorted lo (pre ++ (f, sf) ∷ post) hi
      → length pre + 1 ≤ fuel
      → sum_free l fuel f q c ≡ some ((total pre + sf) * l.unit)
  unfolding total
  sum_to_node zero q lo sf pre post tail s enough = absurd (omega arith)
  sum_to_node (suc fuel) q lo sf [] post tail s enough =
      rw tail.0 (sum_end fuel ∙ ap some (ap (λ y. y * l.unit) (tail.1.0 ∙ omega arith)))
  sum_to_node (suc fuel) q lo sf ((x, n) ∷ pre) post tail s enough = rw tail.0 (
      sum_over fuel x ((total pre + sf) * l.unit)
        (λ e. omega (arith, (Sorted-has (x + n) pre f sf post hi s.2).0))
        (sum_to_node fuel (c x).ptr (x + n) sf pre post tail.2 s.2 (omega arith))
      ∙ ap some (
          omega (
            arith,
            add-mul n (total pre + sf) l.unit,
            add-mul (n + total pre) sf l.unit,
            add-mul n (total pre) l.unit,
            add-mul (total pre) sf l.unit,
            ap (λ y. y * l.unit) tail.1.0,
          )))

  sum_ring :
      (fuel : ℕ) (bs : List Block)
      → (c base).size ≡ 0
      → Tail base c (c base).ptr bs
      → Sorted base bs hi
      → (f ≡ base) ⊎ Has f bs
      → length bs + 1 ≤ fuel
      → sum_free l fuel f (c f).ptr c ≡ some (total bs * l.unit)
  unfolding total
  sum_ring fuel bs size ring sort (inl e) enough =
      subst (λ x. sum_free l fuel f (c x).ptr c ≡ some (total bs * l.unit)) (sym e)
        (sum_to_base fuel 1 (c base).ptr 0 base bs ring sort (omega (arith, e)) enough
            (λ g le. at_base g le)
          ∙ ap some (omega arith))
    where
      at_base : (g : ℕ) → 1 ≤ g → sum_free l g f base c ≡ some 0
      at_base zero le = absurd (omega arith)
      at_base (suc g) le =
          subst (λ x. sum_free l (suc g) f x c ≡ some 0) e
            (sum_end g
              ∙ ap some (ap (λ y. y * l.unit) (ap (λ x. (c x).size) e ∙ size) ∙ omega arith))
  sum_ring fuel bs size ring sort (inr has) enough =
      let (pre, sf, post, e) = Has-at f bs has in
      let tail = subst (λ x. Tail base c (c base).ptr x) e ring in
      let sorted = subst (λ x. Sorted base x hi) e sort in
      let (z, front, back) = Tail-split base c base pre ((f, sf) ∷ post) tail in
      let above = Sorted-has base pre f sf post hi sorted in
      let len = ap length e ∙ length-append pre ((f, sf) ∷ post) in
      sum_to_base fuel (length pre + 2) (c f).ptr ((total pre + sf) * l.unit) (f + sf) post back.2
        above.1 (omega arith) (omega arith) (λ g le. at_base pre sf post g tail sorted above.0 le)
      ∙ ap some (
          sym (add-mul (total post) (total pre + sf) l.unit)
          ∙ ap (λ y. y * l.unit) (sym (sums_to pre sf post e)))
    where
      sums_to :
          (pre : List Block) (sf : ℕ) (post : List Block)
          → bs ≡ pre ++ (f, sf) ∷ post
          → total bs ≡ total post + (total pre + sf)
      sums_to pre sf post e = omega (arith, ap total e, total-append pre ((f, sf) ∷ post))

      at_base :
          (pre : List Block) (sf : ℕ) (post : List Block) (g : ℕ)
          → Tail base c (c base).ptr (pre ++ (f, sf) ∷ post)
          → Sorted base (pre ++ (f, sf) ∷ post) hi
          → base < f
          → length pre + 2 ≤ g
          → sum_free l g f base c ≡ some ((total pre + sf) * l.unit)
      at_base pre sf post zero tail sorted lt le = absurd (omega arith)
      at_base pre sf post (suc g) tail sorted lt le =
          sum_over g base ((total pre + sf) * l.unit) (λ e. omega (arith, e))
            (sum_to_node g (c base).ptr base sf pre post tail sorted (omega arith))
          ∙ ap some (omega (arith, ap (λ y. y * l.unit) size))

module _ (l : Layout) (ok : IsLayout l) where
  -- In a heap that is cut into free and held blocks, and with fuel for two rounds, `getGMemFree`
  -- returns a number of bytes that with those of the held blocks, headers included, makes up all the
  -- units of the heap.
  pub get_g_mem_free-IsHeap :
      (m : Memory) (free held : List Block) (fuel : ℕ)
      → IsHeap l m free held
      → rounds l ≤ fuel
      → (n : ℕ) × (get_g_mem_free l fuel m ≡ some n)
        × (n + total held * l.unit ≡ size_alloc / l.unit * l.unit)
  unfolding get_g_mem_free
  get_g_mem_free-IsHeap m free held fuel h enough = (
    total free * l.unit,
    rw (h.at_freep) (
        sum_ring l l.base (top l) h.freep m.cells fuel free h.free_list.base_size h.free_list.ring
          h.free_list.sorted h.free_list.node (omega (arith, length-free l ok m free held h))),
    sym (add-mul (total free) (total held) l.unit) ∙ ap (λ y. y * l.unit) h.all_units,
  )
