-- ===== src/Kernel/Memory/Session.antt =====
-- What each call makes of the heap: `gFree`, `gMalloc` and `initMemory`.
use cofi_ty_home.Common.{
  ℕ, ◌+◌, ◌-◌, ◌/◌, ◌≤◌, ◌<◌, ◌≡◌, refl, ◌⊎◌, inl, inr, Option, none, some, List, [], ◌∷◌, ◌++◌,
  arith, dec_lt,
}
use cofi_ty_home.Kernel.Memory.{
  Memory, Layout, size_alloc, init_memory, g_malloc, g_free, units, write, set_ptr, set_size,
  set_code,
}
use cofi_ty_home.Kernel.Memory.Blocks.{Block, inside_in, cover, total}
use cofi_ty_home.Kernel.Memory.Free.{IsLayout, top, g_free-Freed}
use cofi_ty_home.Kernel.Memory.First.{AllSmall, gives, refuses, units_pos, g_malloc-Outcome}
use cofi_ty_home.Kernel.Memory.Heap.{
  IsHeap, rounds, has_units, AllHeld-drop, cover-drop, heap_bounds, once, length-free,
  Carved-IsHeap, Freed-IsHeap,
}

module _ (l : Layout) (ok : IsLayout l) where
  -- In a heap that is cut into free and held blocks, and with fuel for two rounds, `gFree` of a held
  -- block returns, and the heap is then cut into free blocks and the other held ones.
  pub g_free-IsHeap :
      (m : Memory) (free pre post : List Block) (bp sz fuel : ℕ)
      → IsHeap l m free (pre ++ (bp, sz) ∷ post)
      → rounds l ≤ fuel
      → (m' : Memory) × (free' : List Block) × (g_free l fuel (some (bp + 1)) m ≡ some m')
        × IsHeap l m' free' (pre ++ post)
  g_free-IsHeap m free pre post bp sz fuel h enough =
      let (rest, pos, block) = AllHeld-drop m.cells pre bp sz post h.headers in
      let drop = cover-drop pre bp sz post in
      let all = pre ++ (bp, sz) ∷ post in
      let low =
        heap_bounds l ok m free all bp h
          (omega (arith, drop bp, inside_in bp sz bp (omega arith) (omega (arith, pos)))) in
      let high = heap_bounds l ok m free all (bp + sz - 1) h (
        omega (
          arith,
          drop (bp + sz - 1),
          inside_in bp sz (bp + sz - 1) (omega (arith, pos)) (omega (arith, pos)),
        )) in
      let k =
        g_free-Freed l ok fuel h.freep bp sz m free h.at_freep h.free_list block pos low.0
          (omega (arith, high.1, pos))
          (λ u le lt. omega (arith, drop u, inside_in bp sz u le lt, once l ok m free all u h))
          (omega (arith, length-free l ok m free all h)) in
      (
        record { freep = some k.place; cells = k.cells },
        k.list,
        k.result,
        Freed-IsHeap l ok m free pre post bp sz _ h k,
      )

  g_malloc_large :
      (m : Memory) (f nbytes fuel : ℕ)
      → m.freep ≡ some f
      → size_alloc < nbytes
      → g_malloc l fuel nbytes m ≡ some (none, m)
  unfolding g_malloc
  g_malloc_large m f nbytes fuel e lt = ground arith

  -- The two answers of `gMalloc`: a block, which is then held, or null, for one of two reasons.
  pub data Answer (m : Memory) (free held : List Block) (nbytes : ℕ)
      (r : Option (Option ℕ × Memory)) : Type 0 where
    gave :
        (at : ℕ) (m' : Memory) (free' : List Block)
        → r ≡ some (some (at + 1), m')
        → IsHeap l m' free' ((at, units l nbytes) ∷ held)
        → Answer m free held nbytes r
    refused :
        r ≡ some (none, m)
        → (size_alloc < nbytes) ⊎ AllSmall (units l nbytes) free
        → Answer m free held nbytes r

  -- In a heap that is cut into free and held blocks, and with fuel for two rounds, `gMalloc` either
  -- gives a block, which is then held, with the heap still cut, or gives null and changes nothing,
  -- and then more bytes were asked for than the heap has or no free block is large enough.
  pub g_malloc-IsHeap :
      (m : Memory) (free held : List Block) (nbytes fuel : ℕ)
      → IsHeap l m free held
      → rounds l ≤ fuel
      → Answer m free held nbytes (g_malloc l fuel nbytes m)
  g_malloc-IsHeap m free held nbytes fuel h enough = elim (dec_lt size_alloc nbytes) [
    | yes large ↦ refused (g_malloc_large m h.freep nbytes fuel h.at_freep large) (inl large)
    | no fits ↦
        elim (g_malloc-Outcome l fuel nbytes h.freep m free (top l) h.at_freep h.free_list
          (omega (arith, fits)) (omega (arith, length-free l ok m free held h))) [
            | gives k ↦
                gave k.at (record { freep = some k.freep; cells = k.cells }) k.list k.result
                  (Carved-IsHeap l ok m free held (units l nbytes) _ h (units_pos l nbytes) k)
            | refuses small e ↦ refused e (inr small)
          ]
  ]

  -- If memory is not initialised and the heap has room for a header, `initMemory` returns, with the
  -- whole heap free and nothing held.
  pub init_memory-IsHeap :
      (m : Memory) (fuel : ℕ)
      → m.freep ≡ none
      → l.unit ≤ size_alloc
      → rounds l ≤ fuel
      → (m' : Memory) × (free : List Block) × (init_memory l fuel m ≡ some m') × IsHeap l m' free []
  unfolding init_memory write cover total
  init_memory-IsHeap m fuel e le enough =
      let c1 = set_size (set_ptr m.cells l.base l.base) l.base 0 in
      let c2 = set_code (set_size c1 l.heap (size_alloc / l.unit)) l.heap in
      let k =
        g_free-Freed l ok fuel l.base l.heap (size_alloc / l.unit)
          (record { freep = some l.base; cells = c2 }) [] refl
          (record {
            base_size = ground (arith, ok.base_lt);
            ring = ground (arith, ok.base_lt);
            sorted = omega (arith, ok.base_lt);
            node = inl refl;
          })
          (ground (arith, ok.base_lt), ground (arith, ok.base_lt)) (has_units l ok le) (omega arith)
          (omega arith) (λ u a b. refl) (omega arith) in
      (
        record { freep = some k.place; cells = k.cells },
        k.list,
        rw e k.result,
        record {
          freep = k.place;
          at_freep = refl;
          free_list = k.is_free_list;
          headers = tt;
          cut = λ u. omega (arith, k.covers u);
          all_units = omega (arith, k.units);
        },
      )
