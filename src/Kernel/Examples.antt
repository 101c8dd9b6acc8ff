-- ===== src/Kernel/Examples.antt =====
-- A heap of headers of 24 bytes, just started or with one block of three units at its end in use.
use cofi_ty_home.Common.{
  ℕ, ◌+◌, ◌/◌, ◌≡◌, refl, inl, none, some, List, [], ◌∷◌, ◌*◌, arith, ◌==◌, if◌then◌else◌,
}
use cofi_ty_home.Kernel.Memory.{
  Cells, Layout, Memory, size_alloc, secret_code, init_memory, g_malloc, g_free, g_free_at,
  insert_block, find_place, merge_next, merge_previous, write, first_fit, carve, get_g_mem_free,
  units,
}
use cofi_ty_home.Kernel.Memory.Blocks.{Block, cover, inside, total}
use cofi_ty_home.Kernel.Memory.Free.{IsLayout, IsFreeList}
use cofi_ty_home.Kernel.Memory.Heap.{IsHeap}
use cofi_ty_home.Kernel.Memory.Session.{Answer, g_malloc-IsHeap, g_free-IsHeap}
use cofi_ty_home.Kernel.Memory.Reach.{start, took, Reached-IsHeap}
use cofi_ty_home.Kernel.Memory.Sum.{get_g_mem_free-IsHeap}

abbrev lay : Layout
lay = record { unit = 24; base = 1; heap = 2 }

abbrev lay-IsLayout : IsLayout lay
lay-IsLayout = record { unit_pos = omega arith; remainder = omega arith; base_lt = omega arith }

abbrev fuel : ℕ
fuel = 416669

abbrev blank : Memory
blank = record { freep = none; cells = λ p. record { ptr = 0; size = 0; s_code = 0 } }

abbrev used_cells : Cells
used_cells p =
    if p == 1
    then record { ptr = 2; size = 0; s_code = 0 }
    else if p == 2
    then record { ptr = 1; size = 208330; s_code = secret_code }
    else record { ptr = 0; size = 3; s_code = secret_code }

abbrev used : Memory
used = record { freep = some 1; cells = used_cells }

used-IsFreeList : IsFreeList 1 208335 used_cells 1 ((2, 208330) ∷ [])
used-IsFreeList = record {
  base_size = refl;
  ring = (refl, (refl, refl), refl);
  sorted = (omega arith, omega arith, omega arith);
  node = inl refl;
}

used_cut :
    (u : ℕ)
    → cover ((2, 208330) ∷ []) u + cover ((208332, 3) ∷ []) u
      ≡ inside lay.heap (size_alloc / lay.unit) u
unfolding cover inside
used_cut u = ground arith

used-IsHeap : IsHeap lay used ((2, 208330) ∷ []) ((208332, 3) ∷ [])
unfolding total
used-IsHeap = record {
  freep = 1;
  at_freep = refl;
  free_list = used-IsFreeList;
  headers = (omega arith, (refl, refl), tt);
  cut = used_cut;
  all_units = refl;
}

g_malloc-IsHeap_example :
    Answer lay lay-IsLayout used
      ((2, 208330) ∷ [])
      ((208332, 3) ∷ [])
      100
      (g_malloc lay fuel 100 used)
g_malloc-IsHeap_example =
    g_malloc-IsHeap lay lay-IsLayout used ((2, 208330) ∷ []) ((208332, 3) ∷ []) 100 fuel used-IsHeap
      (omega arith)

g_free-IsHeap_example :
    (m' : Memory) × (free' : List Block) × (g_free lay fuel (some 208333) used ≡ some m')
    × IsHeap lay m' free' []
g_free-IsHeap_example =
    g_free-IsHeap lay lay-IsLayout used ((2, 208330) ∷ []) [] [] 208332 3 fuel used-IsHeap
      (omega arith)

get_g_mem_free-IsHeap_example :
    (n : ℕ) × (get_g_mem_free lay fuel used ≡ some n) × (n + 3 * 24 ≡ 4999992)
unfolding total
get_g_mem_free-IsHeap_example =
    get_g_mem_free-IsHeap lay lay-IsLayout used ((2, 208330) ∷ []) ((208332, 3) ∷ []) fuel
      used-IsHeap (omega arith)

-- `initMemory`, then `gMalloc` of 100 bytes: six units at the end of the heap.
started_cells : Cells
started_cells = elim (init_memory lay fuel blank) [ none ↦ blank.cells | some m ↦ m.cells ]

abbrev started : Memory
started = record { freep = some 1; cells = started_cells }

first_call : init_memory lay fuel blank ≡ some started
unfolding started_cells init_memory g_free g_free_at insert_block find_place merge_next
    merge_previous write
first_call = refl

second_call : (m' : Memory) × (g_malloc lay fuel 100 started ≡ some (some 208330, m'))
unfolding started_cells init_memory g_free g_free_at insert_block find_place merge_next
    merge_previous write g_malloc first_fit carve units
second_call = (_, refl)

Reached-IsHeap_example :
    (free : List Block) × IsHeap lay (second_call.0) free ((208329, units lay 100) ∷ [])
Reached-IsHeap_example =
    Reached-IsHeap lay lay-IsLayout (omega arith) fuel (omega arith) second_call.0
      ((208329, units lay 100) ∷ [])
      (took started second_call.0 [] 208329 100 (start blank started refl first_call) second_call.1)
