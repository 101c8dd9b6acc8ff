-- ===== src/Server/CleaningExamples.antt =====
-- A heap in which an action with one function, a sensor with its data and a text are held.
use cofi_ty_home.Common.{
  ℕ, ◌+◌, ◌/◌, ◌≡◌, refl, inl, some, List, [], ◌∷◌, arith, ◌==◌, if◌then◌else◌,
}
use cofi_ty_home.Kernel.Memory.{Cells, Layout, Memory, size_alloc, secret_code}
use cofi_ty_home.Kernel.Memory.Blocks.{Block, cover, inside, total}
use cofi_ty_home.Kernel.Memory.Free.{IsLayout, IsFreeList}
use cofi_ty_home.Kernel.Memory.Heap.{IsHeap}
use cofi_ty_home.Server.Cleaning.{Nodes, clean_memory}
use cofi_ty_home.Server.Cleaning.Returning.{Owns, all_pointers, no_nodes, clean_memory-Returned}

abbrev plan : Layout
plan = record { unit = 24; base = 1; heap = 2 }

abbrev plan-IsLayout : IsLayout plan
plan-IsLayout = record { unit_pos = omega arith; remainder = omega arith; base_lt = omega arith }

abbrev plenty : ℕ
plenty = 416669

-- The free block has 208323 units, each of the five others has two.
abbrev full_cells : Cells
full_cells p =
    if p == 1
    then record { ptr = 2; size = 0; s_code = 0 }
    else if p == 2
    then record { ptr = 1; size = 208323; s_code = secret_code }
    else record { ptr = 0; size = 2; s_code = secret_code }

abbrev five : List Block
five = (208325, 2) ∷ (208327, 2) ∷ (208329, 2) ∷ (208331, 2) ∷ (208333, 2) ∷ []

abbrev full : Memory
full = record { freep = some 1; cells = full_cells }

full-IsFreeList : IsFreeList 1 208335 full_cells 1 ((2, 208323) ∷ [])
full-IsFreeList = record {
  base_size = refl;
  ring = (refl, (refl, refl), refl);
  sorted = (omega arith, omega arith, omega arith);
  node = inl refl;
}

full_cut :
    (u : ℕ)
    → cover ((2, 208323) ∷ []) u + cover five u ≡ inside plan.heap (size_alloc / plan.unit) u
unfolding cover inside
full_cut u = ground arith

full-IsHeap : IsHeap plan full ((2, 208323) ∷ []) five
unfolding total
full-IsHeap = record {
  freep = 1;
  at_freep = refl;
  free_list = full-IsFreeList;
  headers = (
    omega arith,
    (refl, refl),
    (
      omega arith,
      (refl, refl),
      (omega arith, (refl, refl), (omega arith, (refl, refl), (omega arith, (refl, refl), tt))),
    ),
  );
  cut = full_cut;
  all_units = refl;
}

abbrev configuration : Nodes
configuration = record {
  actions = (208326, 208330 ∷ []) ∷ [];
  start_rule = [];
  actionneurs = [];
  sensors = (208334, 208328) ∷ [];
}

configuration-Owns : Owns (all_pointers configuration) five ((208331, 2) ∷ [])
configuration-Owns = (
  (208325, 2) ∷ (208327, 2) ∷ [],
  208329,
  2,
  (208331, 2) ∷ (208333, 2) ∷ [],
  refl,
  refl,
  (
    [],
    208325,
    2,
    (208327, 2) ∷ (208331, 2) ∷ (208333, 2) ∷ [],
    refl,
    refl,
    (
      [],
      208327,
      2,
      (208331, 2) ∷ (208333, 2) ∷ [],
      refl,
      refl,
      ((208331, 2) ∷ [], 208333, 2, [], refl, refl, refl),
    ),
  ),
)

clean_memory-Returned_example :
    (m' : Memory) × (free' : List Block) × (clean_memory plan plenty
        (record { nodes = configuration; memory = full })
      ≡ some (record { nodes = no_nodes; memory = m' }))
    × IsHeap plan m' free' ((208331, 2) ∷ [])
clean_memory-Returned_example =
    clean_memory-Returned plan plan-IsLayout plenty (omega arith)
      (record { nodes = configuration; memory = full }) ((2, 208323) ∷ []) five ((208331, 2) ∷ [])
      full-IsHeap configuration-Owns
