-- ===== src/Kernel/Memory.antt =====
-- kernel/memory/memory.c, memory.h: the allocator of the server.
-- A pointer to a `Header` is its address in units of `sizeof (Header)`; null is `none`. Each function
-- is one step: it runs under `myLock`, but `gMalloc` reads `freep` before it takes the lock;
-- that another thread changes the free list between is not modelled.
pub mod Blocks
pub mod Ring
pub mod Place
pub mod Merge
pub mod Join
pub mod Free
pub mod Carve
pub mod Fit
pub mod First
pub mod Heap
pub mod Session
pub mod Reach
pub mod Sum
use cofi_ty_home.Common.{
  ℕ, zero, suc, ◌+◌, ◌-◌, ◌*◌, ◌/◌, ◌≡◌, Bool, true, false, not, ◌&&◌, ◌||◌, Option, none, some,
  ◌>>=◌, ◌==◌, ltb, leb, if◌then◌else◌,
}

abbrev pub size_alloc : ℕ
size_alloc = 5000000

abbrev pub secret_code : ℕ
secret_code = 42

pub record Header : Type 0 where
  pub ptr : ℕ
  pub size : ℕ
  pub s_code : ℕ

abbrev pub Cells : Type 0
Cells = ℕ → Header

-- `sizeof (Header)`, and where the linker puts `base` and `heap`.
pub record Layout : Type 0 where
  pub unit : ℕ
  pub base : ℕ
  pub heap : ℕ

-- `freep` and the headers in memory.
pub record Memory : Type 0 where
  pub freep : Option ℕ
  pub cells : Cells

unfoldable pub write : Cells → ℕ → Header → Cells
write c p h x = if p == x then h else c x

abbrev pub set_ptr : Cells → ℕ → ℕ → Cells
set_ptr c p q = write c p (record (c p) { ptr = q })

abbrev pub set_size : Cells → ℕ → ℕ → Cells
set_size c p n = write c p (record (c p) { size = n })

abbrev pub set_code : Cells → ℕ → Cells
set_code c p = write c p (record (c p) { s_code = secret_code })

-- The loop that looks for the free block before `bp`; `none` is a loop that the fuel does not end.
unfoldable pub find_place : ℕ → Cells → ℕ → ℕ → Option ℕ
find_place zero c bp p = none
find_place (suc fuel) c bp p =
    let next = (c p).ptr in
    let rest = find_place fuel c bp next in
    if ltb p bp && ltb bp next
    then some p
    else if leb next p && (ltb p bp || ltb bp next)
    then some p
    else rest

-- "Try to merge with next block."
unfoldable pub merge_next : Cells → ℕ → ℕ → Cells
merge_next c bp p =
    if bp + (c bp).size == (c p).ptr
    then (let c1 = set_size c bp ((c bp).size + (c (c p).ptr).size) in
        set_ptr c1 bp (c1 (c1 p).ptr).ptr)
    else set_ptr c bp (c p).ptr

-- "Try to merge with previous block."
unfoldable pub merge_previous : Cells → ℕ → ℕ → Cells
merge_previous c bp p =
    if p + (c p).size == bp
    then (let c1 = set_size c p ((c p).size + (c bp).size) in set_ptr c1 p (c1 bp).ptr)
    else set_ptr c p bp

unfoldable pub insert_block : ℕ → ℕ → ℕ → Cells → Option Memory
unfolding find_place merge_next merge_previous
insert_block fuel bp freep c = do
  p ← find_place fuel c bp freep
  some (record { freep = some p; cells = merge_previous (merge_next c bp p) bp p })

abbrev pub get_g_mem_total : ℕ
get_g_mem_total = size_alloc

unfoldable pub destroy_memory : Memory → Memory
destroy_memory m = record m { freep = none }

module _ (l : Layout) where
  -- Outside the heap, in bytes.
  abbrev pub outside : ℕ → Bool
  outside ap =
      ltb (ap * l.unit) (l.heap * l.unit) || leb (l.heap * l.unit + size_alloc) (ap * l.unit)

  -- The body of `gFree` on a pointer that is not null.
  unfoldable pub g_free_at : ℕ → ℕ → Memory → Option Memory
  g_free_at fuel ap m = elim m.freep [
    | none ↦ some m
    | some f ↦
        if outside ap
        then some m
        else if not ((m.cells (ap - 1)).s_code == secret_code)
        then some m
        else insert_block fuel (ap - 1) f m.cells
  ]

  unfoldable pub g_free : ℕ → Option ℕ → Memory → Option Memory
  unfolding g_free_at
  g_free fuel none m = some m
  g_free fuel (some ap) m = g_free_at fuel ap m

  unfoldable pub init_memory : ℕ → Memory → Option Memory
  unfolding g_free
  init_memory fuel m = elim m.freep [
    | some f ↦ some m
    | none ↦
        let c1 = set_size (set_ptr m.cells l.base l.base) l.base 0 in
        let c2 = set_code (set_size c1 l.heap (size_alloc / l.unit)) l.heap in
        g_free fuel (some (l.heap + 1)) (record { freep = some l.base; cells = c2 })
  ]

  unfoldable pub units : ℕ → ℕ
  units nbytes = (nbytes + l.unit - 1) / l.unit + 1

  -- Takes the units from a free block, or from its end.
  unfoldable pub carve : ℕ → ℕ → ℕ → Cells → ℕ × Memory
  carve nunits prevp p c =
      if (c p).size == nunits
      then (p + 1, record { freep = some prevp; cells = set_ptr c prevp (c p).ptr })
      else (let c1 = set_size c p ((c p).size - nunits) in
          let p' = p + (c1 p).size in
          (p' + 1, record { freep = some prevp; cells = set_code (set_size c1 p' nunits) p' }))

  -- The loop over the free list, from the block behind `prevp` to the one at `freep`.
  unfoldable pub first_fit : ℕ → ℕ → ℕ → ℕ → Memory → Option (Option ℕ × Memory)
  first_fit zero nunits freep prevp m = none
  first_fit (suc fuel) nunits freep prevp m =
      let p = (m.cells prevp).ptr in
      let rest = first_fit fuel nunits freep p m in
      if leb nunits (m.cells p).size
      then (let (a, m') = carve nunits prevp p m.cells in some (some a, m'))
      else if p == freep
      then some (none, m)
      else rest

  unfoldable pub g_malloc : ℕ → ℕ → Memory → Option (Option ℕ × Memory)
  g_malloc fuel nbytes m = elim m.freep [
    | none ↦ some (none, m)
    | some f ↦ if ltb size_alloc nbytes then some (none, m) else first_fit fuel (units nbytes) f f m
  ]

  -- The loop over the free list that sums its bytes.
  unfoldable pub sum_free : ℕ → ℕ → ℕ → Cells → Option ℕ
  sum_free zero freep p c = none
  sum_free (suc fuel) freep p c =
      let rest = sum_free fuel freep (c p).ptr c in
      if p == freep
      then some ((c p).size * l.unit)
      else (do s ← rest; some ((c p).size * l.unit + s))

  unfoldable pub get_g_mem_free : ℕ → Memory → Option ℕ
  unfolding sum_free
  get_g_mem_free fuel m = elim m.freep [
    | none ↦ some 0
    | some f ↦ sum_free fuel f (m.cells f).ptr m.cells
  ]
