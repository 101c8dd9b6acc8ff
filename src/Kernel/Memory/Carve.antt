-- ===== src/Kernel/Memory/Carve.antt =====
-- `gMalloc` takes its units from a free block: what the list covers afterwards.
use cofi_ty_home.Common.{
  ℕ, ◌+◌, ◌-◌, ◌≤◌, ◌<◌, ◌≡◌, sym, ◌∙◌, ◌≢◌, ◌⊎◌, inl, inr, Option, some, List, [], ◌∷◌, ◌++◌,
  arith,
}
use cofi_ty_home.Kernel.Memory.{Cells, Memory, Layout, write, carve}
use cofi_ty_home.Kernel.Memory.Blocks.{Block, Sorted, Sorted-le, inside, cover, total}
use cofi_ty_home.Kernel.Memory.Ring.{Tail, IsBlock, Seg, Has}
use cofi_ty_home.Kernel.Memory.Place.{Seg-le}
use cofi_ty_home.Kernel.Memory.Free.{IsFreeList}

pub Sorted-weaken : (a b : ℕ) (bs : List Block) (hi : ℕ) → a ≤ b → Sorted b bs hi → Sorted a bs hi
Sorted-weaken a b [] hi le s = omega arith
Sorted-weaken a b ((x, n) ∷ bs) hi le s = (omega arith, s.1, s.2)

module _ (p s : ℕ) (post : List Block) (hi : ℕ) where
  pub Sorted-parts :
      (lo : ℕ) (pre : List Block)
      → Sorted lo (pre ++ (p, s) ∷ post) hi
      → (lo < p) × (0 < s) × Sorted lo pre p × Sorted (p + s) post hi
  Sorted-parts lo [] h = (h.0, h.1, omega arith, h.2)
  Sorted-parts lo ((x, n) ∷ pre) h =
      let r = Sorted-parts (x + n) pre h.2 in (omega (arith, r.0), r.1, (h.0, h.1, r.2), r.3)

  pub Sorted-shrink :
      (t lo : ℕ) (pre : List Block)
      → 0 < t
      → t ≤ s
      → Sorted lo (pre ++ (p, s) ∷ post) hi
      → Sorted lo (pre ++ (p, t) ∷ post) hi
  Sorted-shrink t lo [] pos le h =
      (h.0, pos, Sorted-weaken (p + t) (p + s) post hi (omega arith) h.2)
  Sorted-shrink t lo ((x, n) ∷ pre) pos le h = (h.0, h.1, Sorted-shrink t (x + n) pre pos le h.2)

  pub Sorted-drop :
      (lo : ℕ) (pre : List Block) → Sorted lo (pre ++ (p, s) ∷ post) hi → Sorted lo (pre ++ post) hi
  Sorted-drop lo [] h = Sorted-weaken lo (p + s) post hi (omega arith) h.2
  Sorted-drop lo ((x, n) ∷ pre) h = (h.0, h.1, Sorted-drop (x + n) pre h.2)

pub Seg-Tail :
    (base : ℕ) (c : Cells) (a z : ℕ) (bs cs : List Block)
    → Seg c a bs z
    → Tail base c (c z).ptr cs
    → Tail base c (c a).ptr (bs ++ cs)
Seg-Tail base c a z [] cs seg t = rw seg t
Seg-Tail base c a z ((x, n) ∷ bs) cs seg t = (seg.0, seg.1, Seg-Tail base c x z bs cs seg.2 t)

pub Seg-node : (c : Cells) (a z : ℕ) (bs : List Block) → Seg c a bs z → (z ≡ a) ⊎ Has z bs
Seg-node c a z [] seg = inl (sym seg)
Seg-node c a z ((x, n) ∷ bs) seg = elim (Seg-node c x z bs seg.2) [
  | inl e ↦ inr (inl e)
  | inr h ↦ inr (inr h)
]

pub Has-left : (f : ℕ) (bs cs : List Block) → Has f bs → Has f (bs ++ cs)
Has-left f [] cs h = absurd h
Has-left f ((x, n) ∷ bs) cs (inl e) = inl e
Has-left f ((x, n) ∷ bs) cs (inr h) = inr (Has-left f bs cs h)

-- A change that spares the sizes and the codes below a bound, and the links before `z`.
pub Seg-spared :
    (c d : Cells) (a z lo : ℕ) (bs : List Block) (hi : ℕ)
    → Seg c a bs z
    → Sorted lo bs hi
    → a < hi
    → a ≤ lo
    → ((x : ℕ) → x < hi → ((d x).size ≡ (c x).size) × ((d x).s_code ≡ (c x).s_code))
    → ((x : ℕ) → x < z → (d x).ptr ≡ (c x).ptr)
    → Seg d a bs z
Seg-spared c d a z lo [] hi seg s lt le same links = seg
Seg-spared c d a z lo ((x, n) ∷ bs) hi seg s lt le same links =
    let under : x < hi = omega (arith, Sorted-le (x + n) bs hi s.2) in
    let far : x ≤ z = Seg-le c x z (x + n) bs hi seg.2 s.2 (omega arith) in
    (
      links a (omega arith) ∙ seg.0,
      ((same x under).0 ∙ seg.1.0, (same x under).1 ∙ seg.1.1),
      Seg-spared c d x z (x + n) bs hi seg.2 s.2 under (omega arith) same links,
    )

-- What `gMalloc` makes of the list `bs` when it takes `n` units.
pub record Carved (base hi : ℕ) (c : Cells) (bs : List Block) (n : ℕ)
    (r : Option (Option ℕ × Memory)) : Type 0 where
  pub at : ℕ
  pub freep : ℕ
  pub cells : Cells
  pub list : List Block
  pub result : r ≡ some (some (at + 1), record { freep = some freep; cells = cells })
  pub is_free_list : IsFreeList base hi cells freep list
  pub block : IsBlock cells at n
  pub covers : (u : ℕ) → cover bs u ≡ cover list u + inside at n u
  pub units : total bs ≡ total list + n
  pub others : (x : ℕ) → cover bs x ≡ 0 → x ≢ base → cells x ≡ c x

module _ (l : Layout) (n z p s : ℕ) (c : Cells) (sized : (c p).size ≡ s) where
  abbrev pub carved : Memory
  carved = (carve l n z p c).1

  pub carve_freep : carved.freep ≡ some z
  unfolding carve
  carve_freep = ground arith

  module _ (fits : s ≡ n) where
    pub whole_at : (carve l n z p c).0 ≡ p + 1
    unfolding carve
    whole_at = ground arith

    pub whole_others : (x : ℕ) → x ≢ z → carved.cells x ≡ c x
    unfolding carve write
    whole_others x ne = ground arith

    pub whole_link : carved.cells z ≡ record (c z) { ptr = (c p).ptr }
    unfolding carve write
    whole_link = ground arith

  module _ (larger : n < s) where
    pub part_at : (carve l n z p c).0 ≡ p + (s - n) + 1
    unfolding carve write
    part_at = ground arith

    pub part_others : (x : ℕ) → x ≢ p → x ≢ p + (s - n) → carved.cells x ≡ c x
    unfolding carve write
    part_others x np na = ground arith

    pub part_rest : 0 < s - n → carved.cells p ≡ record (c p) { size = s - n }
    unfolding carve write
    part_rest h = ground arith

    pub part-IsBlock : IsBlock carved.cells (p + (s - n)) n
    unfolding carve write
    part-IsBlock = ground arith
