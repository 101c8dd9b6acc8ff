-- ===== src/Kernel/Memory/Ring.antt =====
-- The circular free list as a list of blocks.
use cofi_ty_home.Common.{
  ℕ, ◌+◌, ◌≤◌, ◌<◌, ◌≡◌, refl, ◌∙◌, ap, ◌⊎◌, inl, inr, List, [], ◌∷◌, ◌++◌, arith, length,
}
use cofi_ty_home.Kernel.Memory.{Header, Cells, secret_code}
use cofi_ty_home.Kernel.Memory.Blocks.{Block, Sorted}

-- The header at an address belongs to a free block of that size.
abbrev pub IsBlock : Cells → ℕ → ℕ → Type 0
IsBlock c x s = ((c x).size ≡ s) × ((c x).s_code ≡ secret_code)

-- From the pointer `q` the links lead through the blocks and end at `base`.
abbrev pub Tail : ℕ → Cells → ℕ → List Block → Type 0
Tail base c q [] = q ≡ base
Tail base c q ((x, s) ∷ bs) = (q ≡ x) × IsBlock c x s × Tail base c (c x).ptr bs

-- From the node `a` the links lead through the blocks, the last of which is at `z`.
abbrev pub Seg : Cells → ℕ → List Block → ℕ → Type 0
Seg c a [] z = a ≡ z
Seg c a ((x, s) ∷ bs) z = ((c a).ptr ≡ x) × IsBlock c x s × Seg c x bs z

abbrev pub Has : ℕ → List Block → Type 0
Has f [] = ⊥
Has f ((x, s) ∷ bs) = (f ≡ x) ⊎ Has f bs

pub Tail-split :
    (base : ℕ) (c : Cells) (a : ℕ) (bs cs : List Block)
    → Tail base c (c a).ptr (bs ++ cs)
    → (z : ℕ) × Seg c a bs z × Tail base c (c z).ptr cs
Tail-split base c a [] cs t = (a, refl, t)
Tail-split base c a ((x, s) ∷ bs) cs t =
    let (z, seg, rest) = Tail-split base c x bs cs t.2 in (z, (t.0, t.1, seg), rest)

pub Has-split : (f : ℕ) (bs cs : List Block) → Has f (bs ++ cs) → Has f bs ⊎ Has f cs
Has-split f [] cs h = inr h
Has-split f ((x, s) ∷ bs) cs (inl e) = inl (inl e)
Has-split f ((x, s) ∷ bs) cs (inr h) = elim (Has-split f bs cs h) [
  | inl i ↦ inl (inr i)
  | inr i ↦ inr i
]

-- A change of the cells that spares what lies above a bound spares a tail above it.
pub Tail-frame :
    (base : ℕ) (c d : Cells) (b q : ℕ) (lo : ℕ) (bs : List Block) (hi : ℕ)
    → Sorted lo bs hi
    → b ≤ lo
    → ((x : ℕ) → b < x → d x ≡ c x)
    → Tail base c q bs
    → Tail base d q bs
Tail-frame base c d b q lo [] hi s le same t = t
Tail-frame base c d b q lo ((x, n) ∷ bs) hi s le same t =
    let e : d x ≡ c x = same x (omega arith) in
    (
      t.0,
      (ap (λ (h : Header). h.size) e ∙ t.1.0, ap (λ (h : Header). h.s_code) e ∙ t.1.1),
      Tail-frame base c d b (d x).ptr (x + n) bs hi s.2 (omega arith) same (rw e t.2),
    )

-- What a node knows of the segment behind it: a shorter list, still sorted.
pub record Behind (c : Cells) (f : ℕ) (bs : List Block) (z hi : ℕ) : Type 0 where
  pub rest : List Block
  pub lo : ℕ
  pub seg : Seg c f rest z
  pub sorted : Sorted lo rest hi
  pub le : f ≤ lo
  pub short : length rest ≤ length bs

pub Seg-Has :
    (c : Cells) (a f : ℕ) (bs : List Block) (z lo hi : ℕ)
    → Seg c a bs z
    → Sorted lo bs hi
    → Has f bs
    → Behind c f bs z hi
Seg-Has c a f [] z lo hi seg s h = absurd h
Seg-Has c a f ((x, n) ∷ bs) z lo hi seg s (inl e) = record {
  rest = bs;
  lo = x + n;
  seg = rw e seg.2;
  sorted = s.2;
  le = omega arith;
  short = omega arith;
}
Seg-Has c a f ((x, n) ∷ bs) z lo hi seg s (inr h) =
    let r = Seg-Has c x f bs z (x + n) hi seg.2 s.2 h in
    record {
      rest = r.rest;
      lo = r.lo;
      seg = r.seg;
      sorted = r.sorted;
      le = r.le;
      short = omega (arith, r.short);
    }

-- The same of a tail.
pub record Onward (base : ℕ) (c : Cells) (f : ℕ) (bs : List Block) (hi : ℕ) : Type 0 where
  pub rest : List Block
  pub lo : ℕ
  pub tail : Tail base c (c f).ptr rest
  pub sorted : Sorted lo rest hi
  pub le : f ≤ lo
  pub short : length rest < length bs

pub Tail-Has :
    (base : ℕ) (c : Cells) (q f : ℕ) (bs : List Block) (lo hi : ℕ)
    → Tail base c q bs
    → Sorted lo bs hi
    → Has f bs
    → Onward base c f bs hi × (lo < f)
Tail-Has base c q f [] lo hi t s h = absurd h
Tail-Has base c q f ((x, n) ∷ bs) lo hi t s (inl e) = (
  record {
    rest = bs;
    lo = x + n;
    tail = rw e t.2;
    sorted = s.2;
    le = omega arith;
    short = omega arith;
  },
  omega arith,
)
Tail-Has base c q f ((x, n) ∷ bs) lo hi t s (inr h) =
    let (r, above) = Tail-Has base c (c x).ptr f bs (x + n) hi t.2 s.2 h in
    (
      record {
        rest = r.rest;
        lo = r.lo;
        tail = r.tail;
        sorted = r.sorted;
        le = r.le;
        short = omega (arith, r.short);
      },
      omega (arith, above),
    )
