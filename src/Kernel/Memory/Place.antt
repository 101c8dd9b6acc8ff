-- ===== src/Kernel/Memory/Place.antt =====
-- The search for the place of a block ends, from any node of the free list, at the block before it.
use cofi_ty_home.Common.{
  ℕ, zero, suc, ◌+◌, ◌≤◌, ◌<◌, ◌≡◌, ◌⊎◌, inl, inr, some, List, [], ◌∷◌, arith, length,
}
use cofi_ty_home.Kernel.Memory.{Cells, find_place}
use cofi_ty_home.Kernel.Memory.Blocks.{Block, Sorted, Above, Sorted-le}
use cofi_ty_home.Kernel.Memory.Ring.{Tail, Seg, Has, Seg-Has, Tail-Has}

module _ (c : Cells) (bp base p : ℕ) where
  -- From a node before the place the search climbs to it.
  place_up :
      (fuel x lo : ℕ) (bs : List Block)
      → Seg c x bs p
      → Sorted lo bs bp
      → x ≤ lo
      → x < bp
      → length bs < fuel
      → (bp < (c p).ptr) ⊎ ((c p).ptr ≤ p)
      → find_place fuel c bp x ≡ some p
  unfolding find_place
  place_up zero x lo bs seg s le lt f e = absurd (omega arith)
  place_up (suc fuel) x lo [] seg s le lt f e = ground arith
  place_up (suc fuel) x lo ((y, n) ∷ bs) seg s le lt f e =
      let under : y < bp = omega (arith, Sorted-le (y + n) bs bp s.2) in
      ground (arith, place_up fuel y (y + n) bs seg.2 s.2 (omega arith) under (omega arith) e)

  -- From a node behind the place it goes round by `base`.
  place_round :
      (fuel x lo : ℕ) (bs : List Block) (hi k : ℕ)
      → Tail base c (c x).ptr bs
      → Sorted lo bs hi
      → x ≤ lo
      → bp < x
      → base < bp
      → ((g : ℕ) → k ≤ g → find_place g c bp base ≡ some p)
      → length bs + 1 + k ≤ fuel
      → find_place fuel c bp x ≡ some p
  unfolding find_place
  place_round zero x lo bs hi k t s le lt low arrive f = absurd (omega arith)
  place_round (suc fuel) x lo [] hi k t s le lt low arrive f =
      ground (arith, arrive fuel (omega arith))
  place_round (suc fuel) x lo ((y, n) ∷ bs) hi k t s le lt low arrive f = ground (
    arith,
    place_round fuel y (y + n) bs hi k t.2 s.2 (omega arith) (omega arith) low arrive (omega arith),
  )

pub Seg-le :
    (c : Cells) (a z lo : ℕ) (bs : List Block) (hi : ℕ)
    → Seg c a bs z
    → Sorted lo bs hi
    → a ≤ lo
    → a ≤ z
Seg-le c a z lo [] hi seg s le = omega arith
Seg-le c a z lo ((x, n) ∷ bs) hi seg s le =
    omega (arith, Seg-le c x z (x + n) bs hi seg.2 s.2 (omega arith))

pub Seg-lt :
    (c : Cells) (a z lo : ℕ) (bs : List Block) (hi : ℕ)
    → Seg c a bs z
    → Sorted lo bs hi
    → a < hi
    → z < hi
Seg-lt c a z lo [] hi seg s lt = omega arith
Seg-lt c a z lo ((x, n) ∷ bs) hi seg s lt =
    Seg-lt c x z (x + n) bs hi seg.2 s.2 (omega (arith, Sorted-le (x + n) bs hi s.2))

pub Above-Sorted :
    (bp sz : ℕ) (bs : List Block) (hi : ℕ) → 0 < sz → Above (bp + sz) bs hi → Sorted bp bs hi
Above-Sorted bp sz [] hi pos h = omega arith
Above-Sorted bp sz ((x, n) ∷ bs) hi pos h = (omega arith, h.1, h.2)

-- The free list, opened at the place of a block.
pub record Opened (c : Cells) (base p bp sz hi : ℕ) (before after : List Block) : Type 0 where
  pub front : Seg c base before p
  pub back : Tail base c (c p).ptr after
  pub low : Sorted base before bp
  pub high : Above (bp + sz) after hi
  pub pos : 0 < sz
  pub base_lt : base < bp

exit_back :
    (c : Cells) (base p bp sz hi : ℕ) (after : List Block)
    → Tail base c (c p).ptr after
    → Sorted bp after hi
    → base ≤ p
    → (bp < (c p).ptr) ⊎ ((c p).ptr ≤ p)
exit_back c base p bp sz hi [] t s le = inr (omega arith)
exit_back c base p bp sz hi ((x, n) ∷ after) t s le = inl (omega arith)

pub find_place_lem :
    (c : Cells) (base p bp sz hi : ℕ) (before after : List Block) (f fuel : ℕ)
    → Opened c base p bp sz hi before after
    → (f ≡ base) ⊎ (Has f before ⊎ Has f after)
    → length before + length after + 2 ≤ fuel
    → find_place fuel c bp f ≡ some p
find_place_lem c base p bp sz hi before after f fuel o at_node enough = go at_node
  where
    open o use {front, back, low, high, pos, base_lt}

    s : Sorted bp after hi
    s = Above-Sorted bp sz after hi pos high

    e : (bp < (c p).ptr) ⊎ ((c p).ptr ≤ p)
    e =
        exit_back c base p bp sz hi after back s
          (Seg-le c base p base before bp front low (omega arith))

    from_base : (g : ℕ) → length before + 1 ≤ g → find_place g c bp base ≡ some p
    from_base g h =
        place_up c bp base p g base base before front low (omega arith) base_lt (omega arith) e

    go : (f ≡ base) ⊎ (Has f before ⊎ Has f after) → find_place fuel c bp f ≡ some p
    go (inl at_base) = rw at_base (from_base fuel (omega arith))
    go (inr (inl h)) =
        let r = Seg-Has c base f before p base bp front low h in
        place_up c bp base p fuel f r.lo r.rest r.seg r.sorted r.le
          (omega (
            arith,
            r.le,
            Sorted-le r.lo r.rest bp r.sorted,
            Seg-le c f p r.lo r.rest bp r.seg r.sorted r.le,
            Seg-lt c base p base before bp front low base_lt,
          ))
          (omega (arith, r.short)) e
    go (inr (inr h)) =
        let (r, above) = Tail-Has base c (c p).ptr f after bp hi back s h in
        place_round c bp base p fuel f r.lo r.rest hi (length before + 1) r.tail r.sorted r.le above
          base_lt from_base (omega (arith, r.short))
