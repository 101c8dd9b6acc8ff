-- ===== src/Kernel/Memory/Blocks.antt =====
-- Lists of blocks in ascending order, and the units that they cover.
use cofi_ty_home.Common.{
  ℕ, ◌+◌, ◌≤◌, ◌<◌, ◌≡◌, refl, ap, List, [], ◌∷◌, ◌++◌, arith, ltb, leb, ◌&&◌, if◌then◌else◌,
  dec_lt,
}

-- The address of a block's header, and its size in units, the header's included.
abbrev pub Block : Type 0
Block = ℕ × ℕ

-- 1 on the units of the block, 0 elsewhere.
unfoldable pub inside : ℕ → ℕ → ℕ → ℕ
inside b s u = if leb b u && ltb u (b + s) then 1 else 0

-- In how many blocks a unit is.
unfoldable pub cover : List Block → ℕ → ℕ
cover [] u = 0
cover ((b, s) ∷ bs) u = inside b s u + cover bs u

unfoldable pub total : List Block → ℕ
total [] = 0
total ((b, s) ∷ bs) = s + total bs

-- Blocks that are not empty and do not touch, in ascending order between `lo`, which the first
-- does not touch, and `hi`.
abbrev pub Sorted : ℕ → List Block → ℕ → Type 0
Sorted lo [] hi = lo ≤ hi
Sorted lo ((b, s) ∷ bs) hi = (lo < b) × (0 < s) × Sorted (b + s) bs hi

-- The same, where the first may touch `lo`.
abbrev pub Above : ℕ → List Block → ℕ → Type 0
Above lo [] hi = lo ≤ hi
Above lo ((b, s) ∷ bs) hi = (lo ≤ b) × (0 < s) × Sorted (b + s) bs hi

pub Sorted-le : (lo : ℕ) (bs : List Block) (hi : ℕ) → Sorted lo bs hi → lo ≤ hi
Sorted-le lo [] hi h = h
Sorted-le lo ((b, s) ∷ bs) hi h = omega (arith, Sorted-le (b + s) bs hi h.2)

pub cover-append : (bs cs : List Block) (u : ℕ) → cover (bs ++ cs) u ≡ cover bs u + cover cs u
unfolding cover
cover-append [] cs u = omega arith
cover-append ((b, s) ∷ bs) cs u = omega (arith, cover-append bs cs u)

pub total-append : (bs cs : List Block) → total (bs ++ cs) ≡ total bs + total cs
unfolding total
total-append [] cs = omega arith
total-append ((b, s) ∷ bs) cs = omega (arith, total-append bs cs)

pub inside_in : (b s u : ℕ) → b ≤ u → u < b + s → inside b s u ≡ 1
unfolding inside
inside_in b s u lo hi = ground arith

pub inside_below : (b s u : ℕ) → u < b → inside b s u ≡ 0
unfolding inside
inside_below b s u h = ground arith

pub inside_above : (b s u : ℕ) → b + s ≤ u → inside b s u ≡ 0
unfolding inside
inside_above b s u h = ground arith

-- Two blocks side by side.
pub inside_join : (b s t u : ℕ) → inside b (s + t) u ≡ inside b s u + inside (b + s) t u
unfolding inside
inside_join b s t u = ground arith

-- Below a sorted list nothing is covered.
pub cover_below : (lo : ℕ) (bs : List Block) (hi u : ℕ) → Sorted lo bs hi → u ≤ lo → cover bs u ≡ 0
unfolding cover
cover_below lo [] hi u h le = refl
cover_below lo ((b, s) ∷ bs) hi u h le =
    omega (arith, inside_below b s u (omega arith), cover_below (b + s) bs hi u h.2 (omega arith))

-- A block that no block of a sorted list meets lies between two of them.
pub record Gap (lo : ℕ) (bs : List Block) (hi b s : ℕ) : Type 0 where
  pub before : List Block
  pub after : List Block
  pub split : bs ≡ before ++ after
  pub low : Sorted lo before b
  pub high : Above (b + s) after hi

pub Gap-of_cover :
    (lo : ℕ) (bs : List Block) (hi b s : ℕ)
    → Sorted lo bs hi
    → lo ≤ b
    → 0 < s
    → b + s ≤ hi
    → ((u : ℕ) → b ≤ u → u < b + s → cover bs u ≡ 0)
    → Gap lo bs hi b s
unfolding cover
Gap-of_cover lo [] hi b s h le pos top free = record {
  before = [];
  after = [];
  split = refl;
  low = le;
  high = top;
}
Gap-of_cover lo ((x, n) ∷ bs) hi b s h le pos top free = elim (dec_lt b (x + n)) [
  | no above ↦
      let rest =
        Gap-of_cover (x + n) bs hi b s h.2 (omega arith) pos top
          λ u lu hu. omega (arith, free u lu hu) in
      record {
        before = (x, n) ∷ rest.before;
        after = rest.after;
        split = ap (◌∷◌ (x, n)) rest.split;
        low = (h.0, h.1, rest.low);
        high = rest.high;
      }
  | yes below ↦ elim (dec_lt b x) [
    | no meets ↦
        absurd
          (omega (arith, free b (omega arith) (omega arith), inside_in x n b (omega arith) below))
    | yes under ↦ elim (dec_lt x (b + s)) [
      | yes meets ↦
          absurd
            (omega (arith, free x (omega arith) meets, inside_in x n x (omega arith) (omega arith)))
      | no clear ↦ record {
        before = [];
        after = (x, n) ∷ bs;
        split = refl;
        low = le;
        high = (omega arith, h.1, h.2);
      }
    ]
  ]
]
