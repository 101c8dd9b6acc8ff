-- ===== src/Kernel/Memory/Merge.antt =====
-- The two merges put a block into the free list: what the list covers, and what stays as it was.
use mathlib.Core.Path.{subst}
use cofi_ty_home.Common.{ℕ, ◌+◌, ◌<◌, ◌≡◌, refl, ap, ◌≢◌, List, [], ◌∷◌, arith, ℕ_discrete}
use cofi_ty_home.Kernel.Memory.{Cells, write, merge_next}
use cofi_ty_home.Kernel.Memory.Blocks.{Block, Sorted, Above, inside, inside_join, cover, total}
use cofi_ty_home.Kernel.Memory.Ring.{Tail, IsBlock, Tail-frame}

pub Sorted-at : (a b : ℕ) (bs : List Block) (hi : ℕ) → a ≡ b → Sorted a bs hi → Sorted b bs hi
Sorted-at a b bs hi e s = subst (λ x. Sorted x bs hi) e s

pub inside_at : (a b n u : ℕ) → a ≡ b → inside a n u ≡ inside b n u
inside_at a b n u e = ap (λ x. inside x n u) e

-- After the first merge the block has its links, and perhaps the next block's units.
pub record Merged (base : ℕ) (c d : Cells) (bp sz hi : ℕ) (after : List Block) : Type 0 where
  pub size : ℕ
  pub rest : List Block
  pub block : IsBlock d bp size
  pub pos : 0 < size
  pub tail : Tail base d (d bp).ptr rest
  pub sorted : Sorted (bp + size) rest hi
  pub covers : (u : ℕ) → inside bp size u + cover rest u ≡ inside bp sz u + cover after u
  pub units : size + total rest ≡ sz + total after
  pub others : (x : ℕ) → x ≢ bp → d x ≡ c x

next_others : (c : Cells) (bp p x : ℕ) → x ≢ bp → merge_next c bp p x ≡ c x
unfolding merge_next write
next_others c bp p x ne = ground arith

next_apart :
    (c : Cells) (bp p : ℕ)
    → bp + (c bp).size ≢ (c p).ptr
    → merge_next c bp p bp ≡ record (c bp) { ptr = (c p).ptr }
unfolding merge_next write
next_apart c bp p ne = ground arith

next_touch :
    (c : Cells) (bp p q : ℕ)
    → (c p).ptr ≡ q
    → bp + (c bp).size ≡ q
    → p ≢ bp
    → q ≢ bp
    → merge_next c bp p bp
      ≡ record { ptr = (c q).ptr; size = (c bp).size + (c q).size; s_code = (c bp).s_code }
unfolding merge_next write
next_touch c bp p q link touch np nq = ground arith

pub merge_next-Merged :
    (base : ℕ) (c : Cells) (bp p sz hi : ℕ) (after : List Block)
    → IsBlock c bp sz
    → 0 < sz
    → base < bp
    → p < bp
    → Tail base c (c p).ptr after
    → Above (bp + sz) after hi
    → Merged base c (merge_next c bp p) bp sz hi after
unfolding cover total
merge_next-Merged base c bp p sz hi [] block pos low lt t s =
    let e = next_apart c bp p (λ e. omega (arith, block.0, t, e)) in
    record {
      size = sz;
      rest = [];
      block = rw e block;
      pos = pos;
      tail = rw e t;
      sorted = s;
      covers = λ u. refl;
      units = refl;
      others = next_others c bp p;
    }
merge_next-Merged base c bp p sz hi ((y, n) ∷ after) block pos low lt t s =
    elim (ℕ_discrete (bp + sz) y) [
      | yes touch ↦
          let e =
            next_touch c bp p y t.0 (omega (arith, block.0)) (λ e. omega arith)
              (λ e. omega (arith, s.0)) in
          record {
            size = sz + n;
            rest = after;
            block = rw e (omega (arith, block.0, t.1.0), block.1);
            pos = omega arith;
            tail = rw e (
                Tail-frame base c (merge_next c bp p) bp (c y).ptr (y + n) after hi s.2
                  (omega arith) (λ x above. next_others c bp p x (λ e. omega arith)) t.2);
            sorted = Sorted-at (y + n) (bp + (sz + n)) after hi (omega arith) s.2;
            covers = λ u. omega (arith, inside_join bp sz n u, inside_at (bp + sz) y n u touch);
            units = omega arith;
            others = next_others c bp p;
          }
      | no apart ↦
          let e = next_apart c bp p (λ e. apart (omega (arith, block.0, t.0, e))) in
          record {
            size = sz;
            rest = (y, n) ∷ after;
            block = rw e block;
            pos = pos;
            tail = rw e (
                Tail-frame base c (merge_next c bp p) bp (c p).ptr bp ((y, n) ∷ after) hi
                  (omega (arith, s.0), s.1, s.2) (omega arith)
                  (λ x above. next_others c bp p x (λ e. omega arith)) t);
            sorted = (omega (arith, s.0, apart), s.1, s.2);
            covers = λ u. refl;
            units = refl;
            others = next_others c bp p;
          }
    ]
