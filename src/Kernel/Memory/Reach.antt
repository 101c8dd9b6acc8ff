-- ===== src/Kernel/Memory/Reach.antt =====
-- The states of memory.c that its clients reach by `initMemory`, `gMalloc` and `gFree`.
use mathlib.Core.Path.{subst}
use cofi_ty_home.Common.{ℕ, ◌+◌, ◌≤◌, ◌≡◌, sym, ◌∙◌, ap, none, some, List, [], ◌∷◌, ◌++◌, arith}
use cofi_ty_home.Kernel.Memory.{Memory, Layout, size_alloc, init_memory, g_malloc, g_free, units}
use cofi_ty_home.Kernel.Memory.Blocks.{Block}
use cofi_ty_home.Kernel.Memory.Free.{IsLayout}
use cofi_ty_home.Kernel.Memory.Heap.{IsHeap, rounds}
use cofi_ty_home.Kernel.Memory.Session.{
  Answer, gave, refused, init_memory-IsHeap, g_malloc-IsHeap, g_free-IsHeap,
}

-- The calls, in any order, of clients that give back the blocks that they hold, each once.
pub data Reached (l : Layout) (fuel : ℕ) : Memory → List Block → Type 0 where
  start : (m m' : Memory) → m.freep ≡ none → init_memory l fuel m ≡ some m' → Reached l fuel m' []
  took :
      (m m' : Memory) (held : List Block) (at nbytes : ℕ)
      → Reached l fuel m held
      → g_malloc l fuel nbytes m ≡ some (some (at + 1), m')
      → Reached l fuel m' ((at, units l nbytes) ∷ held)
  got_null :
      (m m' : Memory) (held : List Block) (nbytes : ℕ)
      → Reached l fuel m held
      → g_malloc l fuel nbytes m ≡ some (none, m')
      → Reached l fuel m' held
  gave_back :
      (m m' : Memory) (pre post : List Block) (bp sz : ℕ)
      → Reached l fuel m (pre ++ (bp, sz) ∷ post)
      → g_free l fuel (some (bp + 1)) m ≡ some m'
      → Reached l fuel m' (pre ++ post)

some_inj {ℓ} : {A : Type ℓ} (x y : A) → some x ≡ some y → x ≡ y
some_inj x y e = ap (λ o. elim o [ none ↦ x | some z ↦ z ]) e

module _ (l : Layout) (ok : IsLayout l) (fits : l.unit ≤ size_alloc) (fuel : ℕ)
    (enough : rounds l ≤ fuel) where
  taken :
      (m m' : Memory) (free held : List Block) (at nbytes : ℕ)
      → Answer l ok m free held nbytes (some (some (at + 1), m'))
      → (free' : List Block) × IsHeap l m' free' ((at, units l nbytes) ∷ held)
  taken m m' free held at nbytes (gave b m1 free' e h) =
      let both = some_inj (some (at + 1), m') (some (b + 1), m1) e in
      let same : at + 1 ≡ b + 1 = some_inj (at + 1) (b + 1) (ap (λ r. r.0) both) in
      (
        free',
        subst (λ x. IsHeap l x free' ((at, units l nbytes) ∷ held)) (sym (ap (λ r. r.1) both))
            (subst (λ x. IsHeap l m1 free' ((x, units l nbytes) ∷ held)) (omega (arith, same)) h),
      )
  taken m m' free held at nbytes (refused e why) = absurd (ground (arith, e))

  kept :
      (m m' : Memory) (free held : List Block) (nbytes : ℕ)
      → IsHeap l m free held
      → Answer l ok m free held nbytes (some (none, m'))
      → (free' : List Block) × IsHeap l m' free' held
  kept m m' free held nbytes h (gave b m1 free' e h1) = absurd (ground (arith, e))
  kept m m' free held nbytes h (refused e why) = (
    free,
    subst (λ x. IsHeap l x free held) (sym (ap (λ r. r.1) (some_inj (none, m') (none, m) e))) h,
  )

  -- Where headers lie as `IsLayout` says, the heap has room for one and the fuel is `rounds`: in every
  -- state that clients reach by `initMemory`, `gMalloc` and `gFree` of blocks that they hold, the heap
  -- is cut into free blocks and the held ones, each unit being in exactly one.
  pub Reached-IsHeap :
      (m : Memory) (held : List Block)
      → Reached l fuel m held
      → (free : List Block) × IsHeap l m free held
  Reached-IsHeap m held (start m0 m' e r) =
      let (m1, free, r1, h) = init_memory-IsHeap l ok m0 fuel e fits enough in
      (free, subst (λ x. IsHeap l x free []) (some_inj m1 m' (sym r1 ∙ r)) h)
  Reached-IsHeap m held (took m0 m' held0 at nbytes before r) =
      let (free, h) = Reached-IsHeap m0 held0 before in
      taken m0 m' free held0 at nbytes (
        subst (Answer l ok m0 free held0 nbytes) r
          (g_malloc-IsHeap l ok m0 free held0 nbytes fuel h enough))
  Reached-IsHeap m held (got_null m0 m' held0 nbytes before r) =
      let (free, h) = Reached-IsHeap m0 held0 before in
      kept m0 m' free held0 nbytes h (
        subst (Answer l ok m0 free held0 nbytes) r
          (g_malloc-IsHeap l ok m0 free held0 nbytes fuel h enough))
  Reached-IsHeap m held (gave_back m0 m' pre post bp sz before r) =
      let (free, h) = Reached-IsHeap m0 (pre ++ (bp, sz) ∷ post) before in
      let (m1, free', r1, h1) = g_free-IsHeap l ok m0 free pre post bp sz fuel h enough in
      (free', subst (λ x. IsHeap l x free' (pre ++ post)) (some_inj m1 m' (sym r1 ∙ r)) h1)
