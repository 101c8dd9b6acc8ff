-- ===== src/Kernel/Memory/First.antt =====
-- The loop of `gMalloc` goes once round the free list: it takes the first block that is large enough,
-- or finds that none is.
use mathlib.Core.List.{append_assoc}
use mathlib.Core.Path.{subst}
use cofi_ty_home.Common.{
  ℕ, zero, suc, ◌+◌, ◌*◌, ◌≤◌, ◌<◌, ◌≡◌, refl, sym, ◌∙◌, ap, ◌≢◌, ◌⊎◌, inl, inr, Option, none, some,
  List, [], ◌∷◌, ◌++◌, arith, length, length-append, dec_lt, ℕ_discrete,
}
use cofi_ty_home.Kernel.Memory.{
  Cells, Memory, Layout, carve, first_fit, g_malloc, units, size_alloc,
}
use cofi_ty_home.Kernel.Memory.Blocks.{Block, Sorted}
use cofi_ty_home.Kernel.Memory.Ring.{Tail, IsBlock, Seg, Has, Tail-split}
use cofi_ty_home.Kernel.Memory.Free.{IsFreeList}
use cofi_ty_home.Kernel.Memory.Carve.{Carved}
use cofi_ty_home.Kernel.Memory.Fit.{carve-Carved}

-- No block has `n` units.
abbrev pub AllSmall : ℕ → List Block → Type 0
AllSmall n [] = Unit
AllSmall n ((b, s) ∷ bs) = (s < n) × AllSmall n bs

AllSmall-append :
    (n : ℕ) (bs cs : List Block) → AllSmall n bs → AllSmall n cs → AllSmall n (bs ++ cs)
AllSmall-append n [] cs h k = k
AllSmall-append n ((b, s) ∷ bs) cs h k = (h.0, AllSmall-append n bs cs h.1 k)

-- `gMalloc` gives a block, or there is none that is large enough and nothing changes.
pub data Outcome (base hi : ℕ) (m : Memory) (bs : List Block) (n : ℕ)
    (r : Option (Option ℕ × Memory)) : Type 0 where
  gives : Carved base hi m.cells bs n r → Outcome base hi m bs n r
  refuses : AllSmall n bs → r ≡ some (none, m) → Outcome base hi m bs n r

pub Has-at :
    (f : ℕ) (bs : List Block)
    → Has f bs
    → (pre : List Block) × (s : ℕ) × (post : List Block) × (bs ≡ pre ++ ((f, s) ∷ post))
Has-at f [] h = absurd h
Has-at f ((x, n) ∷ bs) (inl e) = ([], n, bs, rw e)
Has-at f ((x, n) ∷ bs) (inr h) =
    let (pre, s, post, e) = Has-at f bs h in ((x, n) ∷ pre, s, post, ap (◌∷◌ (x, n)) e)

Seg-snoc :
    (c : Cells) (a z y s : ℕ) (bs : List Block)
    → Seg c a bs z
    → (c z).ptr ≡ y
    → IsBlock c y s
    → Seg c a (bs ++ (y, s) ∷ []) y
Seg-snoc c a z y s [] seg link block = (rw seg link, block, refl)
Seg-snoc c a z y s ((x, n) ∷ bs) seg link block =
    (seg.0, seg.1, Seg-snoc c x z y s bs seg.2 link block)

pub Sorted-has :
    (lo : ℕ) (pre : List Block) (f s : ℕ) (post : List Block) (hi : ℕ)
    → Sorted lo (pre ++ (f, s) ∷ post) hi
    → (lo < f) × Sorted (f + s) post hi
Sorted-has lo [] f s post hi h = (h.0, h.2)
Sorted-has lo ((x, n) ∷ pre) f s post hi h =
    let (lt, rest) = Sorted-has (x + n) pre f s post hi h.2 in (omega (arith, lt), rest)

module _ (l : Layout) (base hi n f : ℕ) (m : Memory) where
  abbrev c : Cells
  c = m.cells

  step_fit :
      (g z p : ℕ)
      → (c z).ptr ≡ p
      → n ≤ (c p).size
      → first_fit l (suc g) n f z m ≡ some (some (carve l n z p c).0, (carve l n z p c).1)
  unfolding first_fit
  step_fit g z p e le = ground arith

  step_over :
      (g z p : ℕ)
      → (c z).ptr ≡ p
      → (c p).size < n
      → p ≢ f
      → first_fit l (suc g) n f z m ≡ first_fit l g n f p m
  unfolding first_fit
  step_over g z p e lt ne = ground arith

  step_stop :
      (g z p : ℕ)
      → (c z).ptr ≡ p
      → (c p).size < n
      → p ≡ f
      → first_fit l (suc g) n f z m ≡ some (none, m)
  unfolding first_fit
  step_stop g z p e lt eq = ground arith

  module _ (bs : List Block) (base_size : (c base).size ≡ 0) (sorted : Sorted base bs hi)
      (pos : 0 < n) where
    abbrev Result : Option (Option ℕ × Memory) → Type 0
    Result = Outcome base hi m bs n

    take_here :
        (g z y s : ℕ) (done todo : List Block)
        → bs ≡ done ++ (y, s) ∷ todo
        → Seg c base done z
        → (c z).ptr ≡ y
        → IsBlock c y s
        → Tail base c (c y).ptr todo
        → n ≤ s
        → Result (first_fit l (suc g) n f z m)
    take_here g z y s done todo e seg link block tail le =
        rw (step_fit g z y link (omega (arith, block.0))) (
          gives (
            subst (λ x. Carved base hi c x n (some (some (carve l n z y c).0, (carve l n z y c).1)))
              (sym e)
              (carve-Carved l base hi n z y s c done todo base_size seg link block tail
                (subst (λ x. Sorted base x hi) e sorted) pos le)))

    -- From the node `z`, not below `freep`, to the end of the list.
    scan_after :
        (fuel k z lo : ℕ) (done todo : List Block)
        → bs ≡ done ++ todo
        → Seg c base done z
        → Tail base c (c z).ptr todo
        → Sorted lo todo hi
        → f ≤ lo
        → length todo + 1 + k ≤ fuel
        → ((g : ℕ) → k ≤ g → AllSmall n todo → base ≢ f → Result (first_fit l g n f base m))
        → (AllSmall n todo → base ≡ f → AllSmall n bs)
        → Result (first_fit l fuel n f z m)
    scan_after zero k z lo done todo e seg tail s le enough go stop = absurd (omega arith)
    scan_after (suc fuel) k z lo done [] e seg tail s le enough go stop = elim (ℕ_discrete base f) [
      | yes eq ↦ refuses (stop tt eq) (step_stop fuel z base tail (omega (arith, base_size)) eq)
      | no ne ↦
          rw (step_over fuel z base tail (omega (arith, base_size)) ne)
            (go fuel (omega arith) tt ne)
    ]
    scan_after (suc fuel) k z lo done ((y, s) ∷ todo) e seg tail sort le enough go stop =
        elim (dec_lt s n) [
          | no fits ↦
              take_here fuel z y s done todo e seg tail.0 tail.1 tail.2 (omega (arith, fits))
          | yes small ↦
              rw (step_over fuel z y tail.0 (omega (arith, tail.1.0)) (λ eq. omega arith)) (
                scan_after fuel k y (y + s) (done ++ (y, s) ∷ []) todo
                  (e ∙ sym (append_assoc done ((y, s) ∷ []) todo))
                  (Seg-snoc c base z y s done seg tail.0 tail.1) tail.2 sort.2 (omega arith)
                  (omega arith) (λ g h rest. go g h (small, rest)) (λ rest. stop (small, rest)))
        ]

    -- From `base`, where the scan starts over, to the block at `freep`.
    scan_up :
        (fuel z lo sf : ℕ) (done todo after : List Block)
        → bs ≡ done ++ (todo ++ (f, sf) ∷ after)
        → Seg c base done z
        → Tail base c (c z).ptr (todo ++ (f, sf) ∷ after)
        → Sorted lo (todo ++ (f, sf) ∷ after) hi
        → length todo + 1 ≤ fuel
        → AllSmall n done
        → AllSmall n after
        → Result (first_fit l fuel n f z m)
    scan_up zero z lo sf done todo after e seg tail s enough small rest = absurd (omega arith)
    scan_up (suc fuel) z lo sf done [] after e seg tail s enough small rest = elim (dec_lt sf n) [
      | no fits ↦ take_here fuel z f sf done after e seg tail.0 tail.1 tail.2 (omega (arith, fits))
      | yes lt ↦ rw (step_stop fuel z f tail.0 (omega (arith, tail.1.0)) refl) (
          refuses
            (subst (AllSmall n) (sym e) (AllSmall-append n done ((f, sf) ∷ after) small (lt, rest)))
            refl)
    ]
    scan_up (suc fuel) z lo sf done ((y, s) ∷ todo) after e seg tail sort enough small rest =
        elim (dec_lt s n) [
          | no fits ↦
              take_here fuel z y s done (todo ++ (f, sf) ∷ after) e seg tail.0 tail.1 tail.2
                (omega (arith, fits))
          | yes lt ↦
              rw
                (step_over fuel z y tail.0 (omega (arith, tail.1.0))
                  (λ eq. omega (arith, Sorted-has (y + s) todo f sf after hi sort.2)))
                (scan_up fuel y (y + s) sf (done ++ (y, s) ∷ []) todo after
                  (e ∙ sym (append_assoc done ((y, s) ∷ []) (todo ++ (f, sf) ∷ after)))
                  (Seg-snoc c base z y s done seg tail.0 tail.1) tail.2 sort.2 (omega arith)
                  (AllSmall-append n done ((y, s) ∷ []) small (lt, tt)) rest)
        ]

    from_node :
        (fuel sf : ℕ) (pre post : List Block)
        → bs ≡ pre ++ ((f, sf) ∷ post)
        → Tail base c (c base).ptr bs
        → 2 * length bs + 3 ≤ fuel
        → Result (first_fit l fuel n f f m)
    from_node fuel sf pre post e ring enough =
        let sort = subst (λ x. Sorted base x hi) e sorted in
        let tail = subst (λ x. Tail base c (c base).ptr x) e ring in
        let (z, front, back) = Tail-split base c base pre ((f, sf) ∷ post) tail in
        let len = ap length e ∙ length-append pre ((f, sf) ∷ post) in
        let above = Sorted-has base pre f sf post hi sort in
        scan_after fuel (length pre + 1) f (f + sf) (pre ++ (f, sf) ∷ []) post
          (e ∙ sym (append_assoc pre ((f, sf) ∷ []) post))
          (Seg-snoc c base z f sf pre front back.0 back.1) back.2 above.1 (omega arith)
          (omega arith)
          (λ g h small ne.
            scan_up g base base sf [] pre post e refl tail sort (omega arith) tt small)
          (λ small eq. absurd (omega (arith, above.0)))

    -- Two rounds of the list are enough fuel.
    pub first_fit-Outcome :
        (fuel : ℕ)
        → (f ≡ base) ⊎ Has f bs
        → Tail base c (c base).ptr bs
        → 2 * length bs + 3 ≤ fuel
        → Result (first_fit l fuel n f f m)
    first_fit-Outcome fuel (inl e) ring enough =
        subst (λ x. Result (first_fit l fuel n f x m)) (sym e)
          (scan_after fuel 0 base base [] bs refl refl ring sorted (omega (arith, e)) (omega arith)
            (λ g h small ne. absurd (ne (sym e))) (λ small eq. small))
    first_fit-Outcome fuel (inr has) ring enough =
        let (pre, s, post, e) = Has-at f bs has in from_node fuel s pre post e ring enough

module _ (l : Layout) where
  g_malloc-first_fit :
      (fuel nbytes f : ℕ) (m : Memory)
      → m.freep ≡ some f
      → nbytes ≤ size_alloc
      → g_malloc l fuel nbytes m ≡ first_fit l fuel (units l nbytes) f f m
  unfolding g_malloc
  g_malloc-first_fit fuel nbytes f m e le = ground arith

  pub units_pos : (nbytes : ℕ) → 0 < units l nbytes
  unfolding units
  units_pos nbytes = omega arith

  -- On a free list and with a size that the heap could hold, `gMalloc` gives a block of the units
  -- asked for, which the list no longer covers and whose header is set, or it gives null, and then
  -- no block of the list is large enough and nothing has changed; two rounds of the list are enough.
  pub g_malloc-Outcome :
      (fuel nbytes f : ℕ) (m : Memory) (bs : List Block) (hi : ℕ)
      → m.freep ≡ some f
      → IsFreeList l.base hi m.cells f bs
      → nbytes ≤ size_alloc
      → 2 * length bs + 3 ≤ fuel
      → Outcome l.base hi m bs (units l nbytes) (g_malloc l fuel nbytes m)
  g_malloc-Outcome fuel nbytes f m bs hi e free le enough =
      rw (g_malloc-first_fit fuel nbytes f m e le) (
        first_fit-Outcome l l.base hi (units l nbytes) f m bs free.base_size free.sorted
          (units_pos nbytes) fuel free.node free.ring enough)
