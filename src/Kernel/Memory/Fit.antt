-- ===== src/Kernel/Memory/Fit.antt =====
-- `gMalloc`: the first fit. A block that is large enough gives its units.
use cofi_ty_home.Common.{
  ℕ, ◌+◌, ◌-◌, ◌≤◌, ◌<◌, ◌≡◌, refl, ◌∙◌, ap, ◌≢◌, ◌⊎◌, inl, inr, Option, some, List, ◌∷◌, ◌++◌,
  arith, ℕ_discrete,
}
use cofi_ty_home.Kernel.Memory.{Header, Cells, Memory, Layout, carve}
use cofi_ty_home.Kernel.Memory.Blocks.{
  Block, Sorted, inside, inside_in, inside_join, cover, cover-append, total, total-append,
}
use cofi_ty_home.Kernel.Memory.Ring.{Tail, IsBlock, Seg, Has, Tail-frame}
use cofi_ty_home.Kernel.Memory.Place.{Seg-lt}
use cofi_ty_home.Kernel.Memory.Free.{Seg-cover}
use cofi_ty_home.Kernel.Memory.Carve.{
  Carved, Sorted-parts, Sorted-shrink, Sorted-drop, Seg-Tail, Seg-node, Has-left, Seg-spared,
  carved, carve_freep, whole_at, whole_others, whole_link, part_at, part_others, part_rest,
  part-IsBlock,
}

module _ (l : Layout) (base hi n z p s : ℕ) (c : Cells) (pre post : List Block)
    (base_size : (c base).size ≡ 0) (front : Seg c base pre z) (link : (c z).ptr ≡ p)
    (block : IsBlock c p s) (back : Tail base c (c p).ptr post)
    (sorted : Sorted base (pre ++ (p, s) ∷ post) hi) (pos : 0 < n) where
  abbrev d : Cells
  d = (carved l n z p s c block.0).cells

  abbrev bs : List Block
  bs = pre ++ (p, s) ∷ post

  parts : (base < p) × (0 < s) × Sorted base pre p × Sorted (p + s) post hi
  parts = Sorted-parts p s post hi base pre sorted

  z_lt : z < p
  z_lt = Seg-lt c base z base pre p front parts.2 parts.0

  node_at : (rest : List Block) → (z ≡ base) ⊎ Has z (pre ++ rest)
  node_at rest = elim (Seg-node c base z pre front) [
    | inl e ↦ inl e
    | inr h ↦ inr (Has-left z pre rest h)
  ]

  -- A unit that is not free is no node of the list, `base` apart.
  not_node : (x : ℕ) → cover bs x ≡ 0 → x ≢ base → x ≢ z
  not_node x clear nb e = elim (Seg-cover c base z base pre p front parts.2) [
    | inl at_base ↦ nb (e ∙ at_base)
    | inr covered ↦ omega (arith, cover-append pre ((p, s) ∷ post) x, ap (cover pre) e)
  ]

  outside_block : (x : ℕ) → cover bs x ≡ 0 → inside p s x ≡ 0
  unfolding cover
  outside_block x clear = omega (arith, cover-append pre ((p, s) ∷ post) x)

  result_at :
      (k : ℕ)
      → (carve l n z p c).0 ≡ k
      → ◌≡◌ {A = Option (Option ℕ × Memory)}
          (some (some (carve l n z p c).0, (carve l n z p c).1))
          (some (some k, record { freep = some z; cells = d }))
  result_at k e = ground (arith, carve_freep l n z p s c block.0)

  module _ (fits : s ≡ n) where
    spared : (x : ℕ) → ((d x).size ≡ (c x).size) × ((d x).s_code ≡ (c x).s_code)
    spared x = elim (ℕ_discrete x z) [
      | yes e ↦ rw (e, whole_link l n z p s c block.0 fits) (refl, refl)
      | no ne ↦ rw (whole_others l n z p s c block.0 fits x ne) (refl, refl)
    ]

    whole-Carved : Carved base hi c bs n (some (some (carve l n z p c).0, (carve l n z p c).1))
    unfolding cover total
    whole-Carved = record {
      at = p;
      freep = z;
      cells = d;
      list = pre ++ post;
      result = result_at (p + 1) (whole_at l n z p s c block.0 fits);
      is_free_list = record {
        base_size = (spared base).0 ∙ base_size;
        ring =
            Seg-Tail base d base z pre post
              (Seg-spared c d base z base pre p front parts.2 parts.0 (omega arith)
                (λ x lt. spared x)
                λ x lt.
                  ap (λ (h : Header). h.ptr)
                    (whole_others l n z p s c block.0 fits x (λ e. omega arith)))
              (rw (whole_link l n z p s c block.0 fits) (
                Tail-frame base c d z (c p).ptr (p + s) post hi parts.3 (omega (arith, z_lt))
                  (λ x lt. whole_others l n z p s c block.0 fits x (λ e. omega arith)) back));
        sorted = Sorted-drop p s post hi base pre sorted;
        node = node_at post;
      };
      block = ((spared p).0 ∙ block.0 ∙ fits, (spared p).1 ∙ block.1);
      covers = λ u. omega (
        arith,
        cover-append pre ((p, s) ∷ post) u,
        cover-append pre post u,
        ap (λ k. inside p k u) fits,
      );
      units = omega (arith, total-append pre ((p, s) ∷ post), total-append pre post);
      others = λ x clear nb. whole_others l n z p s c block.0 fits x (not_node x clear nb);
    }

  module _ (larger : n < s) where
    abbrev a : ℕ
    a = p + (s - n)

    pspared : (x : ℕ) → x < p → d x ≡ c x
    pspared x lt = part_others l n z p s c block.0 larger x (λ e. omega arith) (λ e. omega arith)

    rest_block : d p ≡ record (c p) { size = s - n }
    rest_block = part_rest l n z p s c block.0 larger (omega arith)

    part-Carved : Carved base hi c bs n (some (some (carve l n z p c).0, (carve l n z p c).1))
    unfolding cover total
    part-Carved = record {
      at = a;
      freep = z;
      cells = d;
      list = pre ++ (p, s - n) ∷ post;
      result = result_at (a + 1) (part_at l n z p s c block.0 larger);
      is_free_list = record {
        base_size = ap (λ (h : Header). h.size) (pspared base parts.0) ∙ base_size;
        ring =
            Seg-Tail base d base z pre ((p, s - n) ∷ post)
              (Seg-spared c d base z base pre p front parts.2 parts.0 (omega arith)
                (λ x lt. rw (pspared x lt) (refl, refl))
                λ x lt. ap (λ (h : Header). h.ptr) (pspared x (omega (arith, z_lt))))
              (
                ap (λ (h : Header). h.ptr) (pspared z z_lt) ∙ link,
                rw rest_block (refl, block.1),
                rw rest_block (
                    Tail-frame base c d a (c p).ptr (p + s) post hi parts.3 (omega arith)
                      (λ x lt.
                        part_others l n z p s c block.0 larger x (λ e. omega arith)
                          (λ e. omega arith))
                      back),
              );
        sorted = Sorted-shrink p s post hi (s - n) base pre (omega arith) (omega arith) sorted;
        node = node_at ((p, s - n) ∷ post);
      };
      block = part-IsBlock l n z p s c block.0 larger;
      covers = λ u. omega (
        arith,
        cover-append pre ((p, s) ∷ post) u,
        cover-append pre ((p, s - n) ∷ post) u,
        inside_join p (s - n) n u,
        ap (λ k. inside p k u) cut,
      );
      units = omega (arith, total-append pre ((p, s) ∷ post), total-append pre ((p, s - n) ∷ post));
      others = λ x clear nb.
          part_others l n z p s c block.0 larger x
            (λ e. omega (
              arith,
              outside_block x clear,
              inside_in p s x (omega arith) (omega (arith, parts.1)),
            ))
            (λ e.
              omega (arith, outside_block x clear, inside_in p s x (omega arith) (omega arith)));
    }
      where
        cut : s - n + n ≡ s
        cut = omega arith

  pub carve-Carved :
      n ≤ s → Carved base hi c bs n (some (some (carve l n z p c).0, (carve l n z p c).1))
  carve-Carved le = elim (ℕ_discrete s n) [
    | yes e ↦ whole-Carved e
    | no ne ↦ part-Carved (omega (arith, ne))
  ]
