-- ===== src/Server/Cleaning/Returning.antt =====
-- What `cleanMemory` makes of the heap.
use mathlib.Core.Path.{subst, fun_ext}
use cofi_ty_home.Common.{
  ℕ, ◌+◌, ◌≤◌, ◌≡◌, refl, sym, ◌∙◌, ap, Option, none, some, ◌>>=◌, List, [], ◌∷◌, ◌++◌,
  Option-cases, inl, inr,
}
use cofi_ty_home.Kernel.Memory.{Memory, Layout}
use cofi_ty_home.Kernel.Memory.Blocks.{Block}
use cofi_ty_home.Kernel.Memory.Free.{IsLayout}
use cofi_ty_home.Kernel.Memory.Heap.{IsHeap, rounds}
use cofi_ty_home.Kernel.Memory.Session.{g_free-IsHeap}
use cofi_ty_home.Server.Cleaning.{
  Nodes, Server, free_one, free_list, free_nested, free_sensors, clean_actions, clean_rules,
  clean_actionneurs, clean_sensors, clean_memory,
}

-- The blocks behind the pointers, each once, are among `held`, and `rest` are the others.
abbrev pub Owns : List ℕ → List Block → List Block → Type 0
Owns [] held rest = held ≡ rest
Owns (p ∷ ps) held rest =
    (pre : List Block) × (bp : ℕ) × (sz : ℕ) × (post : List Block) × (held ≡ pre ++ (bp, sz) ∷ post)
    × (p ≡ bp + 1)
    × Owns ps (pre ++ post) rest

-- The heap behind calls of `gFree`: cut into free blocks and the blocks that are still held.
pub record Returned (l : Layout) (rest : List Block) (r : Option Memory) : Type 0 where
  pub memory : Memory
  pub free : List Block
  pub result : r ≡ some memory
  pub heap : IsHeap l memory free rest

-- The pointers in the order in which `gFree` gets them.
abbrev pub nested_pointers : List (ℕ × List ℕ) → List ℕ
nested_pointers [] = []
nested_pointers (n ∷ ns) = n.1 ++ n.0 ∷ nested_pointers ns

abbrev pub sensor_pointers : List (ℕ × ℕ) → List ℕ
sensor_pointers [] = []
sensor_pointers (s ∷ ss) = s.1 ∷ s.0 ∷ sensor_pointers ss

-- All pointers of the configuration.
abbrev pub all_pointers : Nodes → List ℕ
all_pointers n =
    nested_pointers n.actions
    ++ (nested_pointers n.start_rule ++ (n.actionneurs ++ sensor_pointers n.sensors))

abbrev pub no_nodes : Nodes
no_nodes = record { actions = []; start_rule = []; actionneurs = []; sensors = [] }

none-some : {A : Type 0} {a : A} → none ≡ some a → ⊥
none-some e = cc e

module _ (l : Layout) (ok : IsLayout l) (fuel : ℕ) (enough : rounds l ≤ fuel) where
  free_one-Returned :
      (m : Memory) (free pre post : List Block) (p bp sz : ℕ)
      → IsHeap l m free (pre ++ (bp, sz) ∷ post)
      → p ≡ bp + 1
      → Returned l (pre ++ post) (free_one l fuel p m)
  free_one-Returned m free pre post p bp sz h e =
      let (m', free', run, h') = g_free-IsHeap l ok m free pre post bp sz fuel h enough in
      record { memory = m'; free = free'; result = rw e run; heap = h' }

  free_list-Returned :
      (ps : List ℕ) (m : Memory) (free held rest : List Block)
      → IsHeap l m free held
      → Owns ps held rest
      → Returned l rest (free_list l fuel ps m)
  unfolding free_list
  free_list-Returned [] m free held rest h o = record {
    memory = m;
    free = free;
    result = refl;
    heap = subst (IsHeap l m free) o h;
  }
  free_list-Returned (p ∷ ps) m free held rest h o =
      let (pre, bp, sz, post, split, e, others) = o in
      let one = free_one-Returned m free pre post p bp sz (subst (IsHeap l m free) split h) e in
      let r = free_list-Returned ps one.memory one.free (pre ++ post) rest one.heap others in
      record { memory = r.memory; free = r.free; result = rw one.result r.result; heap = r.heap }

  free_list-append :
      (ps qs : List ℕ) (m m' : Memory)
      → free_list l fuel (ps ++ qs) m ≡ some m'
      → (m1 : Memory) × (free_list l fuel ps m ≡ some m1) × (free_list l fuel qs m1 ≡ some m')
  unfolding free_list
  free_list-append [] qs m m' e = (m, refl, e)
  free_list-append (p ∷ ps) qs m m' e = elim (Option-cases (free_one l fuel p m)) [
    | inl none_yet ↦
        absurd (none-some (sym (ap (λ r. r >>= free_list l fuel (ps ++ qs)) none_yet) ∙ e))
    | inr (m0, one) ↦
        let (m1, e1, e2) =
          free_list-append ps qs m0 m'
            (sym (ap (λ r. r >>= free_list l fuel (ps ++ qs)) one) ∙ e) in
        (m1, rw one e1, e2)
  ]

  free_nested-pointers :
      (ns : List (ℕ × List ℕ)) (m m' : Memory)
      → free_list l fuel (nested_pointers ns) m ≡ some m'
      → free_nested l fuel ns m ≡ some m'
  unfolding free_nested free_list
  free_nested-pointers [] m m' e = e
  free_nested-pointers (n ∷ ns) m m' e =
      let (m1, e1, e2) = free_list-append n.1 (n.0 ∷ nested_pointers ns) m m' e in
      let (m2, e3, e4) = free_list-append (n.0 ∷ []) (nested_pointers ns) m1 m' e2 in
      let one : free_one l fuel n.0 m1 ≡ some m2 = of_single (free_one l fuel n.0 m1) m2 e3 in
      rw (e1, one) (free_nested-pointers ns m2 m' e4)
    where
      of_single : (r : Option Memory) (m2 : Memory) → (r >>= (λ a. some a)) ≡ some m2 → r ≡ some m2
      of_single none m2 e = e
      of_single (some a) m2 e = e

  free_sensors-pointers :
      (ss : List (ℕ × ℕ)) (m : Memory)
      → free_sensors l fuel ss m ≡ free_list l fuel (sensor_pointers ss) m
  unfolding free_sensors free_list
  free_sensors-pointers [] m = refl
  free_sensors-pointers (s ∷ ss) m =
      ap (λ f. free_one l fuel s.1 m >>= (λ m1. free_one l fuel s.0 m1 >>= f))
        (fun_ext (free_sensors-pointers ss))

  -- If the heap is cut into free and held blocks, the nodes of the configuration are among those that
  -- are held, each once, and fuel is given for two rounds, then cleanMemory returns with all lists
  -- empty, and the blocks that are held then are exactly the others.
  pub clean_memory-Returned :
      (s : Server) (free held rest : List Block)
      → IsHeap l s.memory free held
      → Owns (all_pointers s.nodes) held rest
      → (m' : Memory) × (free' : List Block) × (clean_memory l fuel s
          ≡ some (record { nodes = no_nodes; memory = m' }))
        × IsHeap l m' free' rest
  unfolding clean_memory clean_actions clean_rules clean_actionneurs clean_sensors
  clean_memory-Returned s free held rest h o =
      let n = s.nodes in
      let r = free_list-Returned (all_pointers n) s.memory free held rest h o in
      let (m1, e1, f1) =
        free_list-append (nested_pointers n.actions)
          (nested_pointers n.start_rule ++ (n.actionneurs ++ sensor_pointers n.sensors)) s.memory
          r.memory r.result in
      let (m2, e2, f2) =
        free_list-append (nested_pointers n.start_rule) (n.actionneurs ++ sensor_pointers n.sensors)
          m1 r.memory f1 in
      let (m3, e3, e4) =
        free_list-append n.actionneurs (sensor_pointers n.sensors) m2 r.memory f2 in
      (
        r.memory,
        r.free,
        rw
            (
              free_nested-pointers n.actions s.memory m1 e1,
              free_nested-pointers n.start_rule m1 m2 e2,
              e3,
              free_sensors-pointers n.sensors m3,
              e4,
            )
            refl,
        r.heap,
      )
