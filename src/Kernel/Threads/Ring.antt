-- ===== src/Kernel/Threads/Ring.antt =====
-- The active threads as a ring that is linked both ways, and how it changes.
use cofi_ty_home.Common.{ℕ, ◌≡◌, refl, sym, ◌∙◌, ap, ◌≢◌, none, some, List, [], ◌∷◌, arith}
use cofi_ty_home.Kernel.Threads.{Ctxs, put, link_after, unlink, link_given}

pub some-inj : (x y : ℕ) → some x ≡ some y → x ≡ y
some-inj x y e = ap (λ o. elim o [ none ↦ x | some z ↦ z ]) e

-- From `a` the links lead through the threads to `z`, and back.
abbrev pub Chain : Ctxs → ℕ → List ℕ → ℕ → Type 0
Chain c a [] z = ((c a).next ≡ some z) × ((c z).last ≡ some a)
Chain c a (x ∷ xs) z = ((c a).next ≡ some x) × ((c x).last ≡ some a) × Chain c x xs z

abbrev pub Differ : ℕ → List ℕ → Type 0
Differ y [] = Unit
Differ y (x ∷ xs) = (y ≢ x) × Differ y xs

abbrev pub NoDup : List ℕ → Type 0
NoDup [] = Unit
NoDup (x ∷ xs) = Differ x xs × NoDup xs

-- The current thread and the others, in the order of `next`.
pub record IsRing (c : Ctxs) (current : ℕ) (others : List ℕ) : Type 0 where
  pub chain : Chain c current others current
  pub distinct : NoDup (current ∷ others)

abbrev pub end : ℕ → List ℕ → ℕ
end a [] = a
end a (x ∷ xs) = end x xs

pub Differ-end : (y a : ℕ) (xs : List ℕ) → y ≢ a → Differ y xs → y ≢ end a xs
Differ-end y a [] ne h = ne
Differ-end y a (x ∷ xs) ne h = Differ-end y x xs h.0 h.1

pub Chain-end :
    (c : Ctxs) (a : ℕ) (xs : List ℕ) (z : ℕ) → Chain c a xs z → (c z).last ≡ some (end a xs)
Chain-end c a [] z h = h.1
Chain-end c a (x ∷ xs) z h = Chain-end c x xs z h.2

-- A change that spares a chain's links.
pub Chain-frame :
    (c d : Ctxs) (p q r : ℕ)
    → ((y : ℕ) → y ≢ p → y ≢ r → (d y).next ≡ (c y).next)
    → ((y : ℕ) → y ≢ q → y ≢ r → (d y).last ≡ (c y).last)
    → (a : ℕ) (xs : List ℕ) (z : ℕ) → Chain c a xs z
    → a ≢ p
    → a ≢ r
    → Differ p xs
    → Differ q xs
    → Differ r xs
    → z ≢ q
    → z ≢ r
    → Chain d a xs z
Chain-frame c d p q r sn sl a [] z h ap ar dp dq dr zq zr = (sn a ap ar ∙ h.0, sl z zq zr ∙ h.1)
Chain-frame c d p q r sn sl a (x ∷ xs) z h ap ar dp dq dr zq zr = (
  sn a ap ar ∙ h.0,
  sl x (λ e. dq.0 (sym e)) (λ e. dr.0 (sym e)) ∙ h.1,
  Chain-frame c d p q r sn sl x xs z h.2 (λ e. dp.0 (sym e)) (λ e. dr.0 (sym e)) dp.1 dq.1 dr.1 zq
      zr,
)

-- A chain whose last link is turned to `w`.
Chain-turn :
    (c d : Ctxs) (b w r : ℕ)
    → ((y : ℕ) → y ≢ b → y ≢ r → (d y).next ≡ (c y).next)
    → ((y : ℕ) → y ≢ w → y ≢ r → (d y).last ≡ (c y).last)
    → (d b).next ≡ some w
    → (d w).last ≡ some b
    → (a : ℕ) (xs : List ℕ) (z : ℕ) → Chain c a xs z
    → b ≡ end a xs
    → NoDup (a ∷ xs)
    → Differ r (a ∷ xs)
    → Differ w xs
    → Chain d a xs w
Chain-turn c d b w r sn sl nb lw a [] z h e nd dr dw = (rw (← e) nb, rw (← e) lw)
Chain-turn c d b w r sn sl nb lw a (x ∷ xs) z h e nd dr dw = (
  sn a (λ i. Differ-end a x xs nd.0.0 nd.0.1 (i ∙ e)) (λ i. dr.0 (sym i)) ∙ h.0,
  sl x (λ i. dw.0 (sym i)) (λ i. dr.1.0 (sym i)) ∙ h.1,
  Chain-turn c d b w r sn sl nb lw x xs z h.2 e nd.1 dr.1 dw.1,
)

module _ (c : Ctxs) (current neighbour new : ℕ) where
  abbrev grown : Ctxs
  grown = link_after c current neighbour new

  module _ (nc : new ≢ current) (nn : new ≢ neighbour) where
    grown_current : (grown current).next ≡ some new
    unfolding link_after put
    grown_current = ground arith

    grown_new_next : (grown new).next ≡ some neighbour
    unfolding link_after put
    grown_new_next = ground arith

    grown_new_last : (grown new).last ≡ some current
    unfolding link_after put
    grown_new_last = ground arith

    grown_neighbour : (grown neighbour).last ≡ some new
    unfolding link_after put
    grown_neighbour = ground arith

    grown_next : (y : ℕ) → y ≢ current → y ≢ new → (grown y).next ≡ (c y).next
    unfolding link_after put
    grown_next y yc yn = ground arith

    grown_last : (y : ℕ) → y ≢ neighbour → y ≢ new → (grown y).last ≡ (c y).last
    unfolding link_after put
    grown_last y yc yn = ground arith

-- The thread that `current->next` points to.
abbrev pub first_of : ℕ → List ℕ → ℕ
first_of current [] = current
first_of current (x ∷ xs) = x

-- `link_after` puts a new thread right behind the current one.
pub link_after-IsRing :
    (c : Ctxs) (current : ℕ) (others : List ℕ) (new : ℕ)
    → IsRing c current others
    → Differ new (current ∷ others)
    → IsRing (link_after c current (first_of current others) new) current (new ∷ others)
link_after-IsRing c current [] new h d = record {
  chain = (
    grown_current c current current new d.0 d.0,
    grown_new_last c current current new d.0 d.0,
    (grown_new_next c current current new d.0 d.0, grown_neighbour c current current new d.0 d.0),
  );
  distinct = (((λ e. d.0 (sym e)), tt), (tt, tt));
}
link_after-IsRing c current (x ∷ xs) new h d = record {
  chain = (
    grown_current c current x new d.0 d.1.0,
    grown_new_last c current x new d.0 d.1.0,
    (
      grown_new_next c current x new d.0 d.1.0,
      grown_neighbour c current x new d.0 d.1.0,
      Chain-frame c (link_after c current x new) current x new
          (grown_next c current x new d.0 d.1.0) (grown_last c current x new d.0 d.1.0) x xs current
          h.chain.2 (λ e. h.distinct.0.0 (sym e)) (λ e. d.1.0 (sym e)) h.distinct.0.1 h.distinct.1.0
          d.1.1 h.distinct.0.0 (λ e. d.0 (sym e)),
    ),
  );
  distinct = (((λ e. d.0 (sym e)), h.distinct.0), (d.1, h.distinct.1));
}

module _ (c : Ctxs) (save neighbour before : ℕ) where
  abbrev shrunk : Ctxs
  shrunk = unlink c save neighbour before

  module _ (sn : save ≢ neighbour) (sb : save ≢ before) where
    shrunk_last_neighbour : (shrunk neighbour).last ≡ some before
    unfolding unlink put
    shrunk_last_neighbour = ground arith

    shrunk_next_before : (shrunk before).next ≡ some neighbour
    unfolding unlink put
    shrunk_next_before = ground arith

    shrunk_next : (y : ℕ) → y ≢ before → y ≢ save → (shrunk y).next ≡ (c y).next
    unfolding unlink put
    shrunk_next y yb ys = ground arith

    shrunk_last : (y : ℕ) → y ≢ neighbour → y ≢ save → (shrunk y).last ≡ (c y).last
    unfolding unlink put
    shrunk_last y yb ys = ground arith

-- `unlink` takes the current thread out of a ring of two or more.
pub unlink-IsRing :
    (c : Ctxs) (current x : ℕ) (xs : List ℕ)
    → IsRing c current (x ∷ xs)
    → IsRing (unlink c current x (end x xs)) x xs
unlink-IsRing c current x xs h =
    let sb = Differ-end current x xs h.distinct.0.0 h.distinct.0.1 in
    let sn = h.distinct.0.0 in
    record {
      chain =
          Chain-turn c (unlink c current x (end x xs)) (end x xs) x current
            (shrunk_next c current x (end x xs) sn sb) (shrunk_last c current x (end x xs) sn sb)
            (shrunk_next_before c current x (end x xs) sn sb)
            (shrunk_last_neighbour c current x (end x xs) sn sb) x xs current h.chain.2 refl
            h.distinct.1 h.distinct.0 h.distinct.1.0;
      distinct = h.distinct.1;
    }

-- Where `sem_give` sends the `last` of the thread that it wakes.
pub link_given-last :
    (c : Ctxs) (current neighbour save : ℕ)
    → save ≢ current
    → save ≢ neighbour
    → (link_given c current neighbour save save).last ≡ (c current).last
unfolding link_given put
link_given-last c current neighbour save sc sn = ground arith

Chain-same :
    (c d : Ctxs)
    → ((y : ℕ) → (d y).next ≡ (c y).next)
    → ((y : ℕ) → (d y).last ≡ (c y).last)
    → (a : ℕ) (xs : List ℕ) (z : ℕ) → Chain c a xs z
    → Chain d a xs z
Chain-same c d sn sl a [] z h = (sn a ∙ h.0, sl z ∙ h.1)
Chain-same c d sn sl a (x ∷ xs) z h = (sn a ∙ h.0, sl x ∙ h.1, Chain-same c d sn sl x xs z h.2)

pub link_given-next :
    (c : Ctxs) (current neighbour save : ℕ)
    → (link_given c current neighbour save current).next ≡ some save
unfolding link_given put
link_given-next c current neighbour save = ground arith

-- A change that spares all links.
pub IsRing-same :
    (c d : Ctxs) (t : ℕ) (ts : List ℕ)
    → ((y : ℕ) → (d y).next ≡ (c y).next)
    → ((y : ℕ) → (d y).last ≡ (c y).last)
    → IsRing c t ts
    → IsRing d t ts
IsRing-same c d t ts sn sl h = record {
  chain = Chain-same c d sn sl t ts t h.chain;
  distinct = h.distinct;
}

-- The next of the current thread in a ring.
pub next-first_of :
    (c : Ctxs) (t : ℕ) (ts : List ℕ) → Chain c t ts t → (c t).next ≡ some (first_of t ts)
next-first_of c t [] h = h.0
next-first_of c t (x ∷ xs) h = h.0

-- In a ring the next thread of the current one links back to it.
pub Chain-back :
    (c : Ctxs) (t w : ℕ) (ts : List ℕ) → Chain c t ts t → (c t).next ≡ some w → (c w).last ≡ some t
Chain-back c t w [] h e = rw (← some-inj t w (sym h.0 ∙ e)) h.1
Chain-back c t w (x ∷ xs) h e = rw (← some-inj x w (sym h.0 ∙ e)) h.1
