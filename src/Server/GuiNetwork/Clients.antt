-- ===== src/Server/GuiNetwork/Clients.antt =====
-- server/src/guiNetwork.c: the doubly linked list of clients. The calls of the system are taken to
-- succeed; where they fail the program ends.
use cofi_ty_home.Common.{
  ℕ, zero, suc, ◌≡◌, ◌≢◌, refl, sym, ◌∙◌, ◌⊎◌, inl, inr, ap, Option, none, some, ◌>>=◌, List, [],
  ◌∷◌, ◌++◌, ◌==◌, if◌then◌else◌, arith,
}
use mathlib.Core.Path.{subst}

pub record Link : Type 0 where
  pub next : Option ℕ
  pub previous : Option ℕ

-- What is done with a client: its two threads are cancelled, its socket and its queue closed, its memory
-- given back; a new one gets a queue and two threads.
pub data Act : Type 0 where
  cancels_send cancels_rec closes_sock closes_mq frees opens_mq starts_rec starts_send : ℕ → Act

-- `clientList`, the clients at their addresses, and what has been done, the first thing first.
pub record ClientList : Type 0 where
  pub links : ℕ → Link
  pub first : Option ℕ
  pub current : Option ℕ
  pub acts : List Act

unfoldable pub link_put : (ℕ → Link) → ℕ → Link → ℕ → Link
link_put s p x = λ y. if y == p then x else s y

abbrev pub acting : List Act → ClientList → ClientList
acting xs k = record k { acts = k.acts ++ xs }

-- The links when a client comes before the first one.
unfoldable pub linked_first : (ℕ → Link) → ℕ → Option ℕ → ℕ → Link
unfolding link_put
linked_first s p none = link_put s p (record { next = none; previous = none })
linked_first s p (some f) =
    let s' = link_put s p (record { next = some f; previous = none }) in
    link_put s' f (record (s' f) { previous = some p })

-- A connection: the new client, at the address that `gMalloc` has given, comes first.
unfoldable pub connect : ℕ → ClientList → ClientList
unfolding linked_first
connect p k =
    acting (opens_mq p ∷ starts_rec p ∷ starts_send p ∷ [])
      (record k { links = linked_first k.links p k.first; first = some p; current = some p })

abbrev pub dropping : ℕ → List Act
dropping p = cancels_send p ∷ cancels_rec p ∷ closes_sock p ∷ closes_mq p ∷ frees p ∷ []

-- The links when a client is passed over, for its pointer `next`. No result is the reading of a
-- null pointer.
unfoldable pub clean_links : (ℕ → Link) → ℕ → Option ℕ → Option (ℕ → Link)
unfolding link_put
clean_links s p none = none
clean_links s p (some n) = do
  let s1 = link_put s n (record (s n) { previous = (s p).previous })
  q ← (s1 p).previous
  some (link_put s1 q (record (s1 q) { next = (s1 p).next }))

unfoldable pub clean_client : ℕ → ClientList → Option ClientList
unfolding clean_links
clean_client p k = do
  links ← clean_links k.links p (k.links p).next
  some (acting (dropping p) (record k { links = links }))

-- The loop of `guiNetworkStop`.
unfoldable pub gui_network_stop : ℕ → ClientList → Option ClientList
gui_network_stop zero k = none
gui_network_stop (suc fuel) k = elim k.first [
  | none ↦ some k
  | some p ↦
      gui_network_stop fuel
        (acting (dropping p) (record k { current = some p; first = (k.links p).next }))
]

-- From a pointer on, the links lead forward through the clients to null, and back.
abbrev pub Doubly : (ℕ → Link) → Option ℕ → Option ℕ → List ℕ → Type 0
Doubly s prev q [] = q ≡ none
Doubly s prev q (x ∷ xs) = (q ≡ some x) × ((s x).previous ≡ prev) × Doubly s (some x) (s x).next xs

abbrev pub Others : ℕ → List ℕ → Type 0
Others p [] = Unit
Others p (x ∷ xs) = (x ≢ p) × Others p xs

Doubly-frame :
    (s r : ℕ → Link) (prev q : Option ℕ) (xs : List ℕ) (p f : ℕ)
    → ((y : ℕ) → y ≢ p → y ≢ f → r y ≡ s y)
    → Others p xs
    → Others f xs
    → Doubly s prev q xs
    → Doubly r prev q xs
Doubly-frame s r prev q [] p f same op of h = h
Doubly-frame s r prev q (x ∷ xs) p f same op of h =
    let e = same x op.0 of.0 in
    let (at, back, rest) = h in
    (
      at,
      ap (λ (l : Link). l.previous) e ∙ back,
      subst (λ o. Doubly r (some x) o xs) (sym (ap (λ (l : Link). l.next) e))
          (Doubly-frame s r (some x) (s x).next xs p f same op.1 of.1 rest),
    )

-- The first client does not come again.
abbrev pub FirstOnce : List ℕ → Type 0
FirstOnce [] = Unit
FirstOnce (x ∷ xs) = Others x xs

link_put_self : (s : ℕ → Link) (p : ℕ) (l : Link) → link_put s p l p ≡ l
unfolding link_put
link_put_self s p l = ground arith

linked_first_other : (s : ℕ → Link) (p f y : ℕ) → y ≢ p → y ≢ f → linked_first s p (some f) y ≡ s y
unfolding linked_first link_put
linked_first_other s p f y yp yf = ground arith

linked_first_new :
    (s : ℕ → Link) (p f : ℕ)
    → f ≢ p
    → ((linked_first s p (some f) p).previous ≡ none)
      × ((linked_first s p (some f) p).next ≡ some f)
unfolding linked_first link_put
linked_first_new s p f ne = ground arith

linked_first_old :
    (s : ℕ → Link) (p f : ℕ)
    → f ≢ p
    → ((linked_first s p (some f) f).previous ≡ some p)
      × ((linked_first s p (some f) f).next ≡ (s f).next)
unfolding linked_first link_put
linked_first_old s p f ne = ground arith

linked_first-Doubly :
    (s : ℕ → Link) (p : ℕ) (q : Option ℕ) (ps : List ℕ)
    → Doubly s none q ps
    → Others p ps
    → FirstOnce ps
    → Doubly (linked_first s p q) none (some p) (p ∷ ps)
unfolding linked_first
linked_first-Doubly s p q [] h o d =
    let e = link_put_self s p (record { next = none; previous = none }) in
    rw h (refl, ap (λ (l : Link). l.previous) e, ap (λ (l : Link). l.next) e)
linked_first-Doubly s p q (x ∷ xs) h o d =
    let (at, back, rest) = h in
    let (new_back, new_next) = linked_first_new s p x o.0 in
    let (old_back, old_next) = linked_first_old s p x o.0 in
    subst (λ w. Doubly (linked_first s p w) none (some p) (p ∷ x ∷ xs)) (sym at)
      (
        refl,
        new_back,
        (
          new_next,
          old_back,
          subst (λ n. Doubly (linked_first s p (some x)) (some x) n xs) (sym old_next)
              (Doubly-frame s (linked_first s p (some x)) (some x) (s x).next xs p x
                (linked_first_other s p x) o.1 d rest),
        ),
      )

-- If the address of a new client is not in the list and the first client does not come twice, a
-- connection puts the new client before the others, in a list that is linked both ways, and starts
-- its threads.
pub connect-Doubly :
    (p : ℕ) (k : ClientList) (ps : List ℕ)
    → Doubly k.links none k.first ps
    → FirstOnce ps
    → Others p ps
    → Doubly (connect p k).links none (connect p k).first (p ∷ ps)
      × ((connect p k).current ≡ some p)
      × ((connect p k).acts ≡ k.acts ++ opens_mq p ∷ starts_rec p ∷ starts_send p ∷ [])
unfolding connect
connect-Doubly p k ps h d o = (linked_first-Doubly k.links p k.first ps h o d, refl, refl)

-- What is to happen to the clients, one after the other: both threads first, then the socket and the
-- queue, and the memory last.
abbrev pub dropping_all : List ℕ → List Act
dropping_all [] = []
dropping_all (p ∷ ps) =
    cancels_send p ∷ cancels_rec p ∷ closes_sock p ∷ closes_mq p ∷ frees p ∷ dropping_all ps

back_after :
    (s : ℕ → Link) (n p : ℕ)
    → (link_put s n (record (s n) { previous = (s p).previous }) p).previous ≡ (s p).previous
unfolding link_put
back_after s n p = ground arith

clean_links-back :
    (s : ℕ → Link) (p : ℕ) (q : Option ℕ) → (s p).previous ≡ none → clean_links s p q ≡ none
unfolding clean_links
clean_links-back s p none h = refl
clean_links-back s p (some n) h = rw (back_after s n p ∙ h) refl

clean_links-none : (s : ℕ → Link) (p : ℕ) → (s p).next ≡ none → clean_links s p (s p).next ≡ none
unfolding clean_links
clean_links-none s p h = ap (clean_links s p) h

-- If a client is the first or the last one of the list, cleanClient reads a null pointer.
pub clean_client-end :
    (p : ℕ) (k : ClientList)
    → ((k.links p).next ≡ none) ⊎ ((k.links p).previous ≡ none)
    → clean_client p k ≡ none
unfolding clean_client
clean_client-end p k (inl h) = rw (clean_links-none k.links p h) refl
clean_client-end p k (inr h) = rw (clean_links-back k.links p (k.links p).next h) refl
