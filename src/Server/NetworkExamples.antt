-- ===== src/Server/NetworkExamples.antt =====
-- Two clients, and a socket that takes two bytes at most.
use cofi_ty_home.Common.{
  true, ℕ, ◌*◌, ◌≤◌, ◌<◌, ◌≡◌, refl, Option, none, some, [], arith, ◌==◌, ltb, dec_lt, lt→ltb,
  le→ltb, if◌then◌else◌,
}
use cofi_ty_home.Server.Lifecycle.{Calls}
use cofi_ty_home.Server.Sending.{sent, bytes, hand_over, Takes, hand_over-bounds}
use cofi_ty_home.Server.GuiNetwork.Clients.{Link, ClientList}

abbrev slow : ℕ → ℕ → Option ℕ
slow i nb = if ltb 2 nb then some 2 else some nb

slow-Takes : Takes slow (λ i. i)
slow-Takes i nb pos = elim (dec_lt 2 nb) [
  | yes more ↦ (2, rw (lt→ltb 2 nb more) refl, omega arith, omega (arith, more))
  | no few ↦ (nb, rw (le→ltb 2 nb (omega (arith, few))) refl, pos, omega arith)
]

hand_over-bounds_example :
    (n : ℕ) × (hand_over slow (λ i. i) 9 5 ≡ some (sent n (bytes (λ i. i) 0 n)))
    × (5 ≤ n)
    × (n < 2 * 5)
hand_over-bounds_example = hand_over-bounds slow (λ i. i) slow-Takes 9 5 (omega arith) (omega arith)

-- Client 8 came first, then client 5.
abbrev two_links : ℕ → Link
two_links p =
    if p == 5
    then record { next = some 8; previous = none }
    else record { next = none; previous = some 5 }

abbrev two_clients : ClientList
two_clients = record { links = two_links; first = some 5; current = some 5; acts = [] }

-- A system that gives everything.
abbrev generous : Calls
generous = record {
  gives = λ a t. true;
  takes_back = λ a t. true;
  connects = λ a. true;
  binds = λ a. true;
  files_right = λ a. true;
}
