-- ===== src/Server/Sending.antt =====
-- server/src/sensorsNetwork.c and server/src/guiNetwork.c: the loop that hands a message to a socket, in
-- `sensorsMsgSend` and in `guiMsgSend`. `send` and the bytes from `buff` on are parameters.
use cofi_ty_home.Common.{
  ℕ, zero, suc, ◌+◌, ◌*◌, ◌≤◌, ◌<◌, ◌≡◌, refl, ◌∙◌, ap, Option, none, some, [], ◌∷◌, ◌++◌, ltb,
  if◌then◌else◌, arith, dec_lt, Text, lt→ltb, le→ltb,
}

-- `nbSent` and what the socket has got, or the end of the program.
pub data Sent : Type 0 where
  sent : ℕ → Text → Sent
  failed : Sent

-- `n` bytes from an index on.
unfoldable pub bytes : (ℕ → ℕ) → ℕ → ℕ → Text
bytes buff i zero = []
bytes buff i (suc n) = buff i ∷ bytes buff (suc i) n

module _ (send : ℕ → ℕ → Option ℕ) (buff : ℕ → ℕ) where
  -- `send` for the offset of `sending` and `nb`; no number is -1. The loop asks for `nb` bytes, and
  -- `nb` is then what it got. No result is missing fuel.
  unfoldable pub send_loop : ℕ → ℕ → ℕ → ℕ → Text → Option Sent
  unfolding bytes
  send_loop zero total nb nb_sent out = none
  send_loop (suc fuel) total nb nb_sent out =
      let rest : Option Sent = elim (send nb_sent nb) [
        | none ↦ some failed
        | some k ↦ send_loop fuel total k (nb_sent + k) (out ++ bytes buff nb_sent k)
      ] in
      if ltb nb_sent total then rest else some (sent nb_sent out)

  unfoldable pub hand_over : ℕ → ℕ → Option Sent
  unfolding send_loop
  hand_over fuel total = send_loop fuel total total 0 []

  bytes-append :
      (i a b j n : ℕ) → j ≡ i + a → n ≡ a + b → bytes buff i a ++ bytes buff j b ≡ bytes buff i n
  unfolding bytes
  bytes-append i zero b j n e f =
      ap (λ x. bytes buff x b) (omega (arith, e)) ∙ ap (bytes buff i) (omega (arith, f))
  bytes-append i (suc a) b j n e f =
      let more : suc (a + b) ≡ n = omega (arith, f) in
      ap (◌∷◌ (buff i)) (bytes-append (suc i) a b j (a + b) (omega (arith, e)) refl)
      ∙ ap (bytes buff i) more

  -- `send` takes at least one byte, and no more than it is asked for.
  abbrev pub Takes : Type 0
  Takes = (i nb : ℕ) → 0 < nb → (k : ℕ) × (send i nb ≡ some k) × (0 < k) × (k ≤ nb)

  send_loop-bounds :
      (takes : Takes) (fuel total nb nb_sent : ℕ)
      → 0 < nb
      → nb ≤ total
      → nb_sent < total + nb
      → 0 < fuel
      → total < fuel + nb_sent
      → (n : ℕ) × (send_loop fuel total nb nb_sent (bytes buff 0 nb_sent)
          ≡ some (sent n (bytes buff 0 n)))
        × (total ≤ n)
        × (n < 2 * total)
  unfolding send_loop
  send_loop-bounds takes zero total nb nb_sent pos le lt some_fuel enough =
      absurd (omega (arith, some_fuel))
  send_loop-bounds takes (suc fuel) total nb nb_sent pos le lt some_fuel enough =
      elim (dec_lt nb_sent total) [
        | no over ↦
            (nb_sent, rw (le→ltb nb_sent total (omega arith)) refl, omega arith, omega arith)
        | yes more ↦
            let (k, e, k_pos, k_le) = takes nb_sent nb pos in
            let (n, run, lo, hi) =
              send_loop-bounds takes fuel total k (nb_sent + k) k_pos (omega (arith, k_le, le))
                (omega (arith, k_pos, more)) (omega (arith, more, enough))
                (omega (arith, k_pos, enough)) in
            (
              n,
              rw
                  (
                    lt→ltb nb_sent total more,
                    e,
                    bytes-append 0 nb_sent k nb_sent (nb_sent + k) (omega arith) refl,
                  )
                  run,
              lo,
              hi,
            )
      ]

  -- If `send` takes at least one byte and no more than it is asked for, and with fuel for the bytes of
  -- a message that is not empty, the loop ends and the socket has got the bytes of the message in
  -- their order, and behind them fewer bytes than the message has.
  pub hand_over-bounds :
      (takes : Takes) (fuel total : ℕ)
      → 0 < total
      → total < fuel
      → (n : ℕ) × (hand_over fuel total ≡ some (sent n (bytes buff 0 n)))
        × (total ≤ n)
        × (n < 2 * total)
  unfolding hand_over
  hand_over-bounds takes fuel total pos enough =
      send_loop-bounds takes fuel total total 0 pos (omega arith) (omega arith) (omega arith)
        (omega arith)
