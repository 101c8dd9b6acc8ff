-- ===== src/Common/Printing.antt =====
-- The decimal numbers that `printf ("%d")` prints.
use Prim.Native.Nat.{ℕ, zero, suc, ◌+◌, ◌/◌, ◌%◌}
use mathlib.Core.List.{[], ◌∷◌, ◌++◌}
use cofi_ty_home.Common.Tests.{ltb, if◌then◌else◌}
use cofi_ty_home.Common.Int.{ℤ, pos, negsuc}
use cofi_ty_home.Common.Strings.{Text}

-- `sprintf (…, "%d", …)`; one more than the number is enough fuel.
unfoldable pub digits : ℕ → ℕ → Text
digits zero n = []
digits (suc fuel) n =
    let high = digits fuel (n / 10) in
    if ltb n 10 then (b'0' + n) ∷ [] else high ++ (b'0' + n % 10) ∷ []

unfoldable pub decimal : ℤ → Text
unfolding digits
decimal (pos n) = digits (suc n) n
decimal (negsuc n) = b'-' ∷ digits (suc (suc n)) (suc n)
