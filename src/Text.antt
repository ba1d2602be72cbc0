-- ===== src/Text.antt =====
-- The C library calls on text that the agent uses, on the bytes before the terminating zero.
pub mod Scan
pub mod Roundtrip
pub mod Words
use tp_sist_op.Prelude.{ℕ, zero, suc, ◌+◌, ◌/◌, ◌%◌, List, [], ◌∷◌, if◌then◌else◌, ltb}
use tp_sist_op.Prelude.Int.{ℤ, pos, negsuc}

-- The decimal digits of a number, the last one on top of `acc`; each round divides by ten, so a
-- number of rounds above the number itself is enough.
unfoldable pub digits : ℕ → ℕ → List ℕ → List ℕ
digits zero n acc = acc
digits (suc fuel) n acc =
    let d = n % 10 + b'0' in
    let more = digits fuel (n / 10) (d ∷ acc) in if ltb n 10 then d ∷ acc else more

unfoldable pub decimal : ℕ → List ℕ
unfolding digits
decimal n = digits (suc n) n []

-- `%d`.
unfoldable pub print_int : ℤ → List ℕ
unfolding decimal
print_int (pos n) = decimal n
print_int (negsuc n) = b'-' ∷ decimal (suc n)
