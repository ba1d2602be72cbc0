-- ===== src/Text/Roundtrip.antt =====
-- `%d` of `sscanf` on what `%d` of `printf` wrote.
use tp_sist_op.Prelude.{
  ℕ, zero, suc, ◌+◌, ◌*◌, ◌/◌, ◌%◌, ◌^◌, ◌<◌, Bool, true, false, List, [], ◌∷◌, ◌++◌, some, ◌≡◌,
  refl, ap, ◌∙◌, inl, inr, arith, leb, ltb, ◌==◌, Bool-cases,
}
use tp_sist_op.Prelude.Int.{ℤ, pos, negsuc, IsInt, wrap_exact}
use tp_sist_op.Text.{digits, decimal, print_int}
use tp_sist_op.Text.Scan.{
  is_digit, is_space, skip_spaces, read_digits, scan_nat, to_int, opposite, signed, scan_signed,
  scan_int,
}

-- The text starts with a digit, or does not.
abbrev pub StartsWithDigit : List ℕ → Type 0
StartsWithDigit [] = ⊥
StartsWithDigit (c ∷ s) = is_digit c ≡ true

abbrev pub Stops : List ℕ → Type 0
Stops [] = Unit
Stops (c ∷ s) = is_digit c ≡ false

digits-append :
    (fuel n : ℕ) (acc rest : List ℕ) → digits fuel n acc ++ rest ≡ digits fuel n (acc ++ rest)
unfolding digits
digits-append zero n acc rest = refl
digits-append (suc fuel) n acc rest = elim (Bool-cases (ltb n 10)) [
  | inl small ↦ rw small refl
  | inr large ↦ rw large (digits-append fuel (n / 10) _ rest)
]

digits-StartsWithDigit :
    (fuel n : ℕ) (acc : List ℕ) → StartsWithDigit acc → StartsWithDigit (digits fuel n acc)
unfolding digits
digits-StartsWithDigit zero n acc h = h
digits-StartsWithDigit (suc fuel) n acc h = elim (Bool-cases (ltb n 10)) [
  | inl small ↦ rw small (ground arith)
  | inr large ↦ rw large (digits-StartsWithDigit fuel (n / 10) _ (ground arith))
]

-- A digit is read as it was written.
digit-is_digit : (n : ℕ) → is_digit (n % 10 + b'0') ≡ true
digit-is_digit n = ground arith

read_digit :
    (a n : ℕ) (acc : List ℕ)
    → read_digits a ((n % 10 + b'0') ∷ acc) ≡ read_digits (a * 10 + n % 10) acc
unfolding read_digits
read_digit a n acc = rw (digit-is_digit n) (ap (λ k. read_digits k acc) (omega arith))

read_digits-digits :
    (fuel n : ℕ) (acc : List ℕ) → n < fuel → read_digits 0 (digits fuel n acc) ≡ read_digits n acc
unfolding digits
read_digits-digits zero n acc h = absurd (omega arith)
read_digits-digits (suc fuel) n acc h = elim (Bool-cases (ltb n 10)) [
  | inl small ↦ rw small (read_digit 0 n acc ∙ ap (λ k. read_digits k acc) (ground arith))
  | inr large ↦ rw large (
      read_digits-digits fuel (n / 10) _ (ground arith)
      ∙ read_digit (n / 10) n acc
      ∙ ap (λ k. read_digits k acc) (omega arith))
]

read_digits-Stops : (n : ℕ) (rest : List ℕ) → Stops rest → read_digits n rest ≡ (n, rest)
unfolding read_digits
read_digits-Stops n [] h = refl
read_digits-Stops n (c ∷ s) h = rw h refl

decimal-StartsWithDigit : (n : ℕ) (rest : List ℕ) → StartsWithDigit (decimal n ++ rest)
unfolding decimal digits
decimal-StartsWithDigit n rest =
    rw (digits-append (suc n) n [] rest) (elim (Bool-cases (ltb n 10)) [
      | inl small ↦ rw small (digit-is_digit n)
      | inr large ↦ rw large (digits-StartsWithDigit n (n / 10) _ (digit-is_digit n))
    ])

read_digits-decimal :
    (n : ℕ) (rest : List ℕ) → Stops rest → read_digits 0 (decimal n ++ rest) ≡ (n, rest)
unfolding decimal
read_digits-decimal n rest h =
    rw (digits-append (suc n) n [] rest)
      (read_digits-digits (suc n) n rest (omega arith) ∙ read_digits-Stops n rest h)

scan_nat-StartsWithDigit : (s : List ℕ) → StartsWithDigit s → scan_nat s ≡ some (read_digits 0 s)
unfolding scan_nat
scan_nat-StartsWithDigit [] h = absurd h
scan_nat-StartsWithDigit (c ∷ s) h = rw h refl

-- A digit is no blank and no sign.
scan_int-StartsWithDigit : (s : List ℕ) → StartsWithDigit s → scan_int s ≡ signed false (scan_nat s)
unfolding scan_int skip_spaces scan_signed
scan_int-StartsWithDigit [] h = absurd h
scan_int-StartsWithDigit (c ∷ s) h =
    let no_space : is_space c ≡ false = ground arith in
    let no_minus : (c == b'-') ≡ false = ground arith in
    let no_plus : (c == b'+') ≡ false = ground arith in rw no_space (rw no_minus (rw no_plus refl))

to_int_exact : (n : ℕ) → n < 2 ^ 31 → to_int false n ≡ pos n
unfolding to_int
to_int_exact n h =
    let small : ltb n (2 ^ 63) ≡ true = ground arith in
    rw small (wrap_exact (pos n) (omega arith, omega arith))

to_int_exact_negative : (n : ℕ) → n < 2 ^ 31 → to_int true (suc n) ≡ negsuc n
unfolding to_int opposite
to_int_exact_negative n h =
    let small : leb (suc n) (2 ^ 63) ≡ true = ground arith in
    rw small (wrap_exact (negsuc n) (omega arith, omega arith))

signed-decimal :
    (minus : Bool) (n : ℕ) (rest : List ℕ)
    → Stops rest
    → signed minus (scan_nat (decimal n ++ rest)) ≡ some (to_int minus n, rest)
unfolding signed
signed-decimal minus n rest k = ap (signed minus) (
    scan_nat-StartsWithDigit (decimal n ++ rest) (decimal-StartsWithDigit n rest)
    ∙ ap some (read_digits-decimal n rest k))

scan_int_minus : (s : List ℕ) → scan_int (b'-' ∷ s) ≡ signed true (scan_nat s)
unfolding scan_int skip_spaces scan_signed
scan_int_minus s = refl

-- What is written for an `int` is read back, up to a character that is no digit.
pub scan_int-print_int :
    (a : ℤ) (rest : List ℕ) → IsInt a → Stops rest → scan_int (print_int a ++ rest) ≡ some (a, rest)
unfolding print_int
scan_int-print_int (pos n) rest h k =
    scan_int-StartsWithDigit (decimal n ++ rest) (decimal-StartsWithDigit n rest)
    ∙ signed-decimal false n rest k
    ∙ ap (λ z. some (z, rest)) (to_int_exact n (omega arith))
scan_int-print_int (negsuc n) rest h k =
    scan_int_minus (decimal (suc n) ++ rest)
    ∙ signed-decimal true (suc n) rest k
    ∙ ap (λ z. some (z, rest)) (to_int_exact_negative n (omega arith))
