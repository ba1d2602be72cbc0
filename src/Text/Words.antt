-- ===== src/Text/Words.antt =====
-- Text without blanks, which is one token to `strtok_r` of agente_c/src/parsing.c, and how long a printed
-- number is.
use tp_sist_op.Prelude.{
  ℕ, zero, suc, ◌+◌, ◌/◌, ◌%◌, ◌^◌, ◌<◌, ◌≤◌, true, false, List, [], ◌∷◌, ◌++◌, ◌≡◌, refl, inl, inr,
  arith, ltb, ◌==◌, Bool-cases, length, All,
}
use tp_sist_op.Prelude.Int.{ℤ, pos, negsuc, IsInt}
use native.Mathlib.Nat.{pow-suc}
use tp_sist_op.Text.{digits, decimal, print_int}
use tp_sist_op.Text.Scan.{push, split_words, tokens}

abbrev pub NoBlank : List ℕ → Type 0
NoBlank s = All (λ c. (c == b' ') ≡ false) s

split_words-append : (w s : List ℕ) → NoBlank w → split_words (w ++ b' ' ∷ s) ≡ (w, tokens s)
unfolding split_words tokens
split_words-append [] s h = refl
split_words-append (c ∷ w) s h = rw (h.0, split_words-append w s h.1) refl

split_words-NoBlank : (w : List ℕ) → NoBlank w → split_words w ≡ (w, [])
unfolding split_words
split_words-NoBlank [] h = refl
split_words-NoBlank (c ∷ w) h = rw (h.0, split_words-NoBlank w h.1) refl

-- The first token of a text, and the others.
pub tokens-append :
    (c : ℕ) (w s : List ℕ) → NoBlank (c ∷ w) → tokens ((c ∷ w) ++ b' ' ∷ s) ≡ (c ∷ w) ∷ tokens s
tokens-append c w s h = unfold tokens push in rw (split_words-append (c ∷ w) s h) refl

pub tokens-NoBlank : (c : ℕ) (w : List ℕ) → NoBlank (c ∷ w) → tokens (c ∷ w) ≡ (c ∷ w) ∷ []
tokens-NoBlank c w h = unfold tokens push in rw (split_words-NoBlank (c ∷ w) h) refl

digits-NoBlank : (fuel n : ℕ) (acc : List ℕ) → NoBlank acc → NoBlank (digits fuel n acc)
unfolding digits
digits-NoBlank zero n acc h = h
digits-NoBlank (suc fuel) n acc h =
    let k : (n % 10 + b'0' == b' ') ≡ false = ground arith in
    elim (Bool-cases (ltb n 10)) [
      | inl small ↦ rw small (k, h)
      | inr large ↦ rw large (digits-NoBlank fuel (n / 10) _ (k, h))
    ]

pub print_int-NoBlank : (a : ℤ) → NoBlank (print_int a)
unfolding print_int decimal
print_int-NoBlank (pos n) = digits-NoBlank (suc n) n [] tt
print_int-NoBlank (negsuc n) = (refl, digits-NoBlank (suc (suc n)) (suc n) [] tt)

power_tenth : (k n : ℕ) → n < 10 ^ suc (suc k) → n / 10 < 10 ^ suc k
power_tenth k n h = omega (arith, pow-suc 10 (suc k))

-- A number below 10 ^ k has at most k digits.
digits-length :
    (k fuel n : ℕ) (acc : List ℕ) → n < 10 ^ suc k → length (digits fuel n acc) ≤ suc k + length acc
unfolding digits
digits-length k zero n acc h = omega arith
digits-length zero (suc fuel) n acc h =
    let small : ltb n 10 ≡ true = ground arith in rw small (omega arith)
digits-length (suc k) (suc fuel) n acc h = elim (Bool-cases (ltb n 10)) [
  | inl small ↦ rw small (omega arith)
  | inr large ↦
      rw large
        (omega (arith, digits-length k fuel (n / 10) ((n % 10 + b'0') ∷ acc) (power_tenth k n h)))
]

pub print_int-length : (a : ℤ) → IsInt a → length (print_int a) ≤ 11
unfolding print_int decimal
print_int-length (pos n) h = omega (arith, digits-length 9 (suc n) n [] (omega arith))
print_int-length (negsuc n) h =
    omega (arith, digits-length 9 (suc (suc n)) (suc n) [] (omega arith))
