-- ===== src/Prelude/Int.antt =====
-- Signed integers over the native numbers, and C's 32-bit `int`: the value of an operation that
-- leaves the range wraps to two's complement, as the machine does (C leaves it undefined).
use tp_sist_op.Prelude.Tests.{ltb, leb, ◌==◌, if◌then◌else◌}
use Prim.Native.Nat.{ℕ, suc, ◌+◌, ◌-◌, ◌*◌, ◌%◌, ◌^◌, ◌≤◌, ◌<◌}
use mathlib.Core.Path.{◌≡◌, refl, ap}
use mathlib.Core.Logic.{◌↔◌}
use mathlib.Core.Bool.{Bool, true, false}
use native.Mathlib.Omega.{arith}

-- `negsuc n` is -(n + 1).
pub data ℤ : Type 0 where
  pos : ℕ → ℤ
  negsuc : ℕ → ℤ

abbrev pub pos_part : ℤ → ℕ
pos_part (pos n) = n
pos_part (negsuc n) = 0

abbrev pub neg_part : ℤ → ℕ
neg_part (pos n) = 0
neg_part (negsuc n) = suc n

-- a - b, as an integer.
abbrev pub sub_ℕ : ℕ → ℕ → ℤ
sub_ℕ a b = if leb b a then pos (a - b) else negsuc (b - a - 1)

infixl 65 ◌+ℤ◌ ◌-ℤ◌
infix 50 ◌≤ℤ◌ ◌<ℤ◌
unfoldable pub ◌+ℤ◌ : ℤ → ℤ → ℤ
a +ℤ b = sub_ℕ (pos_part a + pos_part b) (neg_part a + neg_part b)

unfoldable pub ◌-ℤ◌ : ℤ → ℤ → ℤ
a -ℤ b = sub_ℕ (pos_part a + neg_part b) (neg_part a + pos_part b)

abbrev pub ◌≤ℤ◌ : ℤ → ℤ → Type 0
a ≤ℤ b = pos_part a + neg_part b ≤ pos_part b + neg_part a

abbrev pub ◌<ℤ◌ : ℤ → ℤ → Type 0
a <ℤ b = pos_part a + neg_part b < pos_part b + neg_part a

abbrev pub leb_ℤ : ℤ → ℤ → Bool
leb_ℤ a b = leb (pos_part a + neg_part b) (pos_part b + neg_part a)

abbrev pub ltb_ℤ : ℤ → ℤ → Bool
ltb_ℤ a b = ltb (pos_part a + neg_part b) (pos_part b + neg_part a)

abbrev pub eqb_ℤ : ℤ → ℤ → Bool
eqb_ℤ a b = pos_part a + neg_part b == pos_part b + neg_part a

pub +ℤ_parts :
    (a b : ℤ)
    → pos_part (a +ℤ b) + neg_part a + neg_part b ≡ neg_part (a +ℤ b) + pos_part a + pos_part b
unfolding ◌+ℤ◌
+ℤ_parts a b = ground arith

pub -ℤ_parts :
    (a b : ℤ)
    → pos_part (a -ℤ b) + neg_part a + pos_part b ≡ neg_part (a -ℤ b) + pos_part a + neg_part b
unfolding ◌-ℤ◌
-ℤ_parts a b = ground arith

pub eq_of_parts : (a b : ℤ) → pos_part a + neg_part b ≡ pos_part b + neg_part a → a ≡ b
eq_of_parts a b h = ground arith

-- An integer is non-negative or negative, never both.
pub parts_apart : (a : ℤ) → pos_part a * neg_part a ≡ 0
parts_apart (pos n) = omega arith
parts_apart (negsuc n) = omega arith

pub eqb_ℤ_iff : (a b : ℤ) → (eqb_ℤ a b ≡ true) ↔ (a ≡ b)
eqb_ℤ_iff a b = ground (arith, eq_of_parts a b)

pub eqb_ℤ_refl : (a : ℤ) → eqb_ℤ a a ≡ true
eqb_ℤ_refl a = (eqb_ℤ_iff a a).1 refl

pub leb_ℤ→le : (a b : ℤ) → leb_ℤ a b ≡ true → a ≤ℤ b
leb_ℤ→le a b h = ground arith

pub leb_ℤ→lt : (a b : ℤ) → leb_ℤ a b ≡ false → b <ℤ a
leb_ℤ→lt a b h = ground arith

pub ruleset int_laws = (arith, +ℤ_parts, -ℤ_parts, eq_of_parts)

pub +ℤ_assoc : (a b c : ℤ) → a +ℤ b +ℤ c ≡ a +ℤ (b +ℤ c)
+ℤ_assoc a b c = omega int_laws

pub +ℤ_comm : (a b : ℤ) → a +ℤ b ≡ b +ℤ a
+ℤ_comm a b = omega int_laws

pub +ℤ_zero : (a : ℤ) → a +ℤ pos 0 ≡ a
+ℤ_zero a = omega int_laws

pub zero_+ℤ : (a : ℤ) → pos 0 +ℤ a ≡ a
zero_+ℤ a = omega int_laws

pub +ℤ-sub_cancel : (a b : ℤ) → a +ℤ b -ℤ a ≡ b
+ℤ-sub_cancel a b = omega int_laws

pub +ℤ_left_comm : (a b c : ℤ) → a +ℤ (b +ℤ c) ≡ b +ℤ (a +ℤ c)
+ℤ_left_comm a b c = omega int_laws

-- What is paid in two parts is paid.
pub pay_twice : (a p w d r : ℤ) → r ≡ a -ℤ p → r ≡ w +ℤ d → a ≡ p +ℤ w +ℤ d
pay_twice a p w d r e f =
    omega (int_laws, ap pos_part e, ap neg_part e, ap pos_part f, ap neg_part f)

-- The values of a 32-bit `int`.
abbrev pub IsInt : ℤ → Type 0
IsInt a = (pos_part a < 2 ^ 31) × (neg_part a ≤ 2 ^ 31)

-- The bit pattern of the value modulo 2 ^ 32, and the `int` that has it.
unfoldable pub wrap : ℤ → ℤ
wrap a =
    let bits = (pos_part a + (2 ^ 32 - 1) * neg_part a) % 2 ^ 32 in
    if ltb bits (2 ^ 31) then pos bits else negsuc (2 ^ 32 - bits - 1)

unfoldable pub add_int : ℤ → ℤ → ℤ
unfolding wrap ◌+ℤ◌
add_int a b = wrap (a +ℤ b)

unfoldable pub sub_int : ℤ → ℤ → ℤ
unfolding wrap ◌-ℤ◌
sub_int a b = wrap (a -ℤ b)

pub wrap_exact : (a : ℤ) → IsInt a → wrap a ≡ a
unfolding wrap
wrap_exact (pos n) h = ground arith
wrap_exact (negsuc n) h = ground arith

pub wrap-IsInt : (a : ℤ) → IsInt (wrap a)
unfolding wrap
wrap-IsInt a = ground arith

pub add_int_exact : (a b : ℤ) → IsInt (a +ℤ b) → add_int a b ≡ a +ℤ b
unfolding add_int
add_int_exact a b h = wrap_exact (a +ℤ b) h

pub sub_int_exact : (a b : ℤ) → IsInt (a -ℤ b) → sub_int a b ≡ a -ℤ b
unfolding sub_int
sub_int_exact a b h = wrap_exact (a -ℤ b) h

-- A sum of two non-negative values past the range comes out negative.
pub add_int_wraps :
    (a b : ℤ)
    → neg_part a ≡ 0
    → neg_part b ≡ 0
    → pos_part a < 2 ^ 31
    → pos_part b < 2 ^ 31
    → 2 ^ 31 ≤ pos_part a + pos_part b
    → add_int a b <ℤ pos 0
unfolding add_int
add_int_wraps (pos n) (pos k) h i u v over = ground arith
add_int_wraps (pos n) (negsuc k) h i u v over = absurd (omega arith)
add_int_wraps (negsuc n) b h i u v over = absurd (omega arith)

-- A quantity of a resource: not negative, and below 2 ^ 30, so that two of them add up to an `int`.
abbrev pub IsQuantity : ℤ → Type 0
IsQuantity a = (pos_part a < 2 ^ 30) × (neg_part a ≡ 0)
