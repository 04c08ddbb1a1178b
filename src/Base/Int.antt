-- ===== src/Base/Int.antt =====
-- Signed integers over the native numbers: amounts of money in ten-thousandths, the scale of the
-- NUMERIC(20, 4) columns.
use Prim.Native.Nat.{ℕ, suc, ◌+◌, ◌-◌, ◌≤◌, compare, Ordering}
use mathlib.Core.Path.{◌≡◌, refl}
use mathlib.Core.Bool.{Bool, true, false, cond}
use native.Mathlib.Omega.{arith}

-- `negsuc n` is -(n + 1).
pub data ℤ : Type 0 where
  pos : ℕ → ℤ
  negsuc : ℕ → ℤ

abbrev pub pos_part : ℤ → ℕ
pos_part (pos n) = n
pos_part (negsuc n) = 0

abbrev pub neg_part : ℤ → ℕ
neg_part (pos n) = 0
neg_part (negsuc n) = suc n

abbrev lt : ℕ → ℕ → Bool
lt a b = elim (compare a b) [ Ordering.lt ↦ true | _ ↦ false ]

abbrev pub sub_ℕ : ℕ → ℕ → ℤ
sub_ℕ a b = cond (lt a b) (negsuc (b - a - 1)) (pos (a - b))

infixl 65 ◌+ℤ◌ ◌-ℤ◌
infix 50 ◌≤ℤ◌ ◌<ℤ◌
unfoldable pub ◌+ℤ◌ : ℤ → ℤ → ℤ
a +ℤ b = sub_ℕ (pos_part a + pos_part b) (neg_part a + neg_part b)

unfoldable pub ◌-ℤ◌ : ℤ → ℤ → ℤ
a -ℤ b = sub_ℕ (pos_part a + neg_part b) (neg_part a + pos_part b)

abbrev pub ◌≤ℤ◌ : ℤ → ℤ → Type 0
a ≤ℤ b = pos_part a + neg_part b ≤ pos_part b + neg_part a

abbrev pub ◌<ℤ◌ : ℤ → ℤ → Type 0
a <ℤ b = suc (pos_part a + neg_part b) ≤ pos_part b + neg_part a

abbrev pub leb_ℤ : ℤ → ℤ → Bool
leb_ℤ a b = cond (lt (pos_part b + neg_part a) (pos_part a + neg_part b)) false true

abbrev pub ltb_ℤ : ℤ → ℤ → Bool
ltb_ℤ a b = lt (pos_part a + neg_part b) (pos_part b + neg_part a)

pub +ℤ_parts :
    (a b : ℤ)
    → pos_part (a +ℤ b) + neg_part a + neg_part b ≡ neg_part (a +ℤ b) + pos_part a + pos_part b
unfolding ◌+ℤ◌
+ℤ_parts a b = ground arith

pub -ℤ_parts :
    (a b : ℤ)
    → pos_part (a -ℤ b) + neg_part a + pos_part b ≡ neg_part (a -ℤ b) + pos_part a + neg_part b
unfolding ◌-ℤ◌
-ℤ_parts a b = ground arith

pub eq_of_parts : (a b : ℤ) → pos_part a + neg_part b ≡ pos_part b + neg_part a → a ≡ b
eq_of_parts a b h = ground arith

-- What a failed test of order says.
pub le_of_ltb_false : (a b : ℤ) → ltb_ℤ a b ≡ false → b ≤ℤ a
le_of_ltb_false a b h = ground arith

pub ruleset int_laws = (arith, +ℤ_parts, -ℤ_parts, eq_of_parts)

-- A debit and the credit of the same amount add nothing.
pub cancel_legs : (a b : ℤ) → a +ℤ ((pos 0 -ℤ a) +ℤ b) ≡ b
cancel_legs a b = omega int_laws

-- An equation of integers in the form that `omega` reads.
pub parts_of_eq : {a b : ℤ} → a ≡ b → pos_part a + neg_part b ≡ pos_part b + neg_part a
parts_of_eq {a} {b} h = rw h refl

-- Two changes of one total that cancel.
pub total_moved :
    (b₀ b₁ b₂ s d x : ℤ) → b₁ +ℤ s ≡ b₀ +ℤ (s -ℤ x) → b₂ +ℤ d ≡ b₁ +ℤ (d +ℤ x) → b₂ ≡ b₀
total_moved b₀ b₁ b₂ s d x h k = omega (int_laws, parts_of_eq h, parts_of_eq k)

-- A balance that agrees with its entries does so after a debit and after a credit.
pub debit_reconciles : (b o sum x : ℤ) → b ≡ o +ℤ sum → b -ℤ x ≡ o +ℤ ((pos 0 -ℤ x) +ℤ sum)
debit_reconciles b o sum x h = omega (int_laws, parts_of_eq h)

pub credit_reconciles : (b o sum x : ℤ) → b ≡ o +ℤ sum → b +ℤ x ≡ o +ℤ (x +ℤ sum)
credit_reconciles b o sum x h = omega (int_laws, parts_of_eq h)

pub sub_nonneg : (b x : ℤ) → x ≤ℤ b → pos 0 ≤ℤ b -ℤ x
sub_nonneg b x h = omega int_laws

pub add_nonneg : (b x : ℤ) → pos 0 ≤ℤ b → pos 0 <ℤ x → pos 0 ≤ℤ b +ℤ x
add_nonneg b x h k = omega int_laws
