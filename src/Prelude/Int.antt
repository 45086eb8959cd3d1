-- ===== src/Prelude/Int.antt =====
-- Signed integers over the native numbers, with what the program does to an `i64`: range tests,
-- products with a positive constant, and Rust's `/` and `%`, which round towards zero.
use Prim.Native.Nat.{ℕ, zero, suc, ◌+◌, ◌*◌, ◌/◌, ◌%◌, ◌^◌, ◌≤◌, ◌<◌}
use mathlib.Core.Path.{◌≡◌, refl, sym, ap, ◌∙◌}
use mathlib.Core.Bool.{Bool, true, false}
use native.Mathlib.Omega.{arith}
use native.Mathlib.Nat.{mul_assoc, mul-zero, div-add-mod}
use ex_arrow.Prelude.Tests.{ltb, leb, ◌==◌}

-- `negsuc n` is -(n + 1).
pub data ℤ : Type 0 where
  pos : ℕ → ℤ
  negsuc : ℕ → ℤ

abbrev pub pos_part : ℤ → ℕ
pos_part (pos n) = n
pos_part (negsuc n) = 0

abbrev pub neg_part : ℤ → ℕ
neg_part (pos n) = 0
neg_part (negsuc n) = suc n

-- -n
abbrev pub neg_of : ℕ → ℤ
neg_of zero = pos 0
neg_of (suc n) = negsuc n

infix 50 ◌≤ℤ◌ ◌<ℤ◌
abbrev pub ◌≤ℤ◌ : ℤ → ℤ → Type 0
a ≤ℤ b = pos_part a + neg_part b ≤ pos_part b + neg_part a

abbrev pub ◌<ℤ◌ : ℤ → ℤ → Type 0
a <ℤ b = pos_part a + neg_part b < pos_part b + neg_part a

abbrev pub leb_ℤ : ℤ → ℤ → Bool
leb_ℤ a b = leb (pos_part a + neg_part b) (pos_part b + neg_part a)

abbrev pub ltb_ℤ : ℤ → ℤ → Bool
ltb_ℤ a b = ltb (pos_part a + neg_part b) (pos_part b + neg_part a)

abbrev pub eqb_ℤ : ℤ → ℤ → Bool
eqb_ℤ a b = pos_part a + neg_part b == pos_part b + neg_part a

pub eqb_ℤ→≡ : (a b : ℤ) → eqb_ℤ a b ≡ true → a ≡ b
eqb_ℤ→≡ (pos m) (pos n) h = ap pos (ground arith)
eqb_ℤ→≡ (pos m) (negsuc n) h = absurd (ground arith)
eqb_ℤ→≡ (negsuc m) (pos n) h = absurd (ground arith)
eqb_ℤ→≡ (negsuc m) (negsuc n) h = ap negsuc (ground arith)

-- A product with a constant that is not negative.
abbrev pub scale : ℕ → ℤ → ℤ
scale k (pos n) = pos (k * n)
scale k (negsuc n) = neg_of (k * suc n)

-- Rust's `z / k` and `z % k` for a positive `k`.
abbrev pub quot : ℤ → ℕ → ℤ
quot (pos n) k = pos (n / k)
quot (negsuc n) k = neg_of (suc n / k)

abbrev pub rem : ℤ → ℕ → ℤ
rem (pos n) k = pos (n % k)
rem (negsuc n) k = neg_of (suc n % k)

-- The values of a signed integer of which `half` are not negative, and of an unsigned one.
abbrev pub fits_signed : ℕ → ℤ → Bool
fits_signed half (pos n) = ltb n half
fits_signed half (negsuc n) = ltb n half

abbrev pub fits_unsigned : ℕ → ℤ → Bool
fits_unsigned size (pos n) = ltb n size
fits_unsigned size (negsuc n) = false

abbrev pub fits_i64 : ℤ → Bool
fits_i64 = fits_signed (2 ^ 63)

abbrev pub is_zero : ℤ → Bool
is_zero (pos zero) = true
is_zero _ = false

abbrev pub is_negative : ℤ → Bool
is_negative (pos n) = false
is_negative (negsuc n) = true

scale-neg_of : (k n : ℕ) → scale k (neg_of n) ≡ neg_of (k * n)
scale-neg_of k zero = rw mul-zero
scale-neg_of k (suc n) = refl

pub scale-scale : (j k : ℕ) (z : ℤ) → scale j (scale k z) ≡ scale (j * k) z
scale-scale j k (pos n) = ap pos (sym (mul_assoc j k n))
scale-scale j k (negsuc n) = scale-neg_of j (k * suc n) ∙ ap neg_of (sym (mul_assoc j k (suc n)))

is_zero-neg_of : (n : ℕ) → is_zero (neg_of n) ≡ true → n ≡ 0
is_zero-neg_of zero h = refl
is_zero-neg_of (suc n) h = cc

is_zero-pos : (n : ℕ) → is_zero (pos n) ≡ true → n ≡ 0
is_zero-pos zero h = refl
is_zero-pos (suc n) h = cc

mul-div_of_mod : (k n : ℕ) → n % k ≡ 0 → k * (n / k) ≡ n
mul-div_of_mod k n h = omega (arith, div-add-mod n k)

-- A division with no remainder is undone by the product.
pub scale-quot : (k : ℕ) (z : ℤ) → is_zero (rem z k) ≡ true → scale k (quot z k) ≡ z
scale-quot k (pos n) h = ap pos (mul-div_of_mod k n (is_zero-pos (n % k) h))
scale-quot k (negsuc n) h =
    scale-neg_of k (suc n / k) ∙ ap neg_of (mul-div_of_mod k (suc n) (is_zero-neg_of (suc n % k) h))
