-- ===== src/Parquet/Prune/Order.antt =====
-- The order of the kernels' comparisons, and what a comparison says of a range that holds the value.

use ex_arrow.Prelude.{
  ℕ, ℤ, Bool, true, false, not, ◌&&◌, ◌||◌, ◌≡◌, refl, [], ◌∷◌, ltb, ◌==◌, ltb_ℤ, leb_ℤ, arith,
}
use ex_arrow.Beam.{Text}
use ex_arrow.Arrow.{Floats, Native, bool_value, int_value, f32_value, f64_value, utf8_value}
use ex_arrow.Arrow.Kernels.{Cmp}
use ex_arrow.Parquet.Prune.{ltb_text, leb_text, i64_of_bool}

abbrev pub order_cmp : {A : Type 0} → (lt le : A → A → Bool) → Cmp → A → A → Bool
order_cmp lt le Cmp.eq a b = le a b && le b a
order_cmp lt le Cmp.neq a b = not (le a b && le b a)
order_cmp lt le Cmp.gt a b = lt b a
order_cmp lt le Cmp.gt_eq a b = le b a
order_cmp lt le Cmp.lt a b = lt a b
order_cmp lt le Cmp.lt_eq a b = le a b

-- The test of each `*_range_may_match`.
abbrev pub range_cmp : {A : Type 0} → (lt le : A → A → Bool) → Cmp → (min max val : A) → Bool
range_cmp lt le Cmp.eq min max val = le min val && le val max
range_cmp lt le Cmp.neq min max val = true
range_cmp lt le Cmp.gt min max val = lt val max
range_cmp lt le Cmp.gt_eq min max val = le val max
range_cmp lt le Cmp.lt min max val = lt min val
range_cmp lt le Cmp.lt_eq min max val = le min val

pub record IsOrder {A : Type 0} (lt le : A → A → Bool) : Type 0 where
  pub le_trans : (a b c : A) → le a b ≡ true → le b c ≡ true → le a c ≡ true
  pub lt_le_trans : (a b c : A) → lt a b ≡ true → le b c ≡ true → lt a c ≡ true
  pub le_lt_trans : (a b c : A) → le a b ≡ true → lt b c ≡ true → lt a c ≡ true

and-true : (a b : Bool) → (a && b) ≡ true → (a ≡ true) × (b ≡ true)
and-true a b h = ground arith

-- A value in a range that compares with a literal makes the test of the range succeed.
pub range_cmp-order_cmp :
    {A : Type 0} (lt le : A → A → Bool) (c : Cmp) (min max x val : A)
    → IsOrder lt le
    → le min x ≡ true
    → le x max ≡ true
    → order_cmp lt le c x val ≡ true
    → range_cmp lt le c min max val ≡ true
range_cmp-order_cmp lt le Cmp.eq min max x val o lo hi h =
    let (below, above) = and-true (le x val) (le val x) h in
    rw (o.le_trans min x val lo below, o.le_trans val x max above hi)
range_cmp-order_cmp lt le Cmp.neq min max x val o lo hi h = refl
range_cmp-order_cmp lt le Cmp.gt min max x val o lo hi h = o.lt_le_trans val x max h hi
range_cmp-order_cmp lt le Cmp.gt_eq min max x val o lo hi h = o.le_trans val x max h hi
range_cmp-order_cmp lt le Cmp.lt min max x val o lo hi h = o.le_lt_trans min x val lo h
range_cmp-order_cmp lt le Cmp.lt_eq min max x val o lo hi h = o.le_trans min x val lo h

-- Literals that are at most each other have the same tests.
pub range_cmp-equal :
    {A : Type 0} (lt le : A → A → Bool) (c : Cmp) (min max a b : A)
    → IsOrder lt le
    → le a b ≡ true
    → le b a ≡ true
    → range_cmp lt le c min max a ≡ true
    → range_cmp lt le c min max b ≡ true
range_cmp-equal lt le Cmp.eq min max a b o ab ba h =
    let (below, above) = and-true (le min a) (le a max) h in
    rw (o.le_trans min a b below ab, o.le_trans b a max ba above)
range_cmp-equal lt le Cmp.neq min max a b o ab ba h = refl
range_cmp-equal lt le Cmp.gt min max a b o ab ba h = o.le_lt_trans b a max ba h
range_cmp-equal lt le Cmp.gt_eq min max a b o ab ba h = o.le_trans b a max ba h
range_cmp-equal lt le Cmp.lt min max a b o ab ba h = o.lt_le_trans min a b h ab
range_cmp-equal lt le Cmp.lt_eq min max a b o ab ba h = o.le_trans min a b h ab

pub ints-IsOrder : IsOrder ltb_ℤ leb_ℤ
ints-IsOrder = record {
  le_trans = λ a b c h k. ground arith;
  lt_le_trans = λ a b c h k. ground arith;
  le_lt_trans = λ a b c h k. ground arith;
}

-- One byte of the order of texts.
byte_trans :
    (a b c : ℕ) (p q r : Bool)
    → (p ≡ true → q ≡ true → r ≡ true)
    → (ltb a b || ((a == b) && p)) ≡ true
    → (ltb b c || ((b == c) && q)) ≡ true
    → (ltb a c || ((a == c) && r)) ≡ true
byte_trans a b c true true r f h k = let is = f refl refl in ground arith
byte_trans a b c true false r f h k = ground arith
byte_trans a b c false q r f h k = ground arith

leb_text_trans : (s t u : Text) → leb_text s t ≡ true → leb_text t u ≡ true → leb_text s u ≡ true
leb_text_trans [] t u h k = refl
leb_text_trans (a ∷ s) [] u h k = cc
leb_text_trans (a ∷ s) (b ∷ t) [] h k = cc
leb_text_trans (a ∷ s) (b ∷ t) (c ∷ u) h k =
    byte_trans a b c (leb_text s t) (leb_text t u) (leb_text s u) (leb_text_trans s t u) h k

ltb_leb_trans : (s t u : Text) → ltb_text s t ≡ true → leb_text t u ≡ true → ltb_text s u ≡ true
ltb_leb_trans s [] u h k = cc
ltb_leb_trans s (b ∷ t) [] h k = cc
ltb_leb_trans [] (b ∷ t) (c ∷ u) h k = refl
ltb_leb_trans (a ∷ s) (b ∷ t) (c ∷ u) h k =
    byte_trans a b c (ltb_text s t) (leb_text t u) (ltb_text s u) (ltb_leb_trans s t u) h k

leb_ltb_trans : (s t u : Text) → leb_text s t ≡ true → ltb_text t u ≡ true → ltb_text s u ≡ true
leb_ltb_trans s t [] h k = cc
leb_ltb_trans [] t (c ∷ u) h k = refl
leb_ltb_trans (a ∷ s) [] (c ∷ u) h k = cc
leb_ltb_trans (a ∷ s) (b ∷ t) (c ∷ u) h k =
    byte_trans a b c (leb_text s t) (ltb_text t u) (ltb_text s u) (leb_ltb_trans s t u) h k

pub texts-IsOrder : IsOrder ltb_text leb_text
texts-IsOrder = record {
  le_trans = leb_text_trans;
  lt_le_trans = ltb_leb_trans;
  le_lt_trans = leb_ltb_trans;
}

-- The documented order of the kernels: integers, booleans with false first, texts by their bytes.
-- The kernels' total order of floats is the IEEE order on `IsPlain` floats: those that are neither
-- NaN nor a negative zero. IEEE comparisons are transitive, and equal floats are at most each other.
pub record CmpLaws (fl : Floats) (native_cmp : Cmp → Native fl → Native fl → Bool) : Type 1 where
  pub IsPlain : fl.F64 → Type 0
  pub cmp-int :
      (c : Cmp) (a b : ℤ) → native_cmp c (int_value a) (int_value b) ≡ order_cmp ltb_ℤ leb_ℤ c a b
  pub cmp-bool :
      (c : Cmp) (a b : Bool)
      → native_cmp c (bool_value a) (bool_value b)
        ≡ order_cmp ltb_ℤ leb_ℤ c (i64_of_bool a) (i64_of_bool b)
  pub cmp-utf8 :
      (c : Cmp) (a b : Text)
      → native_cmp c (utf8_value a) (utf8_value b) ≡ order_cmp ltb_text leb_text c a b
  pub cmp-f64 :
      (c : Cmp) (a b : fl.F64)
      → IsPlain a
      → IsPlain b
      → native_cmp c (f64_value a) (f64_value b) ≡ order_cmp fl.lt_f64 fl.le_f64 c a b
  pub cmp-f32 :
      (c : Cmp) (a b : fl.F32)
      → IsPlain (fl.f64_of_f32 a)
      → IsPlain (fl.f64_of_f32 b)
      → native_cmp c (f32_value a) (f32_value b)
        ≡ order_cmp fl.lt_f64 fl.le_f64 c (fl.f64_of_f32 a) (fl.f64_of_f32 b)
  pub floats-IsOrder : IsOrder fl.lt_f64 fl.le_f64
  -- equal floats have the same comparisons
  pub eq_f64-le :
      (a b : fl.F64) → fl.eq_f64 a b ≡ true → (fl.le_f64 a b ≡ true) × (fl.le_f64 b a ≡ true)
