-- ===== src/Parquet/Filter/Combine.antt =====
-- The truths of two children, joined: grouping and units.
use ex_arrow.Prelude.{◌≡◌, refl, ap, Bool, Option, none, some}
use ex_arrow.Parquet.Rows.{combine}

pub combine_assoc :
    (f : Bool → Bool → Bool)
    → ((a b c : Bool) → f (f a b) c ≡ f a (f b c))
    → (p q r : Option (Option Bool)) → combine f (combine f p q) r ≡ combine f p (combine f q r)
combine_assoc f h none q r = refl
combine_assoc f h (some p) none r = refl
combine_assoc f h (some p) (some q) none = refl
combine_assoc f h (some none) (some q) (some r) = refl
combine_assoc f h (some (some a)) (some none) (some r) = refl
combine_assoc f h (some (some a)) (some (some b)) (some none) = refl
combine_assoc f h (some (some a)) (some (some b)) (some (some c)) =
    ap (λ t. some (some t)) (h a b c)

pub combine-unit :
    (f : Bool → Bool → Bool) (unit : Bool)
    → ((a : Bool) → f a unit ≡ a)
    → (p : Option (Option Bool)) → combine f p (some (some unit)) ≡ p
combine-unit f unit h none = refl
combine-unit f unit h (some none) = refl
combine-unit f unit h (some (some a)) = ap (λ t. some (some t)) (h a)
