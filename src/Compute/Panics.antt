-- ===== src/Compute/Panics.antt =====
-- The errors of compute.rs that are panics in the source, and where none of them can come from.
use ex_arrow.Prelude.{
  ◌≡◌, refl, Bool, true, false, Option, none, some, if◌then◌else◌, Result, ok, err, ◌>>=◌, ok_or,
  map_err, when_some, subst,
}
use ex_arrow.Beam.{Text}
use ex_arrow.Compute.{Error, improper_list, index_panic, unreachable_op, kernel}

abbrev pub is_panic : {F : Type 0} → Error F → Bool
is_panic index_panic = true
is_panic (unreachable_op op) = true
is_panic improper_list = true
is_panic e = false

-- No failure of a result is a panic.
pub record Safe {F A : Type 0} (r : Result (Error F) A) : Type 0 where
  pub at : (e : Error F) → r ≡ err e → is_panic e ≡ false

same-err : {E A : Type 0} {d e : E} → ◌≡◌ {A = Result E A} (err d) (err e) → d ≡ e
same-err h = cc

module _ {F A : Type 0} where
  pub Safe-ok : (a : A) → Safe {F = F} (ok a)
  Safe-ok a = record { at = λ e h. cc }

  pub Safe-err : (d : Error F) → is_panic d ≡ false → Safe {A = A} (err d)
  Safe-err d safe = record { at = λ e h. subst (λ t. is_panic t ≡ false) (same-err h) safe }

  pub Safe-if : (b : Bool) {m n : Result (Error F) A} → Safe m → Safe n → Safe (if b then m else n)
  Safe-if true hm hn = hm
  Safe-if false hm hn = hn

  pub Safe-ok_or : (o : Option A) (d : Error F) → is_panic d ≡ false → Safe (ok_or o d)
  Safe-ok_or none d safe = Safe-err d safe
  Safe-ok_or (some a) d safe = Safe-ok a

  pub Safe-kernel : (r : Result Text A) → Safe {F = F} (map_err kernel r)
  Safe-kernel (ok a) = Safe-ok a
  Safe-kernel (err t) = Safe-err (kernel t) refl

module _ {F A B : Type 0} where
  pub Safe-bind :
      (m : Result (Error F) A) {f : A → Result (Error F) B}
      → Safe m
      → ((a : A) → m ≡ ok a → Safe (f a))
      → Safe (m >>= f)
  Safe-bind (ok a) hm hf = hf a refl
  Safe-bind (err d) hm hf = Safe-err d (hm.at d refl)

  pub Safe-when_some :
      (o : Option A) {f : A → Result (Error F) B} {rest : Result (Error F) B}
      → ((a : A) → Safe (f a))
      → Safe rest
      → Safe (when_some o f rest)
  Safe-when_some none hf hr = hr
  Safe-when_some (some a) hf hr = hf a

pub ruleset safe_rules =
    (Safe-ok, Safe-err, Safe-if, Safe-ok_or, Safe-kernel, Safe-bind, Safe-when_some)
