-- ===== src/Prelude/Repeated.antt =====
-- A stateful function that is called again and again, for the streams of the NIFs.
use Prim.Native.Nat.{ℕ, zero, suc, ◌+◌}
use native.Mathlib.Omega.{arith}
use mathlib.Core.Path.{◌≡◌, refl, ap, ap₂, ◌∙◌}
use mathlib.Core.List.{List, [], ◌∷◌, ◌++◌, map}
use ex_arrow.Prelude.Lists.{length, replicate}

-- The answers of a number of calls in a row.
abbrev pub answers {ℓ κ} : {S : Type ℓ} {R : Type κ} → (S → R × S) → ℕ → S → List R
answers call zero s = []
answers call (suc n) s = (call s).0 ∷ answers call n (call s).1

-- A call that gives the items that its state has, one each time, and then `done`.
pub record Gives {ℓ κ μ ν} {S : Type ℓ} {R : Type κ} {Item : Type μ} (call : S → R × S)
    (reply : Item → R) (done : R) (Has : List Item → S → Type ν) : Type (ℓ ⊔ κ ⊔ μ ⊔ ν) where
  pub call-nil : (s : S) → Has [] s → ((call s).0 ≡ done) × Has [] (call s).1
  pub call-cons :
      (item : Item) (rest : List Item) (s : S)
      → Has (item ∷ rest) s
      → ((call s).0 ≡ reply item) × Has rest (call s).1

module _ {ℓ κ μ ν} {S : Type ℓ} {R : Type κ} {Item : Type μ} (call : S → R × S) (reply : Item → R)
    (done : R) (Has : List Item → S → Type ν) (gives : Gives call reply done Has) where
  answers-nil : (extra : ℕ) (s : S) → Has [] s → answers call extra s ≡ replicate extra done
  answers-nil zero s has = refl
  answers-nil (suc n) s has =
      let (said, after) = gives.call-nil s has in ap₂ ◌∷◌ said (answers-nil n (call s).1 after)

  pub answers-Gives :
      (items : List Item) (extra : ℕ) (s : S)
      → Has items s
      → answers call (length items + extra) s ≡ map reply items ++ replicate extra done
  answers-Gives [] extra s has =
      let count : 0 + extra ≡ extra = omega arith in
      ap (λ n. answers call n s) count ∙ answers-nil extra s has
  answers-Gives (item ∷ rest) extra s has =
      let count : suc (length rest) + extra ≡ suc (length rest + extra) = omega arith in
      let (said, after) = gives.call-cons item rest s has in
      ap (λ n. answers call n s) count ∙ ap₂ ◌∷◌ said (answers-Gives rest extra (call s).1 after)
