-- ===== src/Prelude/Fallible.antt =====
-- Rust's `Result`, with the `?` operator as bind.
use mathlib.Core.Path.{◌≡◌, refl, subst}
use mathlib.Core.Bool.{Bool, true, false}
use mathlib.Core.Option.{Option, none, some}
use mathlib.Core.List.{List, [], ◌∷◌}
use ex_arrow.Prelude.Tests.{if◌then◌else◌}

pub data Result {ε α} (Err : Type ε) (Val : Type α) : Type (ε ⊔ α) where
  err : Err → Result Err Val
  ok : Val → Result Err Val

module _ {ε} {Err : Type ε} where
  -- `option.ok_or(e)?`
  abbrev pub ok_or {α} : {Val : Type α} → Option Val → Err → Result Err Val
  ok_or none why = err why
  ok_or (some v) why = ok v

  -- `if !test { return Err(e); }`
  abbrev pub ensure : Bool → Err → Result Err (Unit {0})
  ensure false why = err why
  ensure true why = ok tt

  -- The `?` operator.
  infixl 5 ◌>>=◌ ◌>>◌
  abbrev pub ◌>>=◌ {α β} :
      {Val : Type α} {Next : Type β} → Result Err Val → (Val → Result Err Next) → Result Err Next
  err why >>= next = err why
  ok v >>= next = next v

  abbrev pub ◌>>◌ {β} : {Next : Type β} → Result Err (Unit {0}) → Result Err Next → Result Err Next
  check >> next = check >>= (λ done. next)

-- `if let Ok(a) = answer { return then(a) }`, before the lines that follow it.
abbrev pub when_some {ℓ κ} : {A : Type ℓ} {B : Type κ} → Option A → (A → B) → B → B
when_some (some a) f rest = f a
when_some none f rest = rest

-- `result.ok()`
abbrev pub to_option {ε α} : {Err : Type ε} {Val : Type α} → Result Err Val → Option Val
to_option (ok v) = some v
to_option (err why) = none

-- `result.map_err(f)`
abbrev pub map_err {ℓ κ μ} :
    {E : Type ℓ} {E' : Type κ} {A : Type μ} → (E → E') → Result E A → Result E' A
map_err f (ok a) = ok a
map_err f (err e) = err (f e)

-- `iterator.collect::<Result<Vec<_>, _>>()`, and `stream.try_collect()`
abbrev pub try_collect {ε α} :
    {Err : Type ε} {Val : Type α} → List (Result Err Val) → Result Err (List Val)
try_collect [] = ok []
try_collect (err e ∷ rest) = err e
try_collect (ok v ∷ rest) = do vs ← try_collect rest; ok (v ∷ vs)

-- A chain that succeeds went through a success of its first part.
pub >>=-eq-ok {ε α β} :
    {Err : Type ε} {Val : Type α} {Next : Type β} (first : Result Err Val)
    (next : Val → Result Err Next) {out : Next}
    → (first >>= next) ≡ ok out
    → (v : Val) × (first ≡ ok v) × (next v ≡ ok out)
>>=-eq-ok (err why) next done = cc
>>=-eq-ok (ok v) next done = (v, refl, done)

-- What every successful result satisfies, with a rule for each way to build a result.
pub record Yields {ℓ κ μ} {E : Type ℓ} {A : Type κ} (P : A → Type μ) (r : Result E A)
    : Type (ℓ ⊔ κ ⊔ μ) where
  pub at : (a : A) → r ≡ ok a → P a

module _ {ℓ κ μ} {E : Type ℓ} {A : Type κ} {P : A → Type μ} where
  pub Yields-ok : (a : A) → P a → Yields {E = E} P (ok a)
  Yields-ok a h = record { at = λ b e. subst P (cc) h }

  pub Yields-err : (e : E) → Yields P (err e)
  Yields-err e = record { at = λ b h. cc }

  pub Yields-if :
      (b : Bool) {m n : Result E A}
      → (b ≡ true → Yields P m)
      → (b ≡ false → Yields P n)
      → Yields P (if b then m else n)
  Yields-if true km kn = km refl
  Yields-if false km kn = kn refl

  pub Yields-ok_or : (o : Option A) (e : E) → ((a : A) → o ≡ some a → P a) → Yields P (ok_or o e)
  Yields-ok_or none e h = Yields-err e
  Yields-ok_or (some a) e h = Yields-ok a (h a refl)

module _ {ℓ κ μ ν} {E : Type ℓ} {A : Type κ} {B : Type ν} {Q : B → Type μ} where
  pub Yields-bind :
      (m : Result E A) {f : A → Result E B}
      → ((a : A) → m ≡ ok a → Yields Q (f a))
      → Yields Q (m >>= f)
  Yields-bind (ok a) h = h a refl
  Yields-bind (err e) h = Yields-err e

  pub Yields-when_some :
      (o : Option A) {f : A → Result E B} {rest : Result E B}
      → ((a : A) → o ≡ some a → Yields Q (f a))
      → Yields Q rest
      → Yields Q (when_some o f rest)
  Yields-when_some none h k = k
  Yields-when_some (some a) h k = h a refl

pub ruleset yields_rules =
    (Yields-ok, Yields-err, Yields-if, Yields-ok_or, Yields-bind, Yields-when_some)

pub ok_or-eq-ok {ℓ κ} :
    {E : Type ℓ} {A : Type κ} (o : Option A) (e : E) {a : A} → ok_or o e ≡ ok a → o ≡ some a
ok_or-eq-ok none e h = cc
ok_or-eq-ok (some a) e h = cc

pub map_err-eq-ok {ε ε' α} :
    {Err : Type ε} {Err' : Type ε'} {Val : Type α} (f : Err → Err') (r : Result Err Val) (v : Val)
    → map_err f r ≡ ok v
    → r ≡ ok v
map_err-eq-ok f (ok w) v h = cc
map_err-eq-ok f (err why) v h = cc
