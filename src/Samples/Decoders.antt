-- ===== src/Samples/Decoders.antt =====
-- Floats that are integers, and decoders of ASCII texts: values of `Floats` and `Rustler` at which
-- the documented laws hold.
use mathlib.Core.Option
use ex_arrow.Prelude.{
  List, ap, subst, Option-cases, inl, inr, ℤ, Bool, true, false, String, Option, none, some, [],
  ◌∷◌, ◌≡◌, refl, ◌&&◌, fits_i64, eqb_ℤ, ltb_ℤ, leb_ℤ, ltb, if◌then◌else◌, arith,
}
use text.Mathlib.Text.{◌==◌ as str_eq}
use ex_arrow.Beam.{
  Text, Term, Terms, Rustler, RustlerLaws, atom, int, float, binary, list, nil, cons, binaries,
}
use ex_arrow.Arrow.{Floats}

abbrev pub integral : Floats
integral = record {
  F64 = ℤ;
  F32 = ℤ;
  f64_of_i64 = λ z. z;
  i128_of_f64 = λ z. z;
  f32_of_i64 = λ z. z;
  i64_of_f32 = λ z. z;
  f32_of_f64 = λ z. z;
  f64_of_f32 = λ z. z;
  eq_f64 = eqb_ℤ;
  lt_f64 = ltb_ℤ;
  le_f64 = leb_ℤ;
}

abbrev atom_of : Term ℤ → Option String
atom_of (atom a) = some a
atom_of _ = none

abbrev bool_of : Term ℤ → Option Bool
bool_of (atom a) =
    if str_eq a "true" then some true else if str_eq a "false" then some false else none
bool_of _ = none

abbrev i64_of : Term ℤ → Option ℤ
i64_of (int z) = if fits_i64 z then some z else none
i64_of _ = none

abbrev f64_of : Term ℤ → Option ℤ
f64_of (float f) = some f
f64_of _ = none

abbrev pub is_ascii : Text → Bool
is_ascii [] = true
is_ascii (c ∷ s) = ltb c 128 && is_ascii s

abbrev string_of : Term ℤ → Option Text
string_of (binary s) = if is_ascii s then some s else none
string_of _ = none

abbrev binary_of : Term ℤ → Option Text
binary_of (binary s) = some s
binary_of _ = none

abbrev decode_all : Terms ℤ → Option (List Text)
decode_all nil = some []
decode_all (cons (binary s) ts) =
    if is_ascii s then Option.map (λ ss. s ∷ ss) (decode_all ts) else none
decode_all _ = none

abbrev strings_of : Term ℤ → Option (List Text)
strings_of (list ts) = decode_all ts
strings_of _ = none

abbrev pub ascii : Rustler ℤ
ascii = record {
  atom_of = atom_of;
  bool_of = bool_of;
  i64_of = i64_of;
  f64_of = f64_of;
  string_of = string_of;
  binary_of = binary_of;
  strings_of = strings_of;
  is_utf8 = is_ascii;
}

i64_of-fits : (t : Term ℤ) (z : ℤ) → i64_of t ≡ some z → fits_i64 z ≡ true
i64_of-fits (int y) z h = ground arith
i64_of-fits (atom a) z h = cc
i64_of-fits _ z h = cc

string_of-utf8 : (t : Term ℤ) (s : Text) → string_of t ≡ some s → is_ascii s ≡ true
string_of-utf8 (binary b) s h = ground arith
string_of-utf8 (atom a) s h = cc
string_of-utf8 _ s h = cc

atom_of-eq-some : (t : Term ℤ) (a : String) → atom_of t ≡ some a → t ≡ atom a
atom_of-eq-some (atom b) a h = cc
atom_of-eq-some (binary s) a h = cc
atom_of-eq-some _ a h = cc

binary_of-eq-some : (t : Term ℤ) (s : Text) → binary_of t ≡ some s → t ≡ binary s
binary_of-eq-some (binary b) s h = cc
binary_of-eq-some (atom a) s h = cc
binary_of-eq-some _ s h = cc

decode_all-eq-some : (ts : Terms ℤ) (ss : List Text) → decode_all ts ≡ some ss → ts ≡ binaries ss
decode_all-eq-some nil ss h = let empty : [] ≡ ss = cc in ap binaries empty
decode_all-eq-some (cons (binary s) ts) ss h = elim (Option-cases (decode_all ts)) [
  | inl e ↦ ground arith
  | inr (rest, e) ↦
      let tail : ts ≡ binaries rest = decode_all-eq-some ts rest e in
      let whole : s ∷ rest ≡ ss = ground arith in
      subst (λ l. cons (binary s) ts ≡ binaries l) whole (ap (cons (binary s)) tail)
]
decode_all-eq-some (cons (atom a) ts) ss h = cc
decode_all-eq-some (cons _ ts) ss h = cc

strings_of-eq-some : (t : Term ℤ) (ss : List Text) → strings_of t ≡ some ss → t ≡ list (binaries ss)
strings_of-eq-some (list ts) ss h = ap list (decode_all-eq-some ts ss h)
strings_of-eq-some (atom a) ss h = cc
strings_of-eq-some _ ss h = cc

pub ascii_laws : RustlerLaws ascii
ascii_laws = record {
  atom_of-atom = λ a. refl;
  bool_of-true = refl;
  bool_of-false = refl;
  bool_of-int = λ z. refl;
  bool_of-float = λ f. refl;
  bool_of-binary = λ s. refl;
  bool_of-tuple = λ ts. refl;
  i64_of-int = λ z. refl;
  i64_of-fits = i64_of-fits;
  i64_of-float = λ f. refl;
  i64_of-binary = λ s. refl;
  i64_of-tuple = λ ts. refl;
  f64_of-float = λ f. refl;
  f64_of-binary = λ s. refl;
  f64_of-tuple = λ ts. refl;
  string_of-binary = λ s. refl;
  string_of-utf8 = string_of-utf8;
  string_of-tuple = λ ts. refl;
  string_of-list = λ ts. refl;
  atom_of-eq-some = atom_of-eq-some;
  atom_of-tuple = λ ts. refl;
  binary_of-binary = λ s. refl;
  binary_of-eq-some = binary_of-eq-some;
  strings_of-eq-some = strings_of-eq-some;
}
