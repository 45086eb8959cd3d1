-- ===== src/Beam.antt =====
-- The Elixir values that the NIFs are called with, and the `rustler` decoders that the NIFs read
-- them by. A value is its shape (atoms, integers, floats, binaries, tuples, lists; `other` for
-- pids, maps, references and the like). What `Term::decode::<T>()` answers is the library's, so
-- the decoders are a parameter, `Rustler`, and `RustlerLaws` states what its documentation says.
-- A `ListIterator` is decoded of any list, and panics at the end of one that is improper, once its
-- elements were given; a `Vec` is decoded by one.
-- A Rust `String` and an Elixir string are their UTF-8 bytes, `Text`.
use Prim.Native.Char.{code}
use text.Mathlib.Text.{◌==◌ as str_eq}
use text.Mathlib.TextEquality.{eq_iff}
use ex_arrow.Prelude.{
  ap, ◌∙◌, refl, arith, ℕ, ℤ, Bool, true, false, String, Option, none, some, List, ◌≡◌, ◌&&◌, ◌==◌,
  [], ◌∷◌, fits_i64, if◌then◌else◌,
}

abbrev pub Text : Type 0
Text = List ℕ

-- The bytes of an ASCII literal.
abbrev pub codes : String → Text
codes String.[] = []
codes (String.◌∷◌ c s) = code c ∷ codes s

-- `==` on texts.
abbrev pub text_eq : Text → Text → Bool
text_eq [] [] = true
text_eq (a ∷ s) (b ∷ t) = (a == b) && text_eq s t
text_eq _ _ = false

pub text_eq_refl : (s : Text) → text_eq s s ≡ true
text_eq_refl [] = refl
text_eq_refl (c ∷ s) = ground (arith, text_eq_refl s)

pub text_eq→≡ : (s t : Text) → text_eq s t ≡ true → s ≡ t
text_eq→≡ [] [] h = refl
text_eq→≡ [] (d ∷ t) h = cc
text_eq→≡ (c ∷ s) [] h = cc
text_eq→≡ (c ∷ s) (d ∷ t) h = ground (arith, text_eq→≡ s t)

pub text_eq_sym : (s t : Text) → text_eq s t ≡ text_eq t s
text_eq_sym [] [] = refl
text_eq_sym [] (d ∷ t) = refl
text_eq_sym (c ∷ s) [] = refl
text_eq_sym (c ∷ s) (d ∷ t) = ground (arith, text_eq_sym s t)

mutual
  pub data Term (F : Type 0) : Type 0 where
    atom : String → Term F
    int : ℤ → Term F
    float : F → Term F
    binary : Text → Term F
    tuple : Terms F → Term F
    list : Terms F → Term F
    -- A list that ends in a term that is no list: its first element, the others and that term.
    improper : Term F → Terms F → Term F → Term F
    other : Term F

  pub data Terms (F : Type 0) : Type 0 where
    nil : Terms F
    cons : Term F → Terms F → Terms F

-- No list in the term, at any depth, is improper.
abbrev mutual
  pub IsProper : {F : Type 0} → Term F → Type 0
  IsProper (tuple ts) = AllProper ts
  IsProper (list ts) = AllProper ts
  IsProper (improper t ts tail) = ⊥
  IsProper _ = Unit

  pub AllProper : {F : Type 0} → Terms F → Type 0
  AllProper nil = Unit
  AllProper (cons t ts) = IsProper t × AllProper ts

-- A list of strings, as it is sent.
abbrev pub binaries : {F : Type 0} → List Text → Terms F
binaries [] = nil
binaries (s ∷ ss) = cons (binary s) (binaries ss)

-- `term.decode::<Atom>()`, `::<bool>()`, `::<i64>()`, `::<f64>()`, `::<String>()`, `::<Binary>()`,
-- `::<Vec<String>>()`
pub record Rustler (F : Type 0) : Type 0 where
  pub atom_of : Term F → Option String
  pub bool_of : Term F → Option Bool
  pub i64_of : Term F → Option ℤ
  pub f64_of : Term F → Option F
  pub string_of : Term F → Option Text
  pub binary_of : Term F → Option Text
  pub strings_of : Term F → Option (List Text)
  pub is_utf8 : Text → Bool

pub record RustlerLaws {F : Type 0} (r : Rustler F) : Type 0 where
  pub atom_of-atom : (a : String) → r.atom_of (atom a) ≡ some a
  pub bool_of-true : r.bool_of (atom "true") ≡ some true
  pub bool_of-false : r.bool_of (atom "false") ≡ some false
  pub bool_of-int : (z : ℤ) → r.bool_of (int z) ≡ none
  pub bool_of-float : (f : F) → r.bool_of (float f) ≡ none
  pub bool_of-binary : (s : Text) → r.bool_of (binary s) ≡ none
  pub bool_of-tuple : (ts : Terms F) → r.bool_of (tuple ts) ≡ none
  pub i64_of-int : (z : ℤ) → r.i64_of (int z) ≡ (if fits_i64 z then some z else none)
  pub i64_of-fits : (t : Term F) (z : ℤ) → r.i64_of t ≡ some z → fits_i64 z ≡ true
  pub i64_of-float : (f : F) → r.i64_of (float f) ≡ none
  pub i64_of-binary : (s : Text) → r.i64_of (binary s) ≡ none
  pub i64_of-tuple : (ts : Terms F) → r.i64_of (tuple ts) ≡ none
  pub f64_of-float : (f : F) → r.f64_of (float f) ≡ some f
  pub f64_of-binary : (s : Text) → r.f64_of (binary s) ≡ none
  pub f64_of-tuple : (ts : Terms F) → r.f64_of (tuple ts) ≡ none
  pub string_of-binary :
      (s : Text) → r.string_of (binary s) ≡ (if r.is_utf8 s then some s else none)
  pub string_of-utf8 : (t : Term F) (s : Text) → r.string_of t ≡ some s → r.is_utf8 s ≡ true
  pub string_of-tuple : (ts : Terms F) → r.string_of (tuple ts) ≡ none
  pub string_of-list : (ts : Terms F) → r.string_of (list ts) ≡ none
  pub atom_of-eq-some : (t : Term F) (a : String) → r.atom_of t ≡ some a → t ≡ atom a
  pub atom_of-tuple : (ts : Terms F) → r.atom_of (tuple ts) ≡ none
  pub binary_of-binary : (s : Text) → r.binary_of (binary s) ≡ some s
  pub binary_of-eq-some : (t : Term F) (s : Text) → r.binary_of t ≡ some s → t ≡ binary s
  pub strings_of-eq-some :
      (t : Term F) (ss : List Text) → r.strings_of t ≡ some ss → t ≡ list (binaries ss)

-- A term that decodes to an atom of this name is that atom.
pub named :
    {F : Type 0} (r : Rustler F) (laws : RustlerLaws r) (t : Term F) (a name : String)
    → r.atom_of t ≡ some a
    → str_eq a name ≡ true
    → t ≡ atom name
named r laws t a name h e = laws.atom_of-eq-some t a h ∙ ap atom ((eq_iff a name).0 e)
