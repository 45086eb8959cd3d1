-- ===== src/FlightSql/Errors/Quoted.antt =====
-- A text that is written as `{:?}` writes it is read as it was.
use mathlib.Core.List.{append_assoc}
use ex_arrow.Prelude.{
  ℕ, ◌≡◌, refl, ◌∙◌, ap, inl, inr, Bool, true, false, Bool-cases, some, [], ◌∷◌, ◌++◌, ◌==◌, ◌&&◌,
  ◌||◌, leb, not, if◌then◌else◌, arith,
}
use ex_arrow.Beam.{Text}
use ex_arrow.FlightSql.Errors.{unescaped, quoted}

-- What `{:?}` writes for a character of a text, for those that have no `\u` of their own.
abbrev pub escape_char : ℕ → Text
escape_char c =
    if c == b'"'
    then b'\\' ∷ b'"' ∷ []
    else if c == b'\\'
    then b'\\' ∷ b'\\' ∷ []
    else if c == 10
    then b'\\' ∷ b'n' ∷ []
    else if c == 9
    then b'\\' ∷ b't' ∷ []
    else if c == 13
    then b'\\' ∷ b'r' ∷ []
    else c ∷ []

abbrev pub escape_debug : Text → Text
escape_debug [] = []
escape_debug (c ∷ s) = escape_char c ++ escape_debug s

-- A character that is printed, a new line or a tab.
abbrev pub is_plain : ℕ → Bool
is_plain c = (leb 32 c && not (c == 127)) || (c == 9 || c == 10)

abbrev pub IsPlain : Text → Type 0
IsPlain [] = Unit
IsPlain (c ∷ s) = (is_plain c ≡ true) × IsPlain s

quoted_char :
    (c : ℕ) (tail t : Text)
    → is_plain c ≡ true
    → quoted tail ≡ some t
    → quoted (escape_char c ++ tail) ≡ some (c ∷ t)
unfolding quoted unescaped
quoted_char c tail t plain reads = elim (Bool-cases (c == b'"')) [
  | inl e ↦ let is : c ≡ b'"' = ground arith in rw (is, reads) refl
  | inr e₁ ↦ elim (Bool-cases (c == b'\\')) [
    | inl e ↦ let is : c ≡ b'\\' = ground arith in rw (is, reads) refl
    | inr e₂ ↦ elim (Bool-cases (c == 10)) [
      | inl e ↦ let is : c ≡ 10 = ground arith in rw (is, reads) refl
      | inr e₃ ↦ elim (Bool-cases (c == 9)) [
        | inl e ↦ let is : c ≡ 9 = ground arith in rw (is, reads) refl
        | inr e₄ ↦
            let e₅ : c == 13 ≡ false = ground arith in
            rw (e₁, e₂, e₃, e₄, e₅) (rw (e₁, e₂, reads) refl)
      ]
    ]
  ]
]

pub quoted-escape_debug :
    (msg rest : Text) → IsPlain msg → quoted (escape_debug msg ++ (b'"' ∷ rest)) ≡ some msg
unfolding quoted
quoted-escape_debug [] rest h = refl
quoted-escape_debug (c ∷ msg) rest h =
    ap quoted (append_assoc (escape_char c) (escape_debug msg) (b'"' ∷ rest))
    ∙ quoted_char c (escape_debug msg ++ (b'"' ∷ rest)) msg h.0 (quoted-escape_debug msg rest h.1)
