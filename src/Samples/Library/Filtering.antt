-- ===== src/Samples/Library/Filtering.antt =====
-- The rows that a filter of the tables keeps.
use ex_arrow.Prelude.{
  ℕ, zero, suc, Bool, true, false, Option, none, some, List, [], ◌∷◌, ◌≡◌, refl, ap, ap₂, ◌∙◌, map,
  ◌⊎◌, inl, inr,
}
use ex_arrow.Arrow.Laws.{keep_rows}
use ex_arrow.Samples.Tables.{
  Cell, Column, at, rows_of, head_cell, tail_of, tail_column, kept, filter_column,
}

at-keep_rows :
    {A : Type 0} (xs : List (Option A)) (bit : ℕ → Option Bool)
    → bit 0 ≡ some true
    → at (keep_rows xs bit) 0 ≡ at xs 0
at-keep_rows [] bit h = refl
at-keep_rows (x ∷ xs) bit h = rw h

tail_of-keep_rows :
    (xs : List Cell) (bit : ℕ → Option Bool)
    → bit 0 ≡ some true
    → tail_of (keep_rows xs bit) ≡ keep_rows (tail_of xs) (λ i. bit (suc i))
tail_of-keep_rows [] bit h = refl
tail_of-keep_rows (x ∷ xs) bit h = rw h

keep_rows-dropped :
    (xs : List Cell) (bit : ℕ → Option Bool)
    → (bit 0 ≡ some false) ⊎ (bit 0 ≡ none)
    → keep_rows xs bit ≡ keep_rows (tail_of xs) (λ i. bit (suc i))
keep_rows-dropped [] bit h = refl
keep_rows-dropped (x ∷ xs) bit (inl h) = rw h
keep_rows-dropped (x ∷ xs) bit (inr h) = rw h

heads-kept :
    (bit : ℕ → Option Bool) (cs : List Column)
    → bit 0 ≡ some true
    → map head_cell (map (filter_column bit) cs) ≡ map head_cell cs
heads-kept bit [] h = refl
heads-kept bit (c ∷ cs) h = ap₂ ◌∷◌ (at-keep_rows c.cells bit h) (heads-kept bit cs h)

tails-kept :
    (bit : ℕ → Option Bool) (cs : List Column)
    → bit 0 ≡ some true
    → map tail_column (map (filter_column bit) cs)
      ≡ map (filter_column (λ i. bit (suc i))) (map tail_column cs)
tails-kept bit [] h = refl
tails-kept bit (c ∷ cs) h =
    ap₂ ◌∷◌ (ap (λ xs. record c { cells = xs }) (tail_of-keep_rows c.cells bit h))
      (tails-kept bit cs h)

columns-dropped :
    (bit : ℕ → Option Bool) (cs : List Column)
    → (bit 0 ≡ some false) ⊎ (bit 0 ≡ none)
    → map (filter_column bit) cs ≡ map (filter_column (λ i. bit (suc i))) (map tail_column cs)
columns-dropped bit [] h = refl
columns-dropped bit (c ∷ cs) h =
    ap₂ ◌∷◌ (ap (λ xs. record c { cells = xs }) (keep_rows-dropped c.cells bit h))
      (columns-dropped bit cs h)

pub rows_of-kept :
    (n : ℕ) (bit : ℕ → Option Bool) (cs : List Column)
    → rows_of (kept n bit) (map (filter_column bit) cs) ≡ keep_rows (rows_of n cs) bit
rows_of-kept zero bit cs = refl
rows_of-kept (suc n) bit cs =
    let next : ℕ → Option Bool = λ i. bit (suc i) in
    let rest = rows_of-kept n next (map tail_column cs) in
    elim (bit_cases (bit 0)) [
      | inl h ↦ kept_row n bit cs h rest
      | inr h ↦ dropped_row n bit cs h rest
    ]
  where
    bit_cases : (b : Option Bool) → (b ≡ some true) ⊎ ((b ≡ some false) ⊎ (b ≡ none))
    bit_cases none = inr (inr refl)
    bit_cases (some true) = inl refl
    bit_cases (some false) = inr (inl refl)

    kept_row :
        (n : ℕ) (bit : ℕ → Option Bool) (cs : List Column)
        → bit 0 ≡ some true
        → rows_of
            (kept n (λ i. bit (suc i)))
            (map (filter_column (λ i. bit (suc i))) (map tail_column cs))
          ≡ keep_rows (rows_of n (map tail_column cs)) (λ i. bit (suc i))
        → rows_of (kept (suc n) bit) (map (filter_column bit) cs)
          ≡ keep_rows (rows_of (suc n) cs) bit
    kept_row n bit cs h rest = rw h (
        ap₂ ◌∷◌ (heads-kept bit cs h)
          (ap (rows_of (kept n (λ i. bit (suc i)))) (tails-kept bit cs h) ∙ rest))

    dropped_row :
        (n : ℕ) (bit : ℕ → Option Bool) (cs : List Column)
        → (bit 0 ≡ some false) ⊎ (bit 0 ≡ none)
        → rows_of
            (kept n (λ i. bit (suc i)))
            (map (filter_column (λ i. bit (suc i))) (map tail_column cs))
          ≡ keep_rows (rows_of n (map tail_column cs)) (λ i. bit (suc i))
        → rows_of (kept (suc n) bit) (map (filter_column bit) cs)
          ≡ keep_rows (rows_of (suc n) cs) bit
    dropped_row n bit cs (inl h) rest =
        rw h (ap (rows_of (kept n (λ i. bit (suc i)))) (columns-dropped bit cs (inl h)) ∙ rest)
    dropped_row n bit cs (inr h) rest =
        rw h (ap (rows_of (kept n (λ i. bit (suc i)))) (columns-dropped bit cs (inr h)) ∙ rest)
