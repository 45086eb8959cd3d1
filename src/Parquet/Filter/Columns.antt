-- ===== src/Parquet/Filter/Columns.antt =====
-- The columns that a filter's predicate is given: `collect_filter_columns`.
use ex_arrow.Prelude.{
  ◌≡◌, refl, Bool, true, false, ◌||◌, ◌&&◌, not, List, [], ◌∷◌, ◌++◌, Bool-cases, inl, inr, arith,
}
use ex_arrow.Beam.{text_eq_sym, Text, text_eq}
use ex_arrow.Parquet.{FilterExpr, FilterExprs, eq, ne, gt, gte, lt, lte, and, or, nil, cons}
use ex_arrow.Parquet.Filter.{has_text, push_new, collect_filter_columns, collect_all}

abbrev mutual
  -- A comparison of the filter names the column.
  pub names : {F : Type 0} → FilterExpr F → Text → Bool
  names (eq col v) c = text_eq col c
  names (ne col v) c = text_eq col c
  names (gt col v) c = text_eq col c
  names (gte col v) c = text_eq col c
  names (lt col v) c = text_eq col c
  names (lte col v) c = text_eq col c
  names (and xs) c = one_names xs c
  names (or xs) c = one_names xs c

  pub one_names : {F : Type 0} → FilterExprs F → Text → Bool
  one_names nil c = false
  one_names (cons x xs) c = names x c || one_names xs c

-- No text stands twice.
abbrev pub is_unique : List Text → Bool
is_unique [] = true
is_unique (c ∷ cs) = not (has_text cs c) && is_unique cs

text_eq_trans : (s t u : Text) → text_eq s t ≡ true → text_eq t u ≡ true → text_eq s u ≡ true
text_eq_trans [] [] u h k = k
text_eq_trans [] (b ∷ t) u h k = cc
text_eq_trans (a ∷ s) [] u h k = cc
text_eq_trans (a ∷ s) (b ∷ t) [] h k = cc
text_eq_trans (a ∷ s) (b ∷ t) (c ∷ u) h k =
    let ih = text_eq_trans s t u (ground arith) (ground arith) in ground arith

has_text-append :
    (cs : List Text) (d c : Text) → has_text (cs ++ d ∷ []) c ≡ (has_text cs c || text_eq d c)
has_text-append [] d c = ground arith
has_text-append (b ∷ cs) d c = let ih = has_text-append cs d c in ground arith

has_text-eq :
    (cs : List Text) (d c : Text) → text_eq d c ≡ true → has_text cs d ≡ true → has_text cs c ≡ true
has_text-eq [] d c same h = cc
has_text-eq (b ∷ cs) d c same h = elim (Bool-cases (text_eq b d)) [
  | inl e ↦ let here = text_eq_trans b d c e same in rw here
  | inr e ↦ let ih = has_text-eq cs d c same (ground arith) in ground arith
]

has_text-push_new :
    (cs : List Text) (d c : Text) → has_text (push_new cs d) c ≡ (has_text cs c || text_eq d c)
unfolding push_new
has_text-push_new cs d c = elim (Bool-cases (has_text cs d)) [
  | inl e ↦ elim (Bool-cases (text_eq d c)) [
    | inl same ↦ let there = has_text-eq cs d c same e in ground arith
    | inr apart ↦ ground arith
  ]
  | inr e ↦ rw e (has_text-append cs d c)
]

is_unique-append :
    (cs : List Text) (d : Text)
    → is_unique cs ≡ true
    → has_text cs d ≡ false
    → is_unique (cs ++ d ∷ []) ≡ true
is_unique-append [] d h k = refl
is_unique-append (b ∷ cs) d h k =
    let ih = is_unique-append cs d (ground arith) (ground arith) in
    let last = has_text-append cs d b in let turned = text_eq_sym d b in ground arith

is_unique-push_new :
    (cs : List Text) (d : Text) → is_unique cs ≡ true → is_unique (push_new cs d) ≡ true
unfolding push_new
is_unique-push_new cs d h = elim (Bool-cases (has_text cs d)) [
  | inl e ↦ rw e h
  | inr e ↦ rw e (is_unique-append cs d h e)
]

module _ {F : Type 0} where
  mutual
    unfolding collect_filter_columns

    collects :
        (e : FilterExpr F) (out : List Text) (c : Text)
        → has_text (collect_filter_columns e out) c ≡ (has_text out c || names e c)
    collects (eq col v) out c = has_text-push_new out col c
    collects (ne col v) out c = has_text-push_new out col c
    collects (gt col v) out c = has_text-push_new out col c
    collects (gte col v) out c = has_text-push_new out col c
    collects (lt col v) out c = has_text-push_new out col c
    collects (lte col v) out c = has_text-push_new out col c
    collects (and xs) out c = collects_all xs out c
    collects (or xs) out c = collects_all xs out c

    collects_all :
        (xs : FilterExprs F) (out : List Text) (c : Text)
        → has_text (collect_all xs out) c ≡ (has_text out c || one_names xs c)
    collects_all nil out c = ground arith
    collects_all (cons x xs) out c =
        let first = collects x out c in
        let others = collects_all xs (collect_filter_columns x out) c in ground arith

    stays_unique :
        (e : FilterExpr F) (out : List Text)
        → is_unique out ≡ true
        → is_unique (collect_filter_columns e out) ≡ true
    stays_unique (eq col v) out h = is_unique-push_new out col h
    stays_unique (ne col v) out h = is_unique-push_new out col h
    stays_unique (gt col v) out h = is_unique-push_new out col h
    stays_unique (gte col v) out h = is_unique-push_new out col h
    stays_unique (lt col v) out h = is_unique-push_new out col h
    stays_unique (lte col v) out h = is_unique-push_new out col h
    stays_unique (and xs) out h = all_stay_unique xs out h
    stays_unique (or xs) out h = all_stay_unique xs out h

    all_stay_unique :
        (xs : FilterExprs F) (out : List Text)
        → is_unique out ≡ true
        → is_unique (collect_all xs out) ≡ true
    all_stay_unique nil out h = h
    all_stay_unique (cons x xs) out h =
        all_stay_unique xs (collect_filter_columns x out) (stays_unique x out h)

-- The columns that are read for a filter are exactly those that a comparison of it names, at any depth,
-- and none of them twice.
pub collect_filter_columns-names :
    {F : Type 0} (e : FilterExpr F) (c : Text)
    → (has_text (collect_filter_columns e []) c ≡ names e c)
      × (is_unique (collect_filter_columns e []) ≡ true)
collect_filter_columns-names e c = (collects e [] c, stays_unique e [] refl)
