-- ===== src/Parquet/Plan/Kept.antt =====
-- Which row groups a reader is told to read.
use ex_arrow.Prelude.{
  ℕ, zero, suc, ◌+◌, ◌-◌, ◌≤◌, ◌<◌, ◌≡◌, refl, sym, ap, ◌∙◌, subst, Bool, true, false, ◌||◌, Option,
  none, some, List, [], ◌∷◌, length, get_elem?, ltb, ◌==◌, Result, ok, >>=-eq-ok, ensure,
  Bool-cases, inl, inr, arith,
}
use ex_arrow.Beam.{Text}
use ex_arrow.Arrow.{Floats, Native}
use ex_arrow.Arrow.Kernels.{Cmp}
use ex_arrow.Parquet.{FilterExpr, ReadOpts}
use ex_arrow.Parquet.Rows.{Row, row_truth}
use ex_arrow.Parquet.Prune.{RowGroup}
use ex_arrow.Parquet.Prune.Order.{CmpLaws}
use ex_arrow.Parquet.Prune.Sound.{IsRowOf, PlainFilter, row_group_may_match_sound}
use ex_arrow.Parquet.Plan.{
  range_from, retain, Footer, Plan, check_range, requested, group_may_match, validate, prune,
  apply_read_opts,
}

abbrev pub has_index : List ℕ → ℕ → Bool
has_index [] i = false
has_index (j ∷ js) i = (j == i) || has_index js i

-- The row groups that the options ask for: those listed, or all.
abbrev pub IsAskedFor : Option (List ℕ) → ℕ → ℕ → Type 0
IsAskedFor none total i = i < total
IsAskedFor (some rg) total i = has_index rg i ≡ true

abbrev pub AllBelow : List ℕ → ℕ → Type 0
AllBelow [] n = Unit
AllBelow (i ∷ is) n = (i < n) × AllBelow is n

has_index-range_from :
    (start n i : ℕ) → start ≤ i → i < start + n → has_index (range_from start n) i ≡ true
has_index-range_from start zero i lo hi = absurd (omega arith)
has_index-range_from start (suc n) i lo hi = elim (Bool-cases (start == i)) [
  | inl e ↦ rw e
  | inr e ↦ let ih = has_index-range_from (suc start) n i (ground arith) (omega arith) in rw (e, ih)
]

has_index-retain :
    (p : ℕ → Bool) (is : List ℕ) (i : ℕ)
    → p i ≡ true
    → has_index is i ≡ true
    → has_index (retain p is) i ≡ true
has_index-retain p [] i h k = k
has_index-retain p (j ∷ js) i h k = elim (Bool-cases (j == i)) [
  | inl e ↦ let pj : p j ≡ true = ap p (let same : j ≡ i = ground arith in same) ∙ h in rw (pj, e)
  | inr e ↦ elim (Bool-cases (p j)) [
    | inl kept ↦ rw (kept, e) (has_index-retain p js i h (rw e at k))
    | inr dropped ↦ rw dropped (has_index-retain p js i h (rw e at k))
  ]
]

length-retain : (p : ℕ → Bool) (is : List ℕ) → length (retain p is) ≤ length is
length-retain p [] = omega arith
length-retain p (i ∷ is) = let ih = length-retain p is in ground arith

length-range_from : (start n : ℕ) → length (range_from start n) ≡ n
length-range_from start zero = refl
length-range_from start (suc n) = ap suc (length-range_from (suc start) n)

AllBelow-retain : (p : ℕ → Bool) (is : List ℕ) (n : ℕ) → AllBelow is n → AllBelow (retain p is) n
AllBelow-retain p [] n h = tt
AllBelow-retain p (i ∷ is) n (lt, h) = elim (Bool-cases (p i)) [
  | inl e ↦ rw e (lt, AllBelow-retain p is n h)
  | inr e ↦ rw e (AllBelow-retain p is n h)
]

AllBelow-range_from : (start n total : ℕ) → start + n ≤ total → AllBelow (range_from start n) total
AllBelow-range_from start zero total h = tt
AllBelow-range_from start (suc n) total h =
    (omega arith, AllBelow-range_from (suc start) n total (omega arith))

ok-injective : {E A : Type 0} {a b : A} → ◌≡◌ {A = Result E A} (ok a) (ok b) → a ≡ b
ok-injective h = cc

module _ (fl : Floats) (lossy : Text → Text) where
  check_range-AllBelow :
      (is : List ℕ) (n : ℕ) {u : Unit {0}} → check_range fl lossy is n ≡ ok u → AllBelow is n
  unfolding check_range
  check_range-AllBelow [] n h = tt
  check_range-AllBelow (i ∷ is) n {u = u} h =
      let (_, below, more) =
        >>=-eq-ok (ensure (ltb i n) _) (λ _. check_range fl lossy is n) {out = u} h in
      (ground arith, check_range-AllBelow is n more)

  planned :
      (footer : Footer fl lossy) (opts : ReadOpts fl.F64) (plan : Plan fl lossy)
      → apply_read_opts fl lossy footer opts ≡ ok plan
      → (wanted : List ℕ) × (requested fl lossy opts.row_groups (length footer.groups) ≡ ok wanted)
        × (plan.row_groups ≡ prune fl lossy footer opts.filter wanted)
        × (plan.selected ≡ length plan.row_groups)
        × (plan.skipped ≡ length footer.groups - length plan.row_groups)
  unfolding apply_read_opts
  planned footer opts plan h =
      let (_, valid, h1) = >>=-eq-ok (validate fl lossy footer opts.filter) _ {out = plan} h in
      let (wanted, asked, h2) =
        >>=-eq-ok (requested fl lossy opts.row_groups (length footer.groups)) _ {out = plan} h1 in
      let same = ok-injective h2 in
      let (groups, selected, skipped) =
        subst
          (λ (q : Plan fl lossy).
            (q.row_groups ≡ prune fl lossy footer opts.filter wanted)
            × (q.selected ≡ length q.row_groups)
            × (q.skipped ≡ length footer.groups - length q.row_groups))
          same (refl, refl, refl) in
      (wanted, asked, groups, selected, skipped)

  length-asked :
      (rgs : Option (List ℕ)) (n : ℕ) (wanted : List ℕ)
      → requested fl lossy rgs n ≡ ok wanted
      → rgs ≡ none
      → length wanted ≡ n
  unfolding requested
  length-asked none n wanted h all = ap length (sym (ok-injective h)) ∙ length-range_from 0 n
  length-asked (some rg) n wanted h all = cc

  asked-AllBelow :
      (rgs : Option (List ℕ)) (n : ℕ) (wanted : List ℕ)
      → requested fl lossy rgs n ≡ ok wanted
      → AllBelow wanted n
  unfolding requested
  asked-AllBelow none n wanted h =
      subst (λ is. AllBelow is n) (ok-injective h) (AllBelow-range_from 0 n n (omega arith))
  asked-AllBelow (some rg) n wanted h =
      let (u, checked, same) = >>=-eq-ok (check_range fl lossy rg n) _ {out = wanted} h in
      subst (λ is. AllBelow is n) (ok-injective same) (check_range-AllBelow rg n checked)

  asked-has_index :
      (rgs : Option (List ℕ)) (n i : ℕ) (wanted : List ℕ)
      → requested fl lossy rgs n ≡ ok wanted
      → IsAskedFor rgs n i
      → has_index wanted i ≡ true
  unfolding requested
  asked-has_index none n i wanted h lt =
      subst (λ is. has_index is i ≡ true) (ok-injective h)
        (has_index-range_from 0 n i (omega arith) (omega (arith, lt)))
  asked-has_index (some rg) n i wanted h has =
      let (u, checked, same) = >>=-eq-ok (check_range fl lossy rg n) _ {out = wanted} h in
      subst (λ is. has_index is i ≡ true) (ok-injective same) has

  prune-AllBelow :
      (footer : Footer fl lossy) (filter : Option (FilterExpr fl.F64)) (is : List ℕ) (n : ℕ)
      → AllBelow is n
      → AllBelow (prune fl lossy footer filter is) n
  unfolding prune
  prune-AllBelow footer none is n h = h
  prune-AllBelow footer (some f) is n h = AllBelow-retain (group_may_match fl lossy footer f) is n h

  length-prune :
      (footer : Footer fl lossy) (filter : Option (FilterExpr fl.F64)) (is : List ℕ)
      → length (prune fl lossy footer filter is) ≤ length is
  unfolding prune
  length-prune footer none is = omega arith
  length-prune footer (some f) is = length-retain (group_may_match fl lossy footer f) is

-- A plan that is made reads row groups of the file only, whether they were listed or not.
pub apply_read_opts-AllBelow :
    (fl : Floats) (lossy : Text → Text) (footer : Footer fl lossy) (opts : ReadOpts fl.F64)
    (plan : Plan fl lossy)
    → apply_read_opts fl lossy footer opts ≡ ok plan
    → AllBelow plan.row_groups (length footer.groups)
apply_read_opts-AllBelow fl lossy footer opts plan h =
    let (wanted, asked, groups, selected, skipped) = planned fl lossy footer opts plan h in
    let n = length footer.groups in
    subst (λ is. AllBelow is n) (sym groups)
      (prune-AllBelow fl lossy footer opts.filter wanted n
        (asked-AllBelow fl lossy opts.row_groups n wanted asked))

-- Where no list of row groups is given, the row groups that a plan reports as selected are those that
-- it reads, and with those that it reports as skipped they are all the row groups of the file.
pub apply_read_opts-counts :
    (fl : Floats) (lossy : Text → Text) (footer : Footer fl lossy) (opts : ReadOpts fl.F64)
    (plan : Plan fl lossy)
    → apply_read_opts fl lossy footer opts ≡ ok plan
    → opts.row_groups ≡ none
    → (plan.selected ≡ length plan.row_groups)
      × (plan.selected + plan.skipped ≡ length footer.groups)
apply_read_opts-counts fl lossy footer opts plan h all =
    let (wanted, asked, groups, selected, skipped) = planned fl lossy footer opts plan h in
    let size : length wanted ≡ length footer.groups =
      length-asked fl lossy opts.row_groups (length footer.groups) wanted asked all in
    let fewer = length-prune fl lossy footer opts.filter wanted in
    let same : length plan.row_groups ≡ length (prune fl lossy footer opts.filter wanted) =
      ap length groups in
    (selected, omega (arith, size, fewer, same, selected, skipped))

-- A row group that the options ask for and that holds a row at which the filter is true is among the
-- row groups that the plan reads. The row's cells are of the types that the leaves found for their columns
-- store and, where a leaf has both a least and a greatest value, stand between them, float cells being
-- neither NaN nor a negative zero there. Nor are the filter's float literals, also when rounded to 32 bits.
pub apply_read_opts-keeps :
    {fl : Floats} {native_cmp : Cmp → Native fl → Native fl → Bool} (laws : CmpLaws fl native_cmp)
    (lossy : Text → Text) (footer : Footer fl lossy) (opts : ReadOpts fl.F64) (plan : Plan fl lossy)
    (i : ℕ) (f : FilterExpr fl.F64) (rg : RowGroup fl lossy) (row : Row fl)
    → apply_read_opts fl lossy footer opts ≡ ok plan
    → opts.filter ≡ some f
    → IsAskedFor opts.row_groups (length footer.groups) i
    → get_elem? footer.groups i ≡ some rg
    → IsRowOf laws lossy footer.leaves rg row
    → PlainFilter laws lossy f
    → row_truth native_cmp row f ≡ some (some true)
    → has_index plan.row_groups i ≡ true
unfolding prune group_may_match
apply_read_opts-keeps {fl} laws lossy footer opts plan i f rg row h filter wants group of plain
      true_there =
    let (wanted, asked, groups, _, _) = planned fl lossy footer opts plan h in
    let has =
      asked-has_index fl lossy opts.row_groups (length footer.groups) i wanted asked wants in
    let matches = row_group_may_match_sound laws lossy footer.leaves rg row f of plain true_there in
    let kept : group_may_match fl lossy footer f i ≡ true = rw group matches in
    let all : plan.row_groups ≡ retain (group_may_match fl lossy footer f) wanted =
      groups ∙ ap (λ o. prune fl lossy footer o wanted) filter in
    rw all (has_index-retain (group_may_match fl lossy footer f) wanted i kept has)
