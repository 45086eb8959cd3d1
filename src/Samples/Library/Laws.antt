-- ===== src/Samples/Library/Laws.antt =====
-- The tables are an instance of the kernels' laws.
use mathlib.Core.Option
use mathlib.Core.Option.{some-injective}
use ex_arrow.Prelude.{
  ℕ, ◌<◌, pos, Bool, false, not, some, ◌≡◌, refl, sym, ap, ap₂, ◌∙◌, ◌&&◌, ◌||◌, ◌==◌, length,
  length-replicate, map, Result, ok, when_some, Bool-cases, inl, inr, arith,
}
use ex_arrow.Arrow.{bool_value, int_value}
use ex_arrow.Arrow.Kernels.{Datum, Cmp, lift₂}
use ex_arrow.Arrow.Laws.{KernelLaws, keep_rows, datum_cell, Broadcasts}
use ex_arrow.Samples.Tables.{
  Column, Bits, at, cell, Table, rows_of, tabulate, native_cmp, datum_len, kept, filter_column,
  position, sort_to_indices, sorted_indices, tables,
}
use ex_arrow.Samples.Library.{
  make_table-eq-ok, length-tabulate, at-tabulate, at-replicate, at-map, length-map,
  datum_len-Broadcasts, length-zip_bits, at-zip_bits, length-bits_of, at-bits_of, column-len,
  length-rows_of, bits_at-eq-some, project-cols, column_by_name-index,
}
use ex_arrow.Samples.Library.Filtering.{rows_of-kept}

ok-injective : {E A : Type 0} {a b : A} → ◌≡◌ {A = Result E A} (ok a) (ok b) → a ≡ b
ok-injective h = cc

compare-len_tables :
    (c : Cmp) (l r : Datum Column) (m : Bits) (n : ℕ)
    → tables.compare c l r ≡ ok m
    → Broadcasts tables.array_len l r n
    → length m ≡ n
compare-len_tables c l r m n h b =
    ap length (sym (ok-injective h))
    ∙ length-tabulate (datum_len l r)
        (λ i. lift₂ (native_cmp c) (datum_cell cell l i) (datum_cell cell r i))
    ∙ datum_len-Broadcasts l r n b

compare-bit_tables :
    (c : Cmp) (l r : Datum Column) (m : Bits) (n i : ℕ)
    → tables.compare c l r ≡ ok m
    → Broadcasts tables.array_len l r n
    → i < n
    → at m i ≡ lift₂ (native_cmp c) (datum_cell cell l i) (datum_cell cell r i)
compare-bit_tables c l r m n i h b lt =
    let n_is = datum_len-Broadcasts l r n b in
    ap (λ u. at u i) (sym (ok-injective h))
    ∙ at-tabulate (datum_len l r)
        (λ i. lift₂ (native_cmp c) (datum_cell cell l i) (datum_cell cell r i)) i (omega arith)

filter-rows_tables :
    (t t' : Table) (m : Bits)
    → tables.filter_record_batch t m ≡ ok t'
    → rows_of t'.count t'.cols ≡ keep_rows (rows_of t.count t.cols) (at m)
filter-rows_tables t t' m h =
    let made =
      make_table-eq-ok t.names (map (filter_column (at m)) t.cols) (kept t.count (at m)) t' h in
    ap₂ rows_of made.1 made.0 ∙ rows_of-kept t.count (at m) t.cols

sort_to_indices-len_tables :
    (a indices : Column) (descending nulls_first : Bool)
    → sort_to_indices a descending nulls_first ≡ ok indices
    → length indices.cells ≡ length a.cells
sort_to_indices-len_tables a indices d n h =
    let js = sorted_indices d a (tabulate (length a.cells) (λ i. i)) in
    elim (Bool-cases (length js == length a.cells)) [
      | inl e ↦
          ap (λ (u : Column). length u.cells) (sym (ok-injective (rw e at h)))
          ∙ length-map (λ j. some (int_value (pos j))) js
          ∙ ground arith
      | inr e ↦ absurd (let h' = rw e at h in cc)
    ]

take_rows-cell_tables :
    (a a' indices : Column) (i : ℕ)
    → tables.take_rows a indices ≡ ok a'
    → i < length indices.cells
    → cell a' i ≡ cell a (position indices i)
take_rows-cell_tables a a' indices i h lt =
    ap (λ u. cell u i) (sym (ok-injective h))
    ∙ at-tabulate (length indices.cells) (λ i. cell a (position indices i)) i lt

mask_value-bit_tables : (m : Bits) (i : ℕ) (b : Bool) → at m i ≡ some b → tables.mask_value m i ≡ b
mask_value-bit_tables m i b h = ap (λ o. when_some o (λ b. b) false) h

pub table_laws : KernelLaws tables
table_laws = record {
  cell = cell;
  bit = at;
  rows = λ t. rows_of t.count t.cols;
  native_cmp = native_cmp;
  mask_len-fill = λ b n. length-replicate n (some b);
  bit-fill = λ b n i h. at-replicate n b i h;
  mask_value-bit = mask_value-bit_tables;
  cell-one = λ dt v. refl;
  array_len-of_boolean = λ m. length-map (Option.map bool_value) m;
  data_type-of_boolean = λ m. refl;
  cell-of_boolean = λ m i. at-map bool_value m i;
  as_boolean-len = λ a m h. length-bits_of a.cells m (bits_at-eq-some a.type a.cells m h).1;
  as_boolean-type = λ a m h. (bits_at-eq-some a.type a.cells m h).0;
  as_boolean-cell = λ a m i h. at-bits_of a.cells m i (bits_at-eq-some a.type a.cells m h).1;
  compare-len = compare-len_tables;
  compare-bit = compare-bit_tables;
  and_masks-len =
      λ p q m n h hp hq. ap length (sym (ok-injective h)) ∙ length-zip_bits ◌&&◌ p q n hp hq;
  and_masks-bit = λ p q m i h. ap (λ u. at u i) (sym (ok-injective h)) ∙ at-zip_bits ◌&&◌ p q i;
  or_masks-len =
      λ p q m n h hp hq. ap length (sym (ok-injective h)) ∙ length-zip_bits ◌||◌ p q n hp hq;
  or_masks-bit = λ p q m i h. ap (λ u. at u i) (sym (ok-injective h)) ∙ at-zip_bits ◌||◌ p q i;
  not_mask-len = λ p m h. ap length (sym (ok-injective h)) ∙ length-map (Option.map not) p;
  not_mask-bit = λ p m i h. ap (λ u. at u i) (sym (ok-injective h)) ∙ at-map not p i;
  column-len = column-len;
  rows-len = λ t. length-rows_of t.count t.cols;
  filter-rows = λ t t' m h _. filter-rows_tables t t' m h;
  position = position;
  index_of-column = column_by_name-index;
  project-columns = project-cols;
  sort_to_indices-len = sort_to_indices-len_tables;
  take_rows-cell = take_rows-cell_tables;
  try_new-columns = λ t t' arrays h. (make_table-eq-ok t.names arrays t.count t' h).0;
}
