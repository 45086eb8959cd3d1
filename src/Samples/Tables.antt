-- ===== src/Samples/Tables.antt =====
-- Arrays as typed lists of cells, masks as lists of bits, batches as columns of one length.
use mathlib.Core.Option
use ex_arrow.Prelude.{
  ℕ, zero, suc, pos, negsuc, Bool, true, false, not, Option, none, some, List, [], ◌∷◌, ◌≡◌, ◌&&◌,
  ◌||◌, ltb_ℤ, leb_ℤ, ◌==◌, length, get_elem?, replicate, map, if◌then◌else◌, Result, ok, err,
  when_some, Bool-cases, ◌⊎◌, inl, inr,
}
use ex_arrow.Beam.{Text, text_eq}
use ex_arrow.Arrow.{
  DataType, boolean, int64, Native, bool_value, int_value, f32_value, f64_value, utf8_value,
}
use ex_arrow.Arrow.Kernels.{Kernels, Datum, whole, scalar, Cmp, lift₂}
use ex_arrow.Arrow.Laws.{keep_rows, datum_cell}
use ex_arrow.Parquet.Prune.{ltb_text, leb_text, i64_of_bool}
use ex_arrow.Parquet.Prune.Order.{order_cmp}
use ex_arrow.Samples.Decoders.{integral}

abbrev pub Cell : Type 0
Cell = Option (Native integral)

pub record Column : Type 0 where
  pub type : DataType
  pub cells : List Cell

abbrev pub Bits : Type 0
Bits = List (Option Bool)

abbrev pub at : {A : Type 0} → List (Option A) → ℕ → Option A
at [] i = none
at (x ∷ xs) zero = x
at (x ∷ xs) (suc i) = at xs i

abbrev pub cell : Column → ℕ → Cell
cell c i = at c.cells i

abbrev pub all_sized : ℕ → List Column → Bool
all_sized n [] = true
all_sized n (c ∷ cs) = (length c.cells == n) && all_sized n cs

pub record Table : Type 0 where
  pub names : List Text
  pub cols : List Column
  pub count : ℕ
  pub sized : all_sized count cols ≡ true

abbrev pub refusal : Text
refusal = b'?' ∷ []

abbrev pub checked :
    (names : List Text) (cols : List Column) (n : ℕ)
    → (all_sized n cols ≡ true) ⊎ (all_sized n cols ≡ false)
    → Result Text Table
checked names cols n (inl h) = ok (record { names = names; cols = cols; count = n; sized = h })
checked names cols n (inr _) = err refusal

abbrev pub make_table : List Text → List Column → ℕ → Result Text Table
make_table names cols n = checked names cols n (Bool-cases (all_sized n cols))

-- The cells of a boolean array, as bits; `none` if one of them is no boolean.
abbrev pub bits_of : List Cell → Option Bits
bits_of [] = some []
bits_of (none ∷ cs) = Option.map (λ bs. none ∷ bs) (bits_of cs)
bits_of (some (bool_value b) ∷ cs) = Option.map (λ bs. some b ∷ bs) (bits_of cs)
bits_of (some _ ∷ cs) = none

abbrev pub bits_at : DataType → List Cell → Option Bits
bits_at boolean cs = bits_of cs
bits_at _ cs = none

abbrev pub as_boolean : Column → Option Bits
as_boolean c = bits_at c.type c.cells

abbrev pub tabulate : {A : Type 0} → ℕ → (ℕ → A) → List A
tabulate zero f = []
tabulate (suc n) f = f 0 ∷ tabulate n (λ i. f (suc i))

abbrev pub native_cmp : Cmp → Native integral → Native integral → Bool
native_cmp c (int_value a) (int_value b) = order_cmp ltb_ℤ leb_ℤ c a b
native_cmp c (bool_value a) (bool_value b) = order_cmp ltb_ℤ leb_ℤ c (i64_of_bool a) (i64_of_bool b)
native_cmp c (utf8_value a) (utf8_value b) = order_cmp ltb_text leb_text c a b
native_cmp c (f64_value a) (f64_value b) = order_cmp ltb_ℤ leb_ℤ c a b
native_cmp c (f32_value a) (f32_value b) = order_cmp ltb_ℤ leb_ℤ c a b
native_cmp c _ _ = false

abbrev pub datum_len : Datum Column → Datum Column → ℕ
datum_len (whole a) r = length a.cells
datum_len (scalar a) (whole b) = length b.cells
datum_len (scalar a) (scalar b) = 1

abbrev pub zip_bits : (Bool → Bool → Bool) → Bits → Bits → Bits
zip_bits f (a ∷ p) (b ∷ q) = lift₂ f a b ∷ zip_bits f p q
zip_bits f _ _ = []

abbrev pub index_of : List Text → Text → Option ℕ
index_of [] name = none
index_of (n ∷ ns) name = if text_eq n name then some 0 else Option.map suc (index_of ns name)

abbrev pub column_by_name : Table → Text → Option Column
column_by_name t name = when_some (index_of t.names name) (λ j. get_elem? t.cols j) none

abbrev pub picks : {A : Type 0} → List A → List ℕ → Option (List A)
picks xs [] = some []
picks xs (j ∷ js) =
    let rest = picks xs js in when_some (get_elem? xs j) (λ x. Option.map (λ ys. x ∷ ys) rest) none

abbrev pub count_if : Option Bool → ℕ → ℕ
count_if (some true) n = suc n
count_if _ n = n

abbrev pub kept : ℕ → (ℕ → Option Bool) → ℕ
kept zero bit = 0
kept (suc n) bit = count_if (bit 0) (kept n (λ i. bit (suc i)))

abbrev pub filter_column : (ℕ → Option Bool) → Column → Column
filter_column bit c = record c { cells = keep_rows c.cells bit }

abbrev pub head_cell : Column → Cell
head_cell c = cell c 0

abbrev pub tail_of : List Cell → List Cell
tail_of [] = []
tail_of (x ∷ xs) = xs

abbrev pub tail_column : Column → Column
tail_column c = record c { cells = tail_of c.cells }

abbrev pub rows_of : ℕ → List Column → List (List Cell)
rows_of zero cols = []
rows_of (suc n) cols = map head_cell cols ∷ rows_of n (map tail_column cols)

abbrev pub position : Column → ℕ → ℕ
position c i = elim (cell c i) [
  | none ↦ 0
  | some v ↦ elim v [ int_value z ↦ elim z [ pos n ↦ n | negsuc n ↦ 0 ] | _ ↦ 0 ]
]

-- The indices of an insertion sort by the cells; nulls stand first.
abbrev pub before : Bool → Cell → Cell → Bool
before descending none y = true
before descending (some x) none = false
before descending (some x) (some y) =
    if descending then native_cmp Cmp.gt_eq x y else native_cmp Cmp.lt_eq x y

abbrev pub insert_index : Bool → Column → ℕ → List ℕ → List ℕ
insert_index desc c i [] = i ∷ []
insert_index desc c i (j ∷ js) =
    if before desc (cell c i) (cell c j) then i ∷ j ∷ js else j ∷ insert_index desc c i js

abbrev pub sorted_indices : Bool → Column → List ℕ → List ℕ
sorted_indices desc c [] = []
sorted_indices desc c (i ∷ is) = insert_index desc c i (sorted_indices desc c is)

abbrev pub sort_to_indices : Column → Bool → Bool → Result Text Column
sort_to_indices c desc nulls_first =
    let js = sorted_indices desc c (tabulate (length c.cells) (λ i. i)) in
    if length js == length c.cells
    then ok (record { type = int64; cells = map (λ j. some (int_value (pos j))) js })
    else err refusal

abbrev pub tables : Kernels integral
tables = record {
  Array = Column;
  Mask = Bits;
  Batch = Table;
  data_type = λ c. c.type;
  array_len = λ c. length c.cells;
  one = λ dt v. record { type = dt; cells = some v ∷ [] };
  as_boolean = as_boolean;
  of_boolean = λ m. record { type = boolean; cells = map (Option.map bool_value) m };
  mask_len = length;
  mask_value = λ m i. when_some (at m i) (λ b. b) false;
  fill = λ b n. replicate n (some b);
  compare = λ c l r. ok (
      tabulate (datum_len l r)
        (λ i. lift₂ (native_cmp c) (datum_cell cell l i) (datum_cell cell r i)));
  and_masks = λ p q. ok (zip_bits ◌&&◌ p q);
  or_masks = λ p q. ok (zip_bits ◌||◌ p q);
  not_mask = λ p. ok (map (Option.map not) p);
  num_rows = λ t. t.count;
  columns = λ t. t.cols;
  column_by_name = column_by_name;
  index_of = λ t name. index_of t.names name;
  filter_record_batch =
      λ t m. make_table t.names (map (filter_column (at m)) t.cols) (kept t.count (at m));
  project = λ t js.
      when_some (picks t.names js)
        (λ names. when_some (picks t.cols js) (λ cols. make_table names cols t.count) (err refusal))
        (err refusal);
  sort_to_indices = sort_to_indices;
  take_rows =
      λ c js. ok (record c { cells = tabulate (length js.cells) (λ i. cell c (position js i)) });
  try_new = λ t cols. make_table t.names cols t.count;
}
