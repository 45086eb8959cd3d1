-- ===== src/Arrow/Laws.antt =====
-- The documented behaviour of the Arrow kernels, through a view of arrays, masks and batches: the
-- cells of an array, the bits of a mask and the rows of a batch, where `none` is a null.
use mathlib.Core.Option
use ex_arrow.Prelude.{
  ℕ, suc, ◌≡◌, ◌<◌, Bool, true, not, ◌&&◌, ◌||◌, Option, some, List, [], ◌∷◌, length, get_elem?,
  map, ok,
}
use ex_arrow.Beam.{Text}
use ex_arrow.Arrow.{Floats, Native, bool_value, DataType, boolean}
use ex_arrow.Arrow.Kernels.{Kernels, Datum, whole, scalar, Cmp, lift₂}

-- `filter_record_batch` keeps the rows whose bit is true; a null drops its row as false does.
abbrev pub keep_if : {A : Type 0} → Option Bool → A → List A → List A
keep_if (some true) x xs = x ∷ xs
keep_if _ x xs = xs

abbrev pub keep_rows : {A : Type 0} → List A → (ℕ → Option Bool) → List A
keep_rows [] bit = []
keep_rows (x ∷ xs) bit = keep_if (bit 0) x (keep_rows xs (λ i. bit (suc i)))

-- The number of rows of a comparison; a scalar meets every row of the other side.
abbrev pub Broadcasts : {A : Type 0} → (A → ℕ) → Datum A → Datum A → ℕ → Type 0
Broadcasts len (whole a) (whole b) n = (len a ≡ n) × (len b ≡ n)
Broadcasts len (whole a) (scalar b) n = len a ≡ n
Broadcasts len (scalar a) (whole b) n = len b ≡ n
Broadcasts len (scalar a) (scalar b) n = n ≡ 1

abbrev pub datum_cell : {A B : Type 0} → (A → ℕ → Option B) → Datum A → ℕ → Option B
datum_cell cell (whole a) i = cell a i
datum_cell cell (scalar a) i = cell a 0

pub record KernelLaws {fl : Floats} (k : Kernels fl) : Type 0 where
  pub cell : k.Array → ℕ → Option (Native fl)
  pub bit : k.Mask → ℕ → Option Bool
  pub rows : k.Batch → List (List (Option (Native fl)))
  pub native_cmp : Cmp → Native fl → Native fl → Bool
  pub mask_len-fill : (b : Bool) (n : ℕ) → k.mask_len (k.fill b n) ≡ n
  pub bit-fill : (b : Bool) (n i : ℕ) → i < n → bit (k.fill b n) i ≡ some b
  pub mask_value-bit : (m : k.Mask) (i : ℕ) (b : Bool) → bit m i ≡ some b → k.mask_value m i ≡ b
  pub cell-one : (dt : DataType) (v : Native fl) → cell (k.one dt v) 0 ≡ some v
  pub array_len-of_boolean : (m : k.Mask) → k.array_len (k.of_boolean m) ≡ k.mask_len m
  pub data_type-of_boolean : (m : k.Mask) → k.data_type (k.of_boolean m) ≡ boolean
  pub cell-of_boolean :
      (m : k.Mask) (i : ℕ) → cell (k.of_boolean m) i ≡ Option.map bool_value (bit m i)
  pub as_boolean-len :
      (a : k.Array) (m : k.Mask) → k.as_boolean a ≡ some m → k.mask_len m ≡ k.array_len a
  pub as_boolean-type :
      (a : k.Array) (m : k.Mask) → k.as_boolean a ≡ some m → k.data_type a ≡ boolean
  pub as_boolean-cell :
      (a : k.Array) (m : k.Mask) (i : ℕ)
      → k.as_boolean a ≡ some m
      → cell a i ≡ Option.map bool_value (bit m i)
  pub compare-len :
      (c : Cmp) (l r : Datum k.Array) (m : k.Mask) (n : ℕ)
      → k.compare c l r ≡ ok m
      → Broadcasts k.array_len l r n
      → k.mask_len m ≡ n
  pub compare-bit :
      (c : Cmp) (l r : Datum k.Array) (m : k.Mask) (n i : ℕ)
      → k.compare c l r ≡ ok m
      → Broadcasts k.array_len l r n
      → i < n
      → bit m i ≡ lift₂ (native_cmp c) (datum_cell cell l i) (datum_cell cell r i)
  pub and_masks-len :
      (p q m : k.Mask) (n : ℕ)
      → k.and_masks p q ≡ ok m
      → k.mask_len p ≡ n
      → k.mask_len q ≡ n
      → k.mask_len m ≡ n
  pub and_masks-bit :
      (p q m : k.Mask) (i : ℕ) → k.and_masks p q ≡ ok m → bit m i ≡ lift₂ ◌&&◌ (bit p i) (bit q i)
  pub or_masks-len :
      (p q m : k.Mask) (n : ℕ)
      → k.or_masks p q ≡ ok m
      → k.mask_len p ≡ n
      → k.mask_len q ≡ n
      → k.mask_len m ≡ n
  pub or_masks-bit :
      (p q m : k.Mask) (i : ℕ) → k.or_masks p q ≡ ok m → bit m i ≡ lift₂ ◌||◌ (bit p i) (bit q i)
  pub not_mask-len : (p m : k.Mask) → k.not_mask p ≡ ok m → k.mask_len m ≡ k.mask_len p
  pub not_mask-bit :
      (p m : k.Mask) (i : ℕ) → k.not_mask p ≡ ok m → bit m i ≡ Option.map not (bit p i)
  pub column-len :
      (b : k.Batch) (name : Text) (a : k.Array)
      → k.column_by_name b name ≡ some a
      → k.array_len a ≡ k.num_rows b
  pub rows-len : (b : k.Batch) → length (rows b) ≡ k.num_rows b
  pub filter-rows :
      (b b' : k.Batch) (m : k.Mask)
      → k.filter_record_batch b m ≡ ok b'
      → k.mask_len m ≡ k.num_rows b
      → rows b' ≡ keep_rows (rows b) (bit m)
  -- the row of the source that `take` reads for row `i`
  pub position : k.Array → ℕ → ℕ
  pub index_of-column :
      (b : k.Batch) (name : Text) (j : ℕ)
      → k.index_of b name ≡ some j
      → k.column_by_name b name ≡ get_elem? (k.columns b) j
  pub project-columns :
      (b b' : k.Batch) (js : List ℕ)
      → k.project b js ≡ ok b'
      → map some (k.columns b') ≡ map (get_elem? (k.columns b)) js
  pub sort_to_indices-len :
      (a indices : k.Array) (descending nulls_first : Bool)
      → k.sort_to_indices a descending nulls_first ≡ ok indices
      → k.array_len indices ≡ k.array_len a
  pub take_rows-cell :
      (a a' indices : k.Array) (i : ℕ)
      → k.take_rows a indices ≡ ok a'
      → i < k.array_len indices
      → cell a' i ≡ cell a (position indices i)
  pub try_new-columns :
      (b b' : k.Batch) (arrays : List k.Array) → k.try_new b arrays ≡ ok b' → k.columns b' ≡ arrays
