-- ===== src/Samples/Library.antt =====
-- The tables keep the documented laws of the kernels.
pub mod Filtering
pub mod Laws
use mathlib.Core.Option
use mathlib.Core.Option.{some-injective}
use ex_arrow.Prelude.{
  ℕ, zero, suc, ◌<◌, ℤ, pos, negsuc, Bool, true, false, not, Option, none, some, List, [], ◌∷◌, ◌≡◌,
  refl, sym, ap, ap₂, ◌∙◌, ◌&&◌, ◌||◌, ◌==◌, length, get_elem?, replicate, length-replicate, map,
  if◌then◌else◌, Result, ok, err, ◌>>=◌, Bool-cases, Option-cases, ◌⊎◌, inl, inr, arith, subst,
}
use ex_arrow.Beam.{Text}
use ex_arrow.Arrow.{DataType, boolean, Native, bool_value}
use ex_arrow.Arrow.Kernels.{Kernels, Datum, whole, scalar, Cmp, lift₂}
use ex_arrow.Arrow.Laws.{KernelLaws, keep_if, keep_rows, datum_cell, Broadcasts}
use ex_arrow.Samples.Decoders.{integral}
use ex_arrow.Samples.Tables.{
  Cell, Column, Bits, at, bits_at, cell, all_sized, Table, make_table, checked, rows_of, head_cell,
  tail_of, tail_column, bits_of, as_boolean, tabulate, native_cmp, datum_len, zip_bits, index_of,
  column_by_name, picks, kept, filter_column, position, sort_to_indices, tables,
}

pub checked-eq-ok :
    (names : List Text) (cols : List Column) (n : ℕ)
    (c : (all_sized n cols ≡ true) ⊎ (all_sized n cols ≡ false)) (t : Table)
    → checked names cols n c ≡ ok t
    → (t.cols ≡ cols) × (t.count ≡ n)
checked-eq-ok names cols n (inl s) t h =
    let given : Table = record { names = names; cols = cols; count = n; sized = s } in
    let same : given ≡ t = cc in
    (ap (λ (u : Table). u.cols) (sym same), ap (λ (u : Table). u.count) (sym same))
checked-eq-ok names cols n (inr _) t h = cc

pub make_table-eq-ok :
    (names : List Text) (cols : List Column) (n : ℕ) (t : Table)
    → make_table names cols n ≡ ok t
    → (t.cols ≡ cols) × (t.count ≡ n)
make_table-eq-ok names cols n t h = checked-eq-ok names cols n (Bool-cases (all_sized n cols)) t h

pub length-tabulate : {A : Type 0} (n : ℕ) (f : ℕ → A) → length (tabulate n f) ≡ n
length-tabulate zero f = refl
length-tabulate (suc n) f = ap suc (length-tabulate n (λ i. f (suc i)))

pub at-tabulate :
    {A : Type 0} (n : ℕ) (f : ℕ → Option A) (i : ℕ) → i < n → at (tabulate n f) i ≡ f i
at-tabulate zero f i h = absurd (omega arith)
at-tabulate (suc n) f zero h = refl
at-tabulate (suc n) f (suc i) h = at-tabulate n (λ j. f (suc j)) i (omega arith)

pub at-replicate :
    {A : Type 0} (n : ℕ) (a : A) (i : ℕ) → i < n → at (replicate n (some a)) i ≡ some a
at-replicate zero a i h = absurd (omega arith)
at-replicate (suc n) a zero h = refl
at-replicate (suc n) a (suc i) h = at-replicate n a i (omega arith)

pub at-map :
    {A B : Type 0} (f : A → B) (m : List (Option A)) (i : ℕ)
    → at (map (Option.map f) m) i ≡ Option.map f (at m i)
at-map f [] i = refl
at-map f (b ∷ m) zero = refl
at-map f (b ∷ m) (suc i) = at-map f m i

pub length-map : {A B : Type 0} (f : A → B) (m : List A) → length (map f m) ≡ length m
length-map f [] = refl
length-map f (b ∷ m) = ap suc (length-map f m)

pub datum_len-Broadcasts :
    (l r : Datum Column) (n : ℕ) → Broadcasts (λ c. length c.cells) l r n → datum_len l r ≡ n
datum_len-Broadcasts (whole a) (whole b) n h = h.0
datum_len-Broadcasts (whole a) (scalar b) n h = h
datum_len-Broadcasts (scalar a) (whole b) n h = h
datum_len-Broadcasts (scalar a) (scalar b) n h = sym h

pub length-zip_bits :
    (f : Bool → Bool → Bool) (p q : Bits) (n : ℕ)
    → length p ≡ n
    → length q ≡ n
    → length (zip_bits f p q) ≡ n
length-zip_bits f [] q n hp hq = hp
length-zip_bits f (a ∷ p) [] n hp hq = absurd (omega arith)
length-zip_bits f (a ∷ p) (b ∷ q) zero hp hq = absurd (omega arith)
length-zip_bits f (a ∷ p) (b ∷ q) (suc n) hp hq =
    ap suc (length-zip_bits f p q n (omega arith) (omega arith))

pub at-zip_bits :
    (f : Bool → Bool → Bool) (p q : Bits) (i : ℕ)
    → at (zip_bits f p q) i ≡ lift₂ f (at p i) (at q i)
at-zip_bits f [] q i = refl
at-zip_bits f (a ∷ p) [] i = ground arith
at-zip_bits f (a ∷ p) (b ∷ q) zero = refl
at-zip_bits f (a ∷ p) (b ∷ q) (suc i) = at-zip_bits f p q i

pub length-bits_of : (cs : List Cell) (m : Bits) → bits_of cs ≡ some m → length m ≡ length cs
length-bits_of [] m h = ap length (sym (some-injective _ _ h))
length-bits_of (none ∷ cs) m h = elim (Option-cases (bits_of cs)) [
  | inl e ↦ absurd (let h' = rw e at h in cc)
  | inr (bs, e) ↦ ap length (sym (some-injective _ _ (rw e at h))) ∙ ap suc (length-bits_of cs bs e)
]
length-bits_of (some (bool_value b) ∷ cs) m h = elim (Option-cases (bits_of cs)) [
  | inl e ↦ absurd (let h' = rw e at h in cc)
  | inr (bs, e) ↦ ap length (sym (some-injective _ _ (rw e at h))) ∙ ap suc (length-bits_of cs bs e)
]
length-bits_of (some _ ∷ cs) m h = cc

pub at-bits_of :
    (cs : List Cell) (m : Bits) (i : ℕ)
    → bits_of cs ≡ some m
    → at cs i ≡ Option.map bool_value (at m i)
at-bits_of [] m i h = ap (λ bs. Option.map bool_value (at bs i)) (some-injective _ _ h)
at-bits_of (none ∷ cs) m zero h = elim (Option-cases (bits_of cs)) [
  | inl e ↦ absurd (let h' = rw e at h in cc)
  | inr (bs, e) ↦ ap (λ u. Option.map bool_value (at u 0)) (some-injective _ _ (rw e at h))
]
at-bits_of (none ∷ cs) m (suc i) h = elim (Option-cases (bits_of cs)) [
  | inl e ↦ absurd (let h' = rw e at h in cc)
  | inr (bs, e) ↦
      at-bits_of cs bs i e
      ∙ ap (λ u. Option.map bool_value (at u (suc i))) (some-injective _ _ (rw e at h))
]
at-bits_of (some (bool_value b) ∷ cs) m zero h = elim (Option-cases (bits_of cs)) [
  | inl e ↦ absurd (let h' = rw e at h in cc)
  | inr (bs, e) ↦ ap (λ u. Option.map bool_value (at u 0)) (some-injective _ _ (rw e at h))
]
at-bits_of (some (bool_value b) ∷ cs) m (suc i) h = elim (Option-cases (bits_of cs)) [
  | inl e ↦ absurd (let h' = rw e at h in cc)
  | inr (bs, e) ↦
      at-bits_of cs bs i e
      ∙ ap (λ u. Option.map bool_value (at u (suc i))) (some-injective _ _ (rw e at h))
]
at-bits_of (some _ ∷ cs) m i h = cc

pub all_sized-get_elem? :
    (n : ℕ) (cs : List Column) (j : ℕ) (c : Column)
    → all_sized n cs ≡ true
    → get_elem? cs j ≡ some c
    → length c.cells ≡ n
all_sized-get_elem? n [] j c h e = cc
all_sized-get_elem? n (d ∷ cs) zero c h e = ground arith
all_sized-get_elem? n (d ∷ cs) (suc j) c h e = all_sized-get_elem? n cs j c (ground arith) e

pub column-len :
    (t : Table) (name : Text) (c : Column)
    → column_by_name t name ≡ some c
    → length c.cells ≡ t.count
column-len t name c h = elim (Option-cases (index_of t.names name)) [
  | inl e ↦ absurd (let h' = rw e at h in cc)
  | inr (j, e) ↦ all_sized-get_elem? t.count t.cols j c t.sized (rw e at h)
]

pub length-rows_of : (n : ℕ) (cs : List Column) → length (rows_of n cs) ≡ n
length-rows_of zero cs = refl
length-rows_of (suc n) cs = ap suc (length-rows_of n (map tail_column cs))

pub picks-eq-some :
    {A : Type 0} (xs : List A) (js : List ℕ) (ys : List A)
    → picks xs js ≡ some ys
    → map some ys ≡ map (get_elem? xs) js
picks-eq-some xs [] ys h = ap (map some) (sym (some-injective _ _ h))
picks-eq-some xs (j ∷ js) ys h = elim (Option-cases (get_elem? xs j)) [
  | inl e ↦ absurd (let h' = rw e at h in cc)
  | inr (x, e) ↦ elim (Option-cases (picks xs js)) [
    | inl e' ↦ absurd (let h' = rw e' at (rw e at h) in cc)
    | inr (zs, e') ↦
        ap (map some) (sym (some-injective _ _ (rw e' at (rw e at h))))
        ∙ ap₂ ◌∷◌ (sym e) (picks-eq-some xs js zs e')
  ]
]

pub bits_at-eq-some :
    (dt : DataType) (cs : List Cell) (m : Bits)
    → bits_at dt cs ≡ some m
    → (dt ≡ boolean) × (bits_of cs ≡ some m)
bits_at-eq-some boolean cs m h = (refl, h)
bits_at-eq-some _ cs m h = cc

pub project-cols :
    (t t' : Table) (js : List ℕ)
    → tables.project t js ≡ ok t'
    → map some t'.cols ≡ map (get_elem? t.cols) js
project-cols t t' js h = elim (Option-cases (picks t.names js)) [
  | inl e ↦ absurd (let h' = rw e at h in cc)
  | inr (names, e) ↦ elim (Option-cases (picks t.cols js)) [
    | inl e' ↦ absurd (let h' = rw e' at (rw e at h) in cc)
    | inr (cols, e') ↦
        let made = (make_table-eq-ok names cols t.count t' (rw e' at (rw e at h))).0 in
        ap (map some) made ∙ picks-eq-some t.cols js cols e'
  ]
]

pub column_by_name-index :
    (t : Table) (name : Text) (j : ℕ)
    → index_of t.names name ≡ some j
    → column_by_name t name ≡ get_elem? t.cols j
column_by_name-index t name j h = rw h
