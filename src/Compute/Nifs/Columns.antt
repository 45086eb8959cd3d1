-- ===== src/Compute/Nifs/Columns.antt =====
-- The columns of a projected and of a sorted batch.
use ex_arrow.Prelude.{
  map_err-eq-ok, ℕ, ◌<◌, ◌≡◌, refl, sym, ap, ap₂, ◌∙◌, Bool, true, not, none, some, List, [], ◌∷◌,
  ◌++◌, map, get_elem?, Result, ok, err, ◌>>=◌, ok_or, ok_or-eq-ok, map_err, >>=-eq-ok, subst,
}
use ex_arrow.Beam.{Text}
use ex_arrow.Arrow.{Floats}
use ex_arrow.Arrow.Kernels.{Kernels}
use ex_arrow.Arrow.Laws.{KernelLaws}
use ex_arrow.Compute.{kernel, column_not_found, index_panic}
use ex_arrow.Compute.Eval.{Eval}
use ex_arrow.Compute.Nifs.{collect, resolve, compute_project, compute_sort}

-- A collection that succeeds has a result for each item, in order.
pub collect-eq-ok {ℓ κ} :
    {E A B : Type ℓ} {C : Type κ} (f : A → Result E B) (g : A → C) (h : B → C) (xs : List A)
    (ys : List B)
    → ((a : A) (b : B) → f a ≡ ok b → g a ≡ h b)
    → collect f xs ≡ ok ys
    → map g xs ≡ map h ys
unfolding collect
collect-eq-ok f g h [] [] law e = refl
collect-eq-ok f g h [] (y ∷ ys) law e = cc
collect-eq-ok f g h (x ∷ xs) ys law e =
    let (b, fx, more) = >>=-eq-ok (f x) (λ b. collect f xs >>= λ bs. ok (b ∷ bs)) e in
    let (bs, fxs, made) = >>=-eq-ok (collect f xs) (λ bs. ok (b ∷ bs)) more in
    let same : b ∷ bs ≡ ys = cc in
    subst (λ t. g x ∷ map g xs ≡ map h t) same
      (ap₂ (λ c cs. c ∷ cs) (law x b fx) (collect-eq-ok f g h xs bs law fxs))

-- A projection that succeeds has exactly the named columns, in the order of the names.
pub compute_project-columns :
    {fl : Floats} {k : Kernels fl} (laws : KernelLaws k) (batch out : k.Batch) (names : List Text)
    → compute_project k batch names ≡ ok out
    → map some (k.columns out) ≡ map (k.column_by_name batch) names
compute_project-columns {k = k} laws batch out names h =
    let (js, resolved, projected) =
      >>=-eq-ok (collect (resolve k batch) names) (λ js. map_err kernel (k.project batch js))
        {out = out} (unfold compute_project in h) in
    let columns =
      laws.project-columns batch out js (map_err-eq-ok kernel (k.project batch js) out projected) in
    columns
    ∙ sym (
        collect-eq-ok (resolve k batch) (k.column_by_name batch) (get_elem? (k.columns batch)) names
          js
          (λ name j e.
            laws.index_of-column batch name j
              (ok_or-eq-ok (k.index_of batch name) (column_not_found name) e))
          resolved)

abbrev pub AllFound : {fl : Floats} (k : Kernels fl) → k.Batch → List Text → Type 0
AllFound k batch [] = Unit
AllFound k batch (name ∷ names) =
    ((j : ℕ) × (k.index_of batch name ≡ some j)) × AllFound k batch names

collect-missing :
    {fl : Floats} (k : Kernels fl) (batch : k.Batch) (found : List Text) (name : Text)
    (rest : List Text)
    → AllFound k batch found
    → k.index_of batch name ≡ none
    → collect (resolve k batch) (found ++ name ∷ rest) ≡ err (column_not_found name)
unfolding collect
collect-missing k batch [] name rest all missing = rw missing
collect-missing k batch (n ∷ ns) name rest ((j, is), all) missing =
    rw (is, collect-missing k batch ns name rest all missing)

-- A name that no column has makes the projection fail with the first such name, whatever follows.
pub compute_project-missing :
    {fl : Floats} (k : Kernels fl) (batch : k.Batch) (found : List Text) (name : Text)
    (rest : List Text)
    → AllFound k batch found
    → k.index_of batch name ≡ none
    → compute_project k batch (found ++ name ∷ rest) ≡ err (column_not_found name)
compute_project-missing k batch found name rest all missing =
    unfold compute_project in rw (collect-missing k batch found name rest all missing)

-- A sorted batch has one row order for all of its columns: row `i` of it, below the number of
-- rows of the source, is, in every column, the
-- row of the source at the position that the sort of the named column gives for `i`, for the
-- direction asked for and with nulls first.
pub compute_sort-rows :
    {fl : Floats} {k : Kernels fl} (laws : KernelLaws k) (batch out : k.Batch) (name : Text)
    (ascending : Bool) (i : ℕ)
    → compute_sort k batch name ascending ≡ ok out
    → i < k.num_rows batch
    → (column indices : k.Array) × (k.column_by_name batch name ≡ some column)
      × (k.sort_to_indices column (not ascending) true ≡ ok indices)
      × (map (λ a. laws.cell a i) (k.columns out)
          ≡ map (λ a. laws.cell a (laws.position indices i)) (k.columns batch))
compute_sort-rows {k = k} laws batch out name ascending i h lt =
    let (j, resolved, h1) =
      >>=-eq-ok (resolve k batch name)
        (λ j. ok_or (get_elem? (k.columns batch) j) index_panic >>= λ c. sort_by c) {out = out}
        (unfold compute_sort in h) in
    let (column, there, h2) =
      >>=-eq-ok (ok_or (get_elem? (k.columns batch) j) index_panic) sort_by h1 in
    let (indices, sorted, h3) =
      >>=-eq-ok (map_err kernel (k.sort_to_indices column (not ascending) true)) reorder h2 in
    let (cols, taken, made) =
      >>=-eq-ok (collect (λ c. map_err kernel (k.take_rows c indices)) (k.columns batch))
        (λ cs. map_err kernel (k.try_new batch cs)) h3 in
    let there' = ok_or-eq-ok (get_elem? (k.columns batch) j) index_panic there in
    let named =
      laws.index_of-column batch name j
        (ok_or-eq-ok (k.index_of batch name) (column_not_found name) resolved)
      ∙ there' in
    let sorted' =
      map_err-eq-ok kernel (k.sort_to_indices column (not ascending) true) indices sorted in
    let len =
      laws.sort_to_indices-len column indices (not ascending) true sorted'
      ∙ laws.column-len batch name column named in
    (
      column,
      indices,
      named,
      sorted',
      ap (map (λ a. laws.cell a i)) (
            laws.try_new-columns batch out cols
              (map_err-eq-ok kernel (k.try_new batch cols) out made))
          ∙ sym (
              collect-eq-ok (λ c. map_err kernel (k.take_rows c indices))
                (λ a. laws.cell a (laws.position indices i)) (λ a. laws.cell a i) (k.columns batch)
                cols
                (λ a b e. sym (
                  laws.take_rows-cell a b indices i
                    (map_err-eq-ok kernel (k.take_rows a indices) b e) (rw len lt)))
                taken),
    )
  where
    reorder : k.Array → Eval k k.Batch
    reorder indices =
        collect (λ c. map_err kernel (k.take_rows c indices)) (k.columns batch) >>= λ cs.
        map_err kernel (k.try_new batch cs)

    sort_by : k.Array → Eval k k.Batch
    sort_by column = map_err kernel (k.sort_to_indices column (not ascending) true) >>= reorder
