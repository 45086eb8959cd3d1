-- ===== src/Cdi/Handed.antt =====
-- Calls on a handle one after the other: the batch is handed over once.
use ex_arrow.Prelude.{◌≡◌, refl, ◌∙◌, ap, subst, false, List, [], ◌∷◌, map, ok, >>=-eq-ok}
use ex_arrow.Cdi.{
  Ffi, already_consumed, Call, import, mark_consumed, dropped, Handle, boxed, Reply, done, imported,
  refused, cdi_export, swap_schema, swap_array, settle, call,
}

-- What is exported is imported as a struct array with the same children, by their names and values, and these
-- are the columns of a batch. The metadata of a schema is no part of them.
pub record FfiLaws (ffi : Ffi) : Type 1 where
  pub Columns : Type 0
  pub columns : ffi.Batch → Columns
  pub children : ffi.StructArray → Columns
  pub children-into_struct : (batch : ffi.Batch) → children (ffi.into_struct batch) ≡ columns batch
  pub columns-of_struct : (array : ffi.StructArray) → columns (ffi.of_struct array) ≡ children array
  pub from_ffi-to_ffi :
      (array : ffi.StructArray) (structs : ffi.Structs)
      → ffi.to_ffi array ≡ ok structs
      → (array' : ffi.StructArray) × (ffi.from_ffi structs ≡ ok array')
        × (children array' ≡ children array)

module _ (ffi : Ffi) where
  -- Calls in a row.
  abbrev pub calls : List Call → Handle ffi → List (Reply ffi) × Handle ffi
  calls [] h = ([], h)
  calls (c ∷ cs) h =
      ((call ffi c h).0 ∷ (calls cs (call ffi c h).1).0, (calls cs (call ffi c h).1).1)

  abbrev pub first_reply : ffi.Batch → Call → Reply ffi
  first_reply batch import = imported batch
  first_reply batch mark_consumed = done
  first_reply batch dropped = done

  abbrev pub later_reply : Call → Reply ffi
  later_reply import = refused already_consumed
  later_reply mark_consumed = done
  later_reply dropped = done

  -- Nothing is pointed to, and each struct was freed once.
  abbrev pub spent : Handle ffi → Handle ffi
  spent h = record h { schema_ptr = false; array_ptr = false; schema_frees = 1; array_frees = 1 }

  call-spent : (c : Call) (h : Handle ffi) → call ffi c (spent h) ≡ (later_reply c, spent h)
  unfolding call swap_schema swap_array settle
  call-spent import h = refl
  call-spent mark_consumed h = refl
  call-spent dropped h = refl

  calls-spent :
      (cs : List Call) (h : Handle ffi) → calls cs (spent h) ≡ (map later_reply cs, spent h)
  calls-spent [] h = refl
  calls-spent (c ∷ cs) h =
      ap (λ t. (t.0 ∷ (calls cs t.1).0, (calls cs t.1).1)) (call-spent c h)
      ∙ ap (λ t. (later_reply c ∷ t.0, t.1)) (calls-spent cs h)

  call-boxed :
      (c : Call) (array : ffi.StructArray) (structs : ffi.Structs)
      → ffi.from_ffi structs ≡ ok array
      → call ffi c (boxed ffi structs)
        ≡ (first_reply (ffi.of_struct array) c, spent (boxed ffi structs))
  unfolding call swap_schema swap_array settle boxed
  call-boxed import array structs back = rw back
  call-boxed mark_consumed array structs back = refl
  call-boxed dropped array structs back = refl

-- Of calls in a row on a handle that was exported, the first, if it is an import, gets a batch with the
-- columns of the one that was exported; each import after it is refused as already consumed. Each struct is
-- freed once, whatever the calls are and however many.
pub calls-cdi_export :
    (ffi : Ffi) (laws : FfiLaws ffi) (batch : ffi.Batch) (h : Handle ffi) (c : Call)
    (cs : List Call)
    → cdi_export ffi batch ≡ ok h
    → (back : ffi.Batch) × (laws.columns back ≡ laws.columns batch)
      × (calls ffi (c ∷ cs) h ≡ (first_reply ffi back c ∷ map (later_reply ffi) cs, spent ffi h))
unfolding cdi_export
calls-cdi_export ffi laws batch h c cs exported =
    let (structs, made, e) = >>=-eq-ok (ffi.to_ffi (ffi.into_struct batch)) _ exported in
    let (array, imports, same) = laws.from_ffi-to_ffi (ffi.into_struct batch) structs made in
    let back = ffi.of_struct array in
    let fresh =
      ap (λ t. (t.0 ∷ (calls ffi cs t.1).0, (calls ffi cs t.1).1))
        (call-boxed ffi c array structs imports)
      ∙ ap (λ t. (first_reply ffi back c ∷ t.0, t.1)) (calls-spent ffi cs (boxed ffi structs)) in
    (
      back,
      laws.columns-of_struct array ∙ same ∙ laws.children-into_struct batch,
      subst
          (λ k.
            calls ffi (c ∷ cs) k ≡ (first_reply ffi back c ∷ map (later_reply ffi) cs, spent ffi k))
          (cc e) fresh,
    )
