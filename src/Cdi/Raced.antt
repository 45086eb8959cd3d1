-- ===== src/Cdi/Raced.antt =====
-- Two imports of one handle at the same time.
use ex_arrow.Prelude.{◌≡◌, refl, subst, Bool, true, false, [], ◌∷◌, ok, >>=-eq-ok}
use ex_arrow.Cdi.{
  Ffi, already_consumed, import, Handle, boxed, refused, cdi_export, swap_schema, swap_array,
  settle,
}
use ex_arrow.Interleaving.{Step, step, Reach, here, next}
use ex_arrow.Cdi.Shared.{Thread, ready, has_schema, has_both, replied, advance, Calls, about}

module _ (ffi : Ffi) where
  -- Both imports are refused, each with a struct that it took, and nothing is freed.
  pub record BothRefused (s : Calls ffi) : Type 0 where
    pub first_refused :
        s.threads
        ≡ replied (refused already_consumed) true false
          ∷ replied (refused already_consumed) false true
          ∷ []
    pub schema_kept : s.shared.schema_frees ≡ 0
    pub array_kept : s.shared.array_frees ≡ 0
    pub schema_gone : s.shared.schema_ptr ≡ false
    pub array_gone : s.shared.array_ptr ≡ false

  -- A step of the first, or of the second, of two calls.
  first :
      (t u : Thread ffi) (h : Handle ffi)
      → Step
          (advance ffi)
          (record { shared = h; threads = t ∷ u ∷ [] })
          (record { shared = (advance ffi t h).1; threads = (advance ffi t h).0 ∷ u ∷ [] })
  first t u h = step [] t (u ∷ []) refl refl

  second :
      (t u : Thread ffi) (h : Handle ffi)
      → Step
          (advance ffi)
          (record { shared = h; threads = t ∷ u ∷ [] })
          (record { shared = (advance ffi u h).1; threads = t ∷ (advance ffi u h).0 ∷ [] })
  second t u h = step (t ∷ []) u [] refl refl

  -- The handle of these structs with pointers that are null or not, where nothing is freed.
  abbrev held : ffi.Structs → Bool → Bool → Handle ffi
  held structs schema array = record {
    structs = structs;
    schema_ptr = schema;
    array_ptr = array;
    schema_frees = 0;
    array_frees = 0;
  }

  race :
      (structs : ffi.Structs)
      → (s : Calls ffi) × Reach
          (advance ffi)
          (about ffi (boxed ffi structs) (import ∷ import ∷ []))
          s
        × BothRefused s
  unfolding boxed advance swap_schema swap_array settle
  race structs = (
    record {
      shared = held structs false false;
      threads =
          replied (refused already_consumed) true false
          ∷ replied (refused already_consumed) false true
          ∷ [];
    },
    next
        (next
          (next
            (next
              (next (next here (first (ready import) (ready import) (held structs true true)))
                (second (has_schema import true) (ready import) (held structs false true)))
              (second (has_schema import true) (has_schema import false) (held structs false true)))
            (first (has_schema import true) (has_both import false true)
              (held structs false false)))
          (first (has_both import true false) (has_both import false true)
            (held structs false false)))
        (second (replied (refused already_consumed) true false) (has_both import false true)
          (held structs false false)),
    record {
      first_refused = refl;
      schema_kept = refl;
      array_kept = refl;
      schema_gone = refl;
      array_gone = refl;
    },
  )

-- Two imports of any exported handle at the same time may both be refused as already consumed: each has
-- taken one of the structs, neither is freed, and no pointer to them is left in the handle.
pub Reach-BothRefused :
    (ffi : Ffi) (batch : ffi.Batch) (h : Handle ffi)
    → cdi_export ffi batch ≡ ok h
    → (s : Calls ffi) × Reach (advance ffi) (about ffi h (import ∷ import ∷ [])) s
      × BothRefused ffi s
unfolding cdi_export
Reach-BothRefused ffi batch h exported =
    let (structs, made, e) = >>=-eq-ok (ffi.to_ffi (ffi.into_struct batch)) _ exported in
    subst
      (λ k.
        (s : Calls ffi) × Reach (advance ffi) (about ffi k (import ∷ import ∷ [])) s
        × BothRefused ffi s)
      (cc e) (race ffi structs)
