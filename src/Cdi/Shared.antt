-- ===== src/Cdi/Shared.antt =====
-- Calls on one handle at the same time. Each swap and each end of a call is a step, and any call may take
-- the next one.
use ex_arrow.Prelude.{
  ℕ, ◌+◌, ◌≡◌, refl, Bool, true, false, ◌&&◌, List, [], ◌∷◌, ◌++◌, map, if◌then◌else◌, ok,
  >>=-eq-ok, subst, arith,
}
use ex_arrow.Interleaving.{System, Reach, Reach-kept, total, total-step}
use ex_arrow.Cdi.{
  Ffi, boxed, Call, import, mark_consumed, dropped, Handle, Reply, cdi_export, swap_schema,
  swap_array, settle,
}

module _ (ffi : Ffi) where
  -- Where a call stands: before its swaps, between them, after them, and when it has replied, with which
  -- of the structs it took and did not free.
  pub data Thread : Type 0 where
    ready : Call → Thread
    has_schema : Call → Bool → Thread
    has_both : Call → Bool → Bool → Thread
    replied : Reply ffi → Bool → Bool → Thread

  -- What a call that took these has not freed when it replies.
  abbrev pub lost : Call → Bool → Bool → Bool → Bool
  lost import schema array took = if array && schema then false else took
  lost mark_consumed schema array took = false
  lost dropped schema array took = false

  -- The next step of a call.
  unfoldable pub advance : Thread → Handle ffi → Thread × Handle ffi
  unfolding swap_schema swap_array settle
  advance (ready c) h = (has_schema c (swap_schema ffi h).0, (swap_schema ffi h).1)
  advance (has_schema c schema) h = (has_both c schema (swap_array ffi h).0, (swap_array ffi h).1)
  advance (has_both c schema array) h = (
    replied (settle ffi c schema array h).0 (lost c schema array schema)
        (lost c schema array array),
    (settle ffi c schema array h).1,
  )
  advance (replied r s a) h = (replied r s a, h)

  -- A handle, and calls on it.
  abbrev pub Calls : Type 0
  Calls = System advance

  abbrev pub bit : Bool → ℕ
  bit true = 1
  bit false = 0

  -- How many schema structs, and how many array structs, a call has taken and not freed.
  abbrev pub holds_schema : Thread → ℕ
  holds_schema (ready c) = 0
  holds_schema (has_schema c schema) = bit schema
  holds_schema (has_both c schema array) = bit schema
  holds_schema (replied r schema array) = bit schema

  abbrev pub holds_array : Thread → ℕ
  holds_array (ready c) = 0
  holds_array (has_schema c schema) = 0
  holds_array (has_both c schema array) = bit array
  holds_array (replied r schema array) = bit array

  -- Each struct is in one place: the handle, a call, or among what was freed.
  pub record IsConserved (s : Calls) : Type 0 where
    pub schema : s.shared.schema_frees + bit s.shared.schema_ptr + total holds_schema s.threads ≡ 1
    pub array : s.shared.array_frees + bit s.shared.array_ptr + total holds_array s.threads ≡ 1

  -- What a step moves between a call and the handle.
  advance-schema :
      (t : Thread) (h : Handle ffi)
      → (advance t h).1.schema_frees + bit (advance t h).1.schema_ptr + holds_schema (advance t h).0
        ≡ h.schema_frees + bit h.schema_ptr + holds_schema t
  unfolding advance swap_schema swap_array settle
  advance-schema (ready c) h = omega arith
  advance-schema (has_schema c schema) h = omega arith
  advance-schema (has_both import true true) h = omega arith
  advance-schema (has_both import true false) h = omega arith
  advance-schema (has_both import false true) h = omega arith
  advance-schema (has_both import false false) h = omega arith
  advance-schema (has_both mark_consumed true array) h = omega arith
  advance-schema (has_both mark_consumed false array) h = omega arith
  advance-schema (has_both dropped true array) h = omega arith
  advance-schema (has_both dropped false array) h = omega arith
  advance-schema (replied r schema array) h = refl

  advance-array :
      (t : Thread) (h : Handle ffi)
      → (advance t h).1.array_frees + bit (advance t h).1.array_ptr + holds_array (advance t h).0
        ≡ h.array_frees + bit h.array_ptr + holds_array t
  unfolding advance swap_schema swap_array settle
  advance-array (ready c) h = omega arith
  advance-array (has_schema c schema) h = omega arith
  advance-array (has_both import true true) h = omega arith
  advance-array (has_both import true false) h = omega arith
  advance-array (has_both import false true) h = omega arith
  advance-array (has_both import false false) h = omega arith
  advance-array (has_both mark_consumed schema true) h = omega arith
  advance-array (has_both mark_consumed schema false) h = omega arith
  advance-array (has_both dropped schema true) h = omega arith
  advance-array (has_both dropped schema false) h = omega arith
  advance-array (replied r schema array) h = refl

  -- A step of one call moves a count between the call and the handle, and touches no other call.
  moved :
      (f : Thread → ℕ) (before rest : List Thread) (t t' : Thread) (m n : ℕ)
      → n + f t' ≡ m + f t
      → m + total f (before ++ t ∷ rest) ≡ 1
      → n + total f (before ++ t' ∷ rest) ≡ 1
  moved f before rest t t' m n e h = omega (arith, total-step f before rest t t')

  stepped-IsConserved :
      (h : Handle ffi) (before rest : List Thread) (t : Thread)
      → IsConserved (record { shared = h; threads = before ++ t ∷ rest })
      → IsConserved
          (record { shared = (advance t h).1; threads = before ++ (advance t h).0 ∷ rest })
  stepped-IsConserved h before rest t c = record {
    schema = moved holds_schema before rest t (advance t h).0 _ _ (advance-schema t h) c.schema;
    array = moved holds_array before rest t (advance t h).0 _ _ (advance-array t h) c.array;
  }

  total-ready :
      (f : Thread → ℕ) (calls : List Call)
      → ((c : Call) → f (ready c) ≡ 0)
      → total f (map ready calls) ≡ 0
  total-ready f [] none = refl
  total-ready f (c ∷ cs) none = omega (arith, none c, total-ready f cs none)

  -- A handle that was just exported, and calls that are about to be made on it.
  abbrev pub about : Handle ffi → List Call → Calls
  about h calls = record { shared = h; threads = map ready calls }

  about-IsConserved :
      (batch : ffi.Batch) (h : Handle ffi) (calls : List Call)
      → cdi_export ffi batch ≡ ok h
      → IsConserved (about h calls)
  unfolding cdi_export boxed
  about-IsConserved batch h calls exported =
      let (structs, made, e) = >>=-eq-ok (ffi.to_ffi (ffi.into_struct batch)) _ exported in
      let fresh : IsConserved (about (boxed ffi structs) calls) = record {
        schema = omega (arith, total-ready holds_schema calls (λ c. refl));
        array = omega (arith, total-ready holds_array calls (λ c. refl));
      } in
      subst (λ k. IsConserved (about k calls)) (cc e) fresh

-- However many calls there are on a handle that was exported, and however their steps interleave, each of
-- its two structs is at every moment in exactly one place: behind the handle's pointer, with one call that
-- took it, or freed, and freed once.
pub Reach-about :
    (ffi : Ffi) (batch : ffi.Batch) (h : Handle ffi) (calls : List Call) (s : Calls ffi)
    → cdi_export ffi batch ≡ ok h
    → Reach (advance ffi) (about ffi h calls) s
    → IsConserved ffi s
Reach-about ffi batch h calls s exported reached =
    Reach-kept (advance ffi) (IsConserved ffi) (stepped-IsConserved ffi)
      (about-IsConserved ffi batch h calls exported) reached
