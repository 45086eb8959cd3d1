-- ===== src/Cdi.antt =====
-- native/ex_arrow_native/src/cdi.rs: batches that are handed over through the Arrow C Data Interface.
-- A handle has two pointers to heap structs, each swapped for null by one atomic operation. The memory is
-- modelled by how often each struct was freed; the FFI of the Arrow crate is a parameter.
pub mod Handed
pub mod Shared
pub mod Raced
use ex_arrow.Prelude.{
  ℕ, zero, suc, ◌+◌, Bool, true, false, ◌&&◌, if◌then◌else◌, Result, ok, err, ◌>>=◌,
}
use ex_arrow.Beam.{Text}

-- `StructArray`, which is made of a batch and which a batch is made of, `to_ffi` and `from_ffi`.
pub record Ffi : Type 1 where
  pub Batch : Type 0
  pub StructArray : Type 0
  pub Structs : Type 0
  pub into_struct : Batch → StructArray
  pub of_struct : StructArray → Batch
  pub to_ffi : StructArray → Result Text Structs
  pub from_ffi : Structs → Result Text StructArray
  -- Where the structs stand.
  pub schema_addr : Structs → ℕ
  pub array_addr : Structs → ℕ

pub data CdiError : Type 0 where
  already_consumed : CdiError
  message : Text → CdiError

-- The calls that take what a handle points to. `dropped` is the end of the handle's life.
pub data Call : Type 0 where
  import mark_consumed dropped : Call

module _ (ffi : Ffi) where
  open ffi use {
    Batch, StructArray, Structs, into_struct, of_struct, to_ffi, from_ffi, schema_addr, array_addr,
  }

  -- `ExArrowCdiHandle` with the memory: whether each pointer is not null, and how often each struct
  -- was freed.
  pub record Handle : Type 0 where
    pub structs : Structs
    pub schema_ptr : Bool
    pub array_ptr : Bool
    pub schema_frees : ℕ
    pub array_frees : ℕ

  pub data Reply : Type 0 where
    done : Reply
    imported : Batch → Reply
    refused : CdiError → Reply

  -- The handle of structs that were just boxed.
  unfoldable pub boxed : Structs → Handle
  boxed structs = record {
    structs = structs;
    schema_ptr = true;
    array_ptr = true;
    schema_frees = 0;
    array_frees = 0;
  }

  unfoldable pub cdi_export : Batch → Result Text Handle
  unfolding boxed
  cdi_export batch = do structs ← to_ffi (into_struct batch); ok (boxed structs)

  -- `swap(0, SeqCst)`: what was there, and the handle after it.
  unfoldable pub swap_schema : Handle → Bool × Handle
  swap_schema h = (h.schema_ptr, record h { schema_ptr = false })

  unfoldable pub swap_array : Handle → Bool × Handle
  swap_array h = (h.array_ptr, record h { array_ptr = false })

  -- A struct is freed if its pointer is not null.
  abbrev pub freed : Bool → ℕ → ℕ
  freed true frees = suc frees
  freed false frees = frees

  abbrev pub free_taken : Bool → Bool → Handle → Handle
  free_taken schema array h = record h {
    schema_frees = freed schema h.schema_frees;
    array_frees = freed array h.array_frees;
  }

  -- The two conversions after `from_ffi`.
  abbrev import_reply : Result Text StructArray → Reply
  import_reply (ok array) = imported (of_struct array)
  import_reply (err e) = refused (message e)

  -- The lines after the two swaps: `take_raw` frees the array struct, the box of the schema is dropped.
  unfoldable pub settle : Call → Bool → Bool → Handle → Reply × Handle
  settle import schema array h =
      if array && schema
      then (import_reply (from_ffi h.structs), free_taken true true h)
      else (refused already_consumed, h)
  settle mark_consumed schema array h = (done, free_taken schema array h)
  settle dropped schema array h = (done, free_taken schema array h)

  -- A call with no other call at the same time.
  unfoldable pub call : Call → Handle → Reply × Handle
  unfolding swap_schema swap_array settle
  call c h =
      let (schema, h') = swap_schema h in
      let (array, h'') = swap_array h' in settle c schema array h''

  unfoldable pub cdi_import : Handle → Reply × Handle
  unfolding call
  cdi_import h = call import h

  unfoldable pub cdi_mark_consumed : Handle → Reply × Handle
  unfolding call
  cdi_mark_consumed h = call mark_consumed h

  -- `impl Drop for ExArrowCdiHandle`
  unfoldable pub drop_handle : Handle → Reply × Handle
  unfolding call
  drop_handle h = call dropped h

  unfoldable pub cdi_pointers : Handle → ℕ × ℕ
  cdi_pointers h = (
    if h.schema_ptr then schema_addr h.structs else 0,
    if h.array_ptr then array_addr h.structs else 0,
  )
