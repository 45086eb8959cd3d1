-- ===== src/Adbc/Stream.antt =====
-- `adbc_stream_next` under calls at the same time: each lock that it takes is a step.
pub mod Shared
use ex_arrow.Prelude.{
  ℕ, zero, suc, ◌+◌, ◌<◌, ◌≤◌, ◌≡◌, refl, sym, ◌∙◌, ap, subst, inl, inr, Bool, true, false,
  Bool-cases, if◌then◌else◌, if_else, if_split, ltb, leb, ◌==◌, Option, none, some, Option-cases,
  List, [], ◌∷◌, ◌++◌, length, get_elem?, replicate, Result, ok, err, map_err, try_collect, Yields,
  Yields-ok, Yields-err, Yields-bind, arith,
}
use ex_arrow.Beam.{Text}
use ex_arrow.Interleaving.{System}
use ex_arrow.Adbc.{AdbcLib, AdbcError, stream_lock, stream_index_lock}
use ex_arrow.Adbc.Handles.{AdbcStatement, adbc_statement_execute, collected, AdbcResultStream}

module _ (lib : AdbcLib) where
  pub data Reply : Type 0 where
    done panicked : Reply
    batch : lib.Batch → Reply
    failed : AdbcError → Reply

  -- Where a call stands: at its start, with the number of batches, with the index that it took, and when
  -- it has replied, with that index.
  pub data Thread : Type 0 where
    ready : Thread
    counted : ℕ → Thread
    indexed : ℕ → Thread
    gave : ℕ → Reply → Thread
    ended : Reply → Thread

  abbrev found : Option lib.Batch → Reply
  found none = panicked
  found (some b) = batch b

  -- The steps of a call: `batches.lock()`, `index.lock()`, `batches.lock()`.
  unfoldable pub count : AdbcResultStream lib → Thread
  count s = if s.batches_poisoned then ended (failed stream_lock) else counted (length s.batches)

  unfoldable pub take_index : ℕ → AdbcResultStream lib → Thread × AdbcResultStream lib
  take_index len s =
      if s.index_poisoned
      then (ended (failed stream_index_lock), s)
      else if leb len s.index
      then (ended done, s)
      else (indexed s.index, record s { index = suc s.index })

  unfoldable pub read_batch : ℕ → AdbcResultStream lib → Thread
  read_batch i s =
      if s.batches_poisoned
      then gave i (failed stream_lock)
      else gave i (found (get_elem? s.batches i))

  unfoldable pub advance : Thread → AdbcResultStream lib → Thread × AdbcResultStream lib
  unfolding count take_index read_batch
  advance ready s = (count s, s)
  advance (counted len) s = take_index len s
  advance (indexed i) s = (read_batch i s, s)
  advance (gave i r) s = (gave i r, s)
  advance (ended r) s = (ended r, s)

  -- A call with no other call at the same time.
  unfoldable pub adbc_stream_next : AdbcResultStream lib → Thread × AdbcResultStream lib
  unfolding advance
  adbc_stream_next s =
      let (t₁, s₁) = advance ready s in let (t₂, s₂) = advance t₁ s₁ in advance t₂ s₂

  -- A stream, and calls on it.
  abbrev pub Calls : Type 0
  Calls = System advance
