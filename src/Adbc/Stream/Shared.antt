-- ===== src/Adbc/Stream/Shared.antt =====
-- What holds of a result stream whatever order the steps of its calls are taken in.
use ex_arrow.Prelude.{
  get_elem?-lt, ℕ, zero, suc, ◌+◌, ◌<◌, ◌≤◌, ◌≡◌, refl, ◌∙◌, ap, false, if◌then◌else◌, if_else,
  if_split, ltb, leb, ◌==◌, some, List, [], ◌∷◌, ◌++◌, length, get_elem?, replicate, Result, ok,
  map_err, try_collect, Yields, Yields-ok, Yields-err, Yields-bind, arith,
}
use ex_arrow.Beam.{Text}
use ex_arrow.Interleaving.{Reach, Reach-kept, total, total-step}
use ex_arrow.Adbc.{AdbcLib, AdbcError}
use ex_arrow.Adbc.Handles.{AdbcStatement, adbc_statement_execute, collected, AdbcResultStream}
use ex_arrow.Adbc.Stream.{
  done, batch, Thread, ready, counted, indexed, gave, ended, found, count, take_index, read_batch,
  advance, Calls,
}

module _ (lib : AdbcLib) where
  -- Whether a call took an index.
  abbrev pub took : ℕ → Thread lib → ℕ
  took i ready = 0
  took i (counted len) = 0
  took i (indexed j) = if i == j then 1 else 0
  took i (gave j r) = if i == j then 1 else 0
  took i (ended r) = 0

  -- What a call has seen is true of the batches, and what it gave is theirs.
  abbrev pub IsRight : List lib.Batch → Thread lib → Type 0
  IsRight bs ready = Unit
  IsRight bs (counted len) = len ≡ length bs
  IsRight bs (indexed i) = i < length bs
  IsRight bs (gave i r) = (b : lib.Batch) × (get_elem? bs i ≡ some b) × (r ≡ batch b)
  IsRight bs (ended r) = r ≡ done

  abbrev pub All : List lib.Batch → List (Thread lib) → Type 0
  All bs [] = Unit
  All bs (t ∷ ts) = IsRight bs t × All bs ts

  abbrev pub claimed : ℕ → ℕ → ℕ
  claimed i n = if ltb i n then 1 else 0

  -- A stream of these batches, with sound locks.
  pub record IsOpen (bs : List lib.Batch) (s : AdbcResultStream lib) : Type 0 where
    pub batches : s.batches ≡ bs
    pub batches_sound : s.batches_poisoned ≡ false
    pub index_sound : s.index_poisoned ≡ false
    pub within : s.index ≤ length bs

  -- Each index below that of the stream was taken by one call, and no other index by any.
  pub record IsShared (bs : List lib.Batch) (s : Calls lib) : Type 0 where
    pub stays : IsOpen bs s.shared
    pub right : All bs s.threads
    pub once : (i : ℕ) → total (took i) s.threads ≡ claimed i s.shared.index

  -- What a step of a call keeps.
  record Advanced (bs : List lib.Batch) (t : Thread lib) (s : AdbcResultStream lib)
      (after : Thread lib × AdbcResultStream lib) : Type 0 where
    stays : IsOpen bs after.1
    right : IsRight bs after.0
    moves : (i : ℕ) → took i after.0 + claimed i s.index ≡ took i t + claimed i after.1.index

  claimed-suc : (i n : ℕ) → took i (indexed n) + claimed i n ≡ 0 + claimed i (suc n)
  claimed-suc i n = ground arith

  count-Advanced :
      (bs : List lib.Batch) (s : AdbcResultStream lib)
      → IsOpen bs s
      → Advanced bs ready s (count lib s, s)
  unfolding count
  count-Advanced bs s o =
      if_else (λ t. Advanced bs ready s (t, s)) s.batches_poisoned _ _ o.batches_sound
        (record { stays = o; right = ap length o.batches; moves = λ i. omega arith })

  take_index-Advanced :
      (bs : List lib.Batch) (len : ℕ) (s : AdbcResultStream lib)
      → IsOpen bs s
      → len ≡ length bs
      → Advanced bs (counted len) s (take_index lib len s)
  unfolding take_index
  take_index-Advanced bs len s o counts =
      if_else (Advanced bs (counted len) s) s.index_poisoned _ _ o.index_sound (
        if_split (Advanced bs (counted len) s) (leb len s.index) _ _
          (λ spent. record { stays = o; right = refl; moves = λ i. refl })
          (λ more.
            let below : s.index < length bs = ground arith in
            record {
              stays = record {
                batches = o.batches;
                batches_sound = o.batches_sound;
                index_sound = o.index_sound;
                within = omega arith;
              };
              right = below;
              moves = λ i. claimed-suc i s.index;
            }))

  read_batch-Advanced :
      (bs : List lib.Batch) (i : ℕ) (s : AdbcResultStream lib)
      → IsOpen bs s
      → i < length bs
      → Advanced bs (indexed i) s (read_batch lib i s, s)
  unfolding read_batch
  read_batch-Advanced bs i s o below =
      if_else (λ t. Advanced bs (indexed i) s (t, s)) s.batches_poisoned _ _ o.batches_sound
        (let (b, at) = get_elem?-lt bs i below in
          record {
            stays = o;
            right = (b, at, ap (found lib) (ap (λ l. get_elem? l i) o.batches ∙ at));
            moves = λ j. refl;
          })

  advance-Advanced :
      (bs : List lib.Batch) (t : Thread lib) (s : AdbcResultStream lib)
      → IsOpen bs s
      → IsRight bs t
      → Advanced bs t s (advance lib t s)
  unfolding advance
  advance-Advanced bs ready s o h = count-Advanced bs s o
  advance-Advanced bs (counted len) s o h = take_index-Advanced bs len s o h
  advance-Advanced bs (indexed i) s o h = read_batch-Advanced bs i s o h
  advance-Advanced bs (gave i r) s o h = record { stays = o; right = h; moves = λ j. refl }
  advance-Advanced bs (ended r) s o h = record { stays = o; right = h; moves = λ j. refl }

  All-append :
      (bs : List lib.Batch) (xs ys : List (Thread lib)) → All bs xs → All bs ys → All bs (xs ++ ys)
  All-append bs [] ys hx hy = hy
  All-append bs (x ∷ xs) ys hx hy = (hx.0, All-append bs xs ys hx.1 hy)

  All-parts :
      (bs : List lib.Batch) (xs ys : List (Thread lib)) → All bs (xs ++ ys) → All bs xs × All bs ys
  All-parts bs [] ys h = (tt, h)
  All-parts bs (x ∷ xs) ys h = let (hx, hy) = All-parts bs xs ys h.1 in ((h.0, hx), hy)

  moved :
      (i : ℕ) (before rest : List (Thread lib)) (t t' : Thread lib) (c c' : ℕ)
      → took i t' + c ≡ took i t + c'
      → total (took i) (before ++ t ∷ rest) ≡ c
      → total (took i) (before ++ t' ∷ rest) ≡ c'
  moved i before rest t t' c c' e h = omega (arith, total-step (took i) before rest t t')

  stepped-IsShared :
      (bs : List lib.Batch) (s : AdbcResultStream lib) (before rest : List (Thread lib))
      (t : Thread lib)
      → IsShared bs (record { shared = s; threads = before ++ t ∷ rest })
      → IsShared bs
          (record { shared = (advance lib t s).1; threads = before ++ (advance lib t s).0 ∷ rest })
  stepped-IsShared bs s before rest t h =
      let (hb, hts) = All-parts bs before (t ∷ rest) h.right in
      let a = advance-Advanced bs t s h.stays hts.0 in
      record {
        stays = a.stays;
        right = All-append bs before ((advance lib t s).0 ∷ rest) hb (a.right, hts.1);
        once = λ i. moved i before rest t (advance lib t s).0 _ _ (a.moves i) (h.once i);
      }

  total-ready : (i n : ℕ) → total (took i) (replicate n ready) ≡ 0
  total-ready i zero = refl
  total-ready i (suc n) = omega (arith, total-ready i n)

  All-ready : (bs : List lib.Batch) (n : ℕ) → All bs (replicate n ready)
  All-ready bs zero = tt
  All-ready bs (suc n) = (tt, All-ready bs n)

  start-IsShared :
      (s : AdbcResultStream lib) (calls : ℕ)
      → s.batches_poisoned ≡ false
      → s.index_poisoned ≡ false
      → s.index ≡ 0
      → IsShared s.batches (record { shared = s; threads = replicate calls ready })
  start-IsShared s calls sound sound' zeroed = record {
    stays = record {
      batches = refl;
      batches_sound = sound;
      index_sound = sound';
      within = omega arith;
    };
    right = All-ready s.batches calls;
    once = λ i. total-ready i calls ∙ ground arith;
  }

  -- The stream of a reader that was collected.
  record IsFresh (s : AdbcResultStream lib) : Type 0 where
    batches_sound : s.batches_poisoned ≡ false
    index_sound : s.index_poisoned ≡ false
    at_start : s.index ≡ 0

  collected-Yields :
      (reader : Result Text (lib.Schema × List (Result Text lib.Batch)))
      → Yields IsFresh (collected lib reader)
  unfolding collected
  collected-Yields reader = Yields-bind (map_err AdbcError.message reader) (λ t got.
      Yields-bind (map_err AdbcError.message (try_collect t.1)) (λ batches all.
        Yields-ok _ (record { batches_sound = refl; index_sound = refl; at_start = refl })))

  execute-Yields :
      (statement : AdbcStatement lib) → Yields IsFresh (adbc_statement_execute lib statement).0
  unfolding adbc_statement_execute
  execute-Yields statement =
      if_split
        (λ (t : Result AdbcError (AdbcResultStream lib) × AdbcStatement lib). Yields IsFresh t.0)
        statement.poisoned _ _ (λ lost. Yields-err AdbcError.statement_lock)
        (λ sound. collected-Yields (lib.execute statement.statement).0)

-- However many calls for the next batch are made of the stream of a statement that was executed, and
-- however their steps interleave, no call panics or fails: each has an index of its own, the indices that
-- were taken are those below the stream's, and a call that replies with a batch gives that at its index.
pub adbc_stream_next-IsShared :
    (lib : AdbcLib) (statement : AdbcStatement lib) (s : AdbcResultStream lib) (calls : ℕ)
    (t : Calls lib)
    → (adbc_statement_execute lib statement).0 ≡ ok s
    → Reach (advance lib) (record { shared = s; threads = replicate calls ready }) t
    → IsShared lib s.batches t
adbc_stream_next-IsShared lib statement s calls t executed reached =
    let fresh = (execute-Yields lib statement).at s executed in
    Reach-kept (advance lib) (IsShared lib s.batches) (stepped-IsShared lib s.batches)
      (start-IsShared lib s calls fresh.batches_sound fresh.index_sound fresh.at_start) reached
