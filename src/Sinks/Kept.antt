-- ===== src/Sinks/Kept.antt =====
-- What a writing that succeeds has written, and where.
use mathlib.Core.List.{append-nil, append_assoc}
use ex_arrow.Prelude.{
  ℕ, ◌≡◌, refl, sym, ◌∙◌, ap, subst, Bool, true, Bool-cases, inl, inr, List, [], ◌∷◌, ◌++◌, length,
  Result, ok, err,
}
use ex_arrow.Beam.{Text}
use ex_arrow.Sinks.{Disk, write_batches, write_created, write_file, binary_of, answered}

-- A file that was created has what was written to it.
pub record DiskLaws (disk : Disk) : Type 0 where
  pub open-save :
      (fs created : disk.Files) (path bytes : Text)
      → disk.create fs path ≡ ok created
      → disk.open_file (disk.save created path bytes) path ≡ ok bytes

abbrev pub AllFit {ℓ} : {Batch : Type 0} → (Batch → Type ℓ) → List Batch → Type ℓ
AllFit Fits [] = Unit
AllFit Fits (b ∷ bs) = Fits b × AllFit Fits bs

module _ {Writer Batch : Type 0} (write : Writer → Batch → Result Text Writer × Text)
    (finish : Writer → Result Text (Unit {0}) × Text) where
  -- The writer that is finished holds these batches.
  pub record Finished {ℓ} (Holds : List Batch → Writer → Type ℓ) (bs : List Batch)
      (answer : Result Text (Unit {0}) × Text) : Type ℓ where
    pub writer : Writer
    pub holds : Holds bs writer
    pub is : answer ≡ finish writer

  module _ {ℓ κ} (Holds : List Batch → Writer → Type ℓ) (Fits : Batch → Type κ)
      (grows : (before : List Batch) (w w' : Writer) (b : Batch)
        → Holds before w
        → Fits b
        → (write w b).0 ≡ ok w'
        → Holds (before ++ b ∷ []) w') where
    pub write_batches-Finished :
        (before bs : List Batch) (start : Result Text Writer × Text)
        → ((w : Writer) → start.0 ≡ ok w → Holds before w)
        → AllFit Fits bs
        → (write_batches write finish start bs).0 ≡ ok tt
        → Finished Holds (before ++ bs) (write_batches write finish start bs)
    unfolding write_batches
    write_batches-Finished before bs (err e, out) h fit wrote = cc
    write_batches-Finished before [] (ok w, out) h fit wrote = record {
      writer = w;
      holds = subst (λ l. Holds l w) (sym (append-nil before)) (h w refl);
      is = refl;
    }
    write_batches-Finished before (b ∷ bs) (ok w, out) h fit wrote =
        subst (λ l. Finished Holds l (write_batches write finish (write w b) bs))
          (append_assoc before (b ∷ []) bs)
          (write_batches-Finished (before ++ b ∷ []) bs (write w b)
            (λ w' e. grows before w w' b (h w refl) fit.0 e) fit.1 wrote)

  -- What a writing to a file that succeeds has done.
  pub record Saved (disk : Disk) (start : Result Text Writer × Text) (bs : List Batch) (path : Text)
      (fs after : disk.Files) : Type 0 where
    pub created : disk.Files
    pub creates : disk.create fs path ≡ ok created
    pub wrote : (write_batches write finish start bs).0 ≡ ok tt
    pub saves : after ≡ disk.save created path (write_batches write finish start bs).1

  write_created-Saved :
      (disk : Disk) (start : Result Text Writer × Text) (bs : List Batch) (path : Text)
      (fs after : disk.Files) (made : Result Text disk.Files)
      → disk.create fs path ≡ made
      → write_created write finish disk start bs path made fs ≡ (ok tt, after)
      → Saved disk start bs path fs after
  unfolding write_created
  write_created-Saved disk start bs path fs after (err e) creates done =
      absurd (cc (ap (λ t. t.0) done))
  write_created-Saved disk start bs path fs after (ok created) creates done = record {
    created = created;
    creates = creates;
    wrote = ap (λ t. t.0) done;
    saves = sym (ap (λ t. t.1) done);
  }

  pub write_file-Saved :
      (disk : Disk) (start : Result Text Writer × Text) (bs : List Batch) (path : Text)
      (fs after : disk.Files)
      → write_file write finish disk start bs path fs ≡ (ok tt, after)
      → Saved disk start bs path fs after
  unfolding write_file
  write_file-Saved disk start bs path fs after done =
      write_created-Saved disk start bs path fs after (disk.create fs path) refl done

  module _ (disk : Disk) (kept : DiskLaws disk) (start : Result Text Writer × Text)
      (bs : List Batch) (path : Text) (fs after : disk.Files)
      (h : Saved disk start bs path fs after) where
    -- What is opened again.
    pub saved_bytes : disk.open_file after path ≡ ok (write_batches write finish start bs).1
    saved_bytes =
        ap (λ d. disk.open_file d path) h.saves ∙ kept.open-save fs h.created path _ h.creates

-- A binary is made of a writing that succeeded, if its size is granted.
pub binary_of-eq-ok :
    (grants : ℕ → Bool) (answer : Result Text (Unit {0}) × Text) (bytes : Text)
    → binary_of grants answer ≡ ok bytes
    → (answer.0 ≡ ok tt) × (answer.1 ≡ bytes) × (grants (length bytes) ≡ true)
unfolding binary_of
binary_of-eq-ok grants (err e, out) bytes made = cc
binary_of-eq-ok grants (ok u, out) bytes made = elim (Bool-cases (grants (length out))) [
  | inl granted ↦
      let same : out ≡ bytes = cc (rw granted at made) in
      (refl, same, subst (λ l. grants (length l) ≡ true) same granted)
  | inr refused ↦ absurd (cc (rw refused at made))
]

-- What was answered without an error was written without one.
pub answered-ok :
    {E Files : Type 0} (message : Text → E) (answer : Result Text (Unit {0}) × Files)
    (after : Files)
    → answered message answer ≡ (ok tt, after)
    → answer ≡ (ok tt, after)
answered-ok message (err e, fs) after done = absurd (cc (ap (λ t. t.0) done))
answered-ok message (ok u, fs) after done = ap (λ x. (ok u, x)) (ap (λ t. t.1) done)
