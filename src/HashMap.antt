-- ===== src/HashMap.antt =====
-- Rust's `HashMap<String, V>` as the list of its entries, with `get` and `insert`. The order in which
-- the map is iterated over is unspecified, and is a parameter where the program iterates.
use ex_arrow.Prelude.{
  ℕ, zero, suc, ◌≡◌, refl, sym, ◌∙◌, ap, ap₂, subst, inl, inr, false, Bool-cases, Option, none,
  some, List, [], ◌∷◌, get_elem?, if◌then◌else◌, arith,
}
use ex_arrow.Beam.{Text, text_eq, text_eq_refl, text_eq_sym, text_eq→≡}

module _ {ℓ} {V : Type ℓ} where
  abbrev pub get : Text → List (Text × V) → Option V
  get k [] = none
  get k ((j, v) ∷ m) = if text_eq j k then some v else get k m

  unfoldable pub insert : Text → V → List (Text × V) → List (Text × V)
  insert k v [] = (k, v) ∷ []
  insert k v ((j, w) ∷ m) = if text_eq j k then (k, v) ∷ m else (j, w) ∷ insert k v m

  -- No key stands twice.
  abbrev pub IsKeyed : List (Text × V) → Type ℓ
  IsKeyed [] = Unit
  IsKeyed ((k, v) ∷ m) = (get k m ≡ none) × IsKeyed m

  pub get-insert :
      (k j : Text) (v : V) (m : List (Text × V))
      → get j (insert k v m) ≡ (if text_eq k j then some v else get j m)
  unfolding insert
  get-insert k j v [] = refl
  get-insert k j v ((i, w) ∷ m) = elim (Bool-cases (text_eq i k)) [
    | inl same ↦ rw same (rw (text_eq→≡ i k same) (ground arith))
    | inr other ↦ rw other (elim (Bool-cases (text_eq k j)) [
      | inl hit ↦
          let apart : text_eq i j ≡ false = rw (← text_eq→≡ k j hit) other in
          rw (apart, hit) (get-insert k j v m ∙ rw hit)
      | inr miss ↦ ap (λ o. if text_eq i j then some w else o) (get-insert k j v m) ∙ rw miss
    ])
  ]

  pub insert-IsKeyed : (k : Text) (v : V) (m : List (Text × V)) → IsKeyed m → IsKeyed (insert k v m)
  unfolding insert
  insert-IsKeyed k v [] h = (refl, tt)
  insert-IsKeyed k v ((i, w) ∷ m) (fresh, h) = elim (Bool-cases (text_eq i k)) [
    | inl same ↦ rw same (subst (λ t. get t m ≡ none) (text_eq→≡ i k same) fresh, h)
    | inr other ↦
        rw other
          (get-insert k i v m ∙ rw (text_eq_sym k i) (rw other fresh), insert-IsKeyed k v m h)
  ]

  -- An entry is what its key stands for.
  pub get_of_elem :
      (m : List (Text × V)) (i : ℕ) (k : Text) (v : V)
      → IsKeyed m
      → get_elem? m i ≡ some (k, v)
      → get k m ≡ some v
  get_of_elem [] i k v h at = cc
  get_of_elem ((j, w) ∷ m) zero k v h at =
      let keys : j ≡ k = cc in
      let values : some w ≡ some v = cc in
      rw (ap (λ t. text_eq j t) (sym keys) ∙ text_eq_refl j) values
  get_of_elem ((j, w) ∷ m) (suc i) k v (fresh, h) at =
      let found = get_of_elem m i k v h at in
      elim (Bool-cases (text_eq j k)) [
        | inl same ↦ absurd (cc (found, fresh, ap (λ t. get t m) (text_eq→≡ j k same)))
        | inr other ↦ rw other found
      ]

  abbrev pub Entries {κ} : (Text → V → Type κ) → List (Text × V) → Type κ
  Entries P [] = Unit
  Entries P ((k, v) ∷ m) = P k v × Entries P m

  pub insert-Entries {κ} :
      (P : Text → V → Type κ) (k : Text) (v : V) (m : List (Text × V))
      → P k v
      → Entries P m
      → Entries P (insert k v m)
  unfolding insert
  insert-Entries P k v [] new h = (new, tt)
  insert-Entries P k v ((j, w) ∷ m) new (old, h) = elim (Bool-cases (text_eq j k)) [
    | inl same ↦ rw same (new, h)
    | inr other ↦ rw other (old, insert-Entries P k v m new h)
  ]

  pub Entries_at {κ} :
      (P : Text → V → Type κ) (m : List (Text × V)) (i : ℕ) (k : Text) (v : V)
      → Entries P m
      → get_elem? m i ≡ some (k, v)
      → P k v
  Entries_at P [] i k v h at = cc
  Entries_at P ((j, w) ∷ m) zero k v h at =
      let keys : j ≡ k = cc in
      let values : w ≡ v = cc in subst (P k) values (subst (λ t. P t w) keys h.0)
  Entries_at P ((j, w) ∷ m) (suc i) k v h at = Entries_at P m i k v h.1 at

  pub elem_of_get :
      (m : List (Text × V)) (k : Text) (v : V)
      → get k m ≡ some v
      → (i : ℕ) × (get_elem? m i ≡ some (k, v))
  elem_of_get [] k v h = cc
  elem_of_get ((j, w) ∷ m) k v h = elim (Bool-cases (text_eq j k)) [
    | inl same ↦
        let here : w ≡ v = ground arith in (0, ap₂ (λ t x. some (t, x)) (text_eq→≡ j k same) here)
    | inr other ↦ let (i, at) = elem_of_get m k v (rw other at h) in (suc i, at)
  ]
