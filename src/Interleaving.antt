-- ===== src/Interleaving.antt =====
-- Calls at the same time on something that they share, for cdi.rs and adbc.rs: each call is a thread, which
-- `advance` takes one atomic step further, and any thread may take the next step.
use ex_arrow.Prelude.{ℕ, ◌+◌, ◌≡◌, sym, subst, List, [], ◌∷◌, ◌++◌, arith}

module _ {Thread Shared : Type 0} (advance : Thread → Shared → Thread × Shared) where
  pub record System : Type 0 where
    pub shared : Shared
    pub threads : List Thread

  pub data Step (s : System) (t : System) : Type 0 where
    step :
        (before : List Thread) (thread : Thread) (rest : List Thread)
        → s.threads ≡ before ++ thread ∷ rest
        → t ≡ record {
          shared = (advance thread s.shared).1;
          threads = before ++ (advance thread s.shared).0 ∷ rest;
        }
        → Step s t

  pub data Reach (s : System) : System → Type 0 where
    here : Reach s s
    next : {t u : System} → Reach s t → Step t u → Reach s u

  -- What every step of a thread keeps.
  module _ {ℓ} (P : System → Type ℓ)
      (keeps : (x : Shared) (before rest : List Thread) (t : Thread)
        → P (record { shared = x; threads = before ++ t ∷ rest })
        → P (record { shared = (advance t x).1; threads = before ++ (advance t x).0 ∷ rest })) where
    Step-kept : {s t : System} → Step s t → P s → P t
    Step-kept {s} (step before thread rest at to) p = subst P (sym to) (
        keeps s.shared before rest thread
          (subst (λ l. P (record { shared = s.shared; threads = l })) at p))

    pub Reach-kept : {s t : System} → P s → Reach s t → P t
    Reach-kept p here = p
    Reach-kept p (next r st) = Step-kept st (Reach-kept p r)

module _ {Thread : Type 0} where
  abbrev pub total : (Thread → ℕ) → List Thread → ℕ
  total f [] = 0
  total f (t ∷ ts) = f t + total f ts

  total-append :
      (f : Thread → ℕ) (xs ys : List Thread) → total f (xs ++ ys) ≡ total f xs + total f ys
  total-append f [] ys = omega arith
  total-append f (x ∷ xs) ys = omega (arith, total-append f xs ys)

  -- A step of one thread changes the total by what it changes of that thread.
  pub total-step :
      (f : Thread → ℕ) (before rest : List Thread) (t t' : Thread)
      → total f (before ++ t' ∷ rest) + f t ≡ total f (before ++ t ∷ rest) + f t'
  total-step f before rest t t' =
      omega (arith, total-append f before (t ∷ rest), total-append f before (t' ∷ rest))
