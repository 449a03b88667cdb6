-- ===== src/Prelude/Sort.antt =====
-- Python's `sorted(values, key=rank)`, which keeps the order of entries of one rank.
use Prim.Native.Nat.{ℕ, ◌≤◌}
use mathlib.Core.Path.{◌≡◌, refl}
use mathlib.Core.Logic.{inl, inr}
use mathlib.Core.List.{List, [], ◌∷◌, ◌++◌}
use native.Mathlib.Omega.{arith}
use aixion_control_tower.Prelude.Tests.{leb, if◌then◌else◌, Bool-cases}
use aixion_control_tower.Prelude.Lists.{All}

module _ {A : Type 0} (rank : A → ℕ) where
  abbrev pub insert : A → List A → List A
  insert x [] = x ∷ []
  insert x (y ∷ ys) =
      let rest = insert x ys in if leb (rank x) (rank y) then x ∷ y ∷ ys else y ∷ rest

  abbrev pub sort_by : List A → List A
  sort_by [] = []
  sort_by (x ∷ xs) = insert x (sort_by xs)

  insert-last :
      (x e : A) (xs : List A) → rank x ≤ rank e → insert x (xs ++ e ∷ []) ≡ insert x xs ++ e ∷ []
  insert-last x e [] h = ground arith
  insert-last x e (y ∷ ys) h = ground (arith, insert-last x e ys h)

  -- An entry that no other exceeds comes last.
  pub sort_by-last :
      (e : A) (xs : List A)
      → All (λ x. rank x ≤ rank e) xs
      → sort_by (xs ++ e ∷ []) ≡ sort_by xs ++ e ∷ []
  sort_by-last e [] h = refl
  sort_by-last e (x ∷ xs) h = rw (sort_by-last e xs h.1) (insert-last x e (sort_by xs) h.0)

  module _ {κ} (P : A → Type κ) where
    insert-All : (x : A) (xs : List A) → All P (insert x xs) → P x × All P xs
    insert-All x [] h = h
    insert-All x (y ∷ ys) h = elim (Bool-cases (leb (rank x) (rank y))) [
      | inl le ↦ (rw le at h)
      | inr gt ↦ let k = rw gt at h in let rest = insert-All x ys k.1 in (rest.0, (k.0, rest.1))
    ]

    -- What holds of the sorted entries holds of the entries.
    pub sort_by-All : (xs : List A) → All P (sort_by xs) → All P xs
    sort_by-All [] h = tt
    sort_by-All (x ∷ xs) h = let k = insert-All x (sort_by xs) h in (k.0, sort_by-All xs k.1)
