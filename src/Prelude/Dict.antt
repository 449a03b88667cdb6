-- ===== src/Prelude/Dict.antt =====
-- Python's `dict` of records by their `id`, in insertion order.
use Prim.Native.String.{String}
use mathlib.Core.Path.{◌≡◌, refl, subst}
use mathlib.Core.Option.{Option, none, some, none-ne-some, some-injective}
use mathlib.Core.List.{List, [], ◌∷◌, ◌++◌}
use mathlib.Core.Logic.{inl, inr}
use native.Mathlib.Omega.{arith}
use aixion_control_tower.Prelude.Tests.{if◌then◌else◌, Bool-cases}
use aixion_control_tower.Prelude.Equality.{◌==◌, string_eq, eq_iff}
use aixion_control_tower.Prelude.Lists.{All}

pub record Keyed (A : Type 0) : Type 0 where
  pub key : A → String

module _ {A : Type 0} ⦃k : Keyed A⦄ where
  -- `d.get(i)`
  abbrev pub get : String → List A → Option A
  get i [] = none
  get i (x ∷ xs) = let rest = get i xs in if k.key x == i then some x else rest

  -- `d[x.id] = x`
  abbrev pub put : A → List A → List A
  put x [] = x ∷ []
  put x (y ∷ ys) = let rest = put x ys in if k.key y == k.key x then x ∷ ys else y ∷ rest

  pub get-put :
      (x : A) (i : String) (xs : List A)
      → get i (put x xs) ≡ (if k.key x == i then some x else get i xs)
  get-put x i [] = refl
  get-put x i (y ∷ ys) =
      ground
        (arith, get-put x i ys, eq_iff (k.key y) (k.key x), eq_iff (k.key y) i, eq_iff (k.key x) i)

  pub key-get : (i : String) (xs : List A) (x : A) → get i xs ≡ some x → k.key x ≡ i
  key-get i [] x h = ground arith
  key-get i (y ∷ ys) x h = ground (arith, key-get i ys x, eq_iff (k.key y) i)

module _ {κ} {A : Type 0} ⦃k : Keyed A⦄ (P : A → Type κ) where
  pub All-put : (x : A) (xs : List A) → P x → All P xs → All P (put x xs)
  All-put x [] p h = (p, tt)
  All-put x (y ∷ ys) p h = elim (Bool-cases (k.key y == k.key x)) [
    | inl same ↦ rw same (p, h.1)
    | inr other ↦ rw other (h.0, All-put x ys p h.1)
  ]

  pub All-get : (i : String) (xs : List A) (x : A) → All P xs → get i xs ≡ some x → P x
  All-get i [] x h e = absurd (none-ne-some x e)
  All-get i (y ∷ ys) x h e = elim (Bool-cases (k.key y == i)) [
    | inl same ↦ subst P (some-injective y x (rw same at e)) h.0
    | inr other ↦ All-get i ys x h.1 (rw other at e)
  ]

module _ {A : Type 0} ⦃k : Keyed A⦄ where
  pub get-put_self : (x : A) (i : String) (xs : List A) → k.key x ≡ i → get i (put x xs) ≡ some x
  get-put_self x i xs e = ground (arith, get-put x i xs, eq_iff (k.key x) i)

  -- A record under a fresh id goes to the end.
  pub put-fresh : (x : A) (xs : List A) → get (k.key x) xs ≡ none → put x xs ≡ xs ++ x ∷ []
  put-fresh x [] h = refl
  put-fresh x (y ∷ ys) h = ground (arith, put-fresh x ys)
