-- ===== src/Prelude/TextLaws.antt =====
-- Substrings of joined texts.
use Prim.Native.Char.{code}
use Prim.Native.String.{String}
use Prim.Native.String.append
use mathlib.Core.Path.{◌≡◌, refl, ap, ◌∙◌}
use mathlib.Core.Logic.{inl, inr}
use mathlib.Core.Bool.{true}
use mathlib.Core.List.{List, [], ◌∷◌, ◌++◌, map-append}
use native.Mathlib.Omega.{arith}
use aixion_control_tower.Prelude.Tests.{Bool-cases}
use aixion_control_tower.Prelude.Lists.{any}
use aixion_control_tower.Prelude.Text.{
  Text, codes, concat, join_spaced, lower, lower_code, starts_with, has,
}

codes-concat : (s t : String) → codes (concat s t) ≡ codes s ++ codes t
codes-concat String.[] t = λ i. codes (append.nil t i)
codes-concat (String.◌∷◌ c s) t =
    (λ i. codes (append.cons c s t i)) ∙ ap (λ r. code c ∷ r) (codes-concat s t)

starts_with-append : (s t p : Text) → starts_with s p ≡ true → starts_with (s ++ t) p ≡ true
starts_with-append s t [] h = refl
starts_with-append [] t (d ∷ p) h = ground arith
starts_with-append (c ∷ s) t (d ∷ p) h = ground (arith, starts_with-append s t p)

has-nil : (p : Text) → starts_with [] p ≡ true → p ≡ []
has-nil [] h = refl
has-nil (d ∷ p) h = ground arith

has_all : (s : Text) → has s [] ≡ true
has_all [] = refl
has_all (c ∷ s) = refl

pub has-append_left : (s t p : Text) → has s p ≡ true → has (s ++ t) p ≡ true
has-append_left [] t [] h = has_all t
has-append_left [] t (d ∷ p) h = ground arith
has-append_left (c ∷ s) t p h =
    ground (arith, has-append_left s t p, starts_with-append (c ∷ s) t p)

pub has-append_right : (s t p : Text) → has t p ≡ true → has (s ++ t) p ≡ true
has-append_right [] t p h = h
has-append_right (c ∷ s) t p h = ground (arith, has-append_right s t p h)

lower-concat : (s t : String) → lower (codes (concat s t)) ≡ lower (codes s) ++ lower (codes t)
lower-concat s t = rw codes-concat (map-append lower_code (codes s) (codes t))

-- A joined text contains what one of its parts contains, also after lowering the case.
pub join_spaced-has :
    (p : Text) (parts : List String)
    → any (λ part. has (lower (codes part)) p) parts ≡ true
    → has (lower (codes (join_spaced parts))) p ≡ true
join_spaced-has p [] h = ground arith
join_spaced-has p (s ∷ []) h = ground arith
join_spaced-has p (s ∷ t ∷ rest) h =
    let tail = join_spaced (t ∷ rest) in
    let later = concat " " tail in
    rw (lower-concat s later) (elim (Bool-cases (has (lower (codes s)) p)) [
      | inl here ↦ has-append_left (lower (codes s)) (lower (codes later)) p here
      | inr absent ↦ has-append_right (lower (codes s)) (lower (codes later)) p (
          rw (lower-concat " " tail) (
            has-append_right (lower (codes " ")) (lower (codes tail)) p
              (join_spaced-has p (t ∷ rest) (ground arith))))
    ])
