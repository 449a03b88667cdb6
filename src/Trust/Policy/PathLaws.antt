-- ===== src/Trust/Policy/PathLaws.antt =====
-- Paths that trust_policy.py accepts.
use Prim.Native.Nat.{ℕ}
use aixion_control_tower.Prelude.{
  Bool, true, false, ◌&&◌, ◌||◌, not, none, some, List, [], ◌∷◌, ◌++◌, String, ◌≡◌, ◌⊎◌, refl, inl,
  inr, sym, ap, ◌∙◌, arith, nat_beq, if◌then◌else◌, any, keep, is_nil, All, Bool-cases,
  Option-cases,
}
use mathlib.Core.Path.{subst}
use aixion_control_tower.Prelude.Text.{
  Text, codes, strip, starts_with, same, same→≡, starts_with→append, is_empty,
}
use aixion_control_tower.Trust.Policy.Paths.{
  push, split_on, join_slash, is_part, path_parts, forward_slashes, rstrip_code, is_parent,
  clean_path, is_sensitive_path_part, lies_under, is_under, path_allowed,
}

-- No slash in the text.
abbrev IsName : Text → Type 0
IsName = All (λ c. nat_beq c 47 ≡ false)

push-IsName :
    (d : ℕ) (ps : List Text) → nat_beq d 47 ≡ false → All IsName ps → All IsName (push d ps)
push-IsName d [] h k = ((h, tt), tt)
push-IsName d (p ∷ ps) h k = ((h, k.0), k.1)

split_on-IsName : (s : Text) → All IsName (split_on 47 s)
split_on-IsName [] = (tt, tt)
split_on-IsName (d ∷ s) = elim (Bool-cases (nat_beq d 47)) [
  | inl slash ↦ rw slash (tt, split_on-IsName s)
  | inr other ↦ rw other (push-IsName d (split_on 47 s) other (split_on-IsName s))
]

split_on-name : (p : Text) → IsName p → split_on 47 p ≡ p ∷ []
split_on-name [] h = refl
split_on-name (c ∷ p) h = rw (h.0, split_on-name p h.1) refl

split_on-slash : (p s : Text) → IsName p → split_on 47 (p ++ 47 ∷ s) ≡ p ∷ split_on 47 s
split_on-slash [] s h = refl
split_on-slash (c ∷ p) s h = rw (h.0, split_on-slash p s h.1) refl

split_on-join_slash :
    (p : Text) (ps : List Text) → All IsName (p ∷ ps) → split_on 47 (join_slash (p ∷ ps)) ≡ p ∷ ps
split_on-join_slash p [] h = split_on-name p h.0
split_on-join_slash p (q ∷ ps) h =
    split_on-slash p (join_slash (q ∷ ps)) h.0 ∙ ap (λ r. p ∷ r) (split_on-join_slash q ps h.1)

keep-All : {A : Type 0} (p : A → Bool) (P : A → Type 0) (xs : List A) → All P xs → All P (keep p xs)
keep-All p P [] h = tt
keep-All p P (x ∷ xs) h = elim (Bool-cases (p x)) [
  | inl kept ↦ rw kept (h.0, keep-All p P xs h.1)
  | inr dropped ↦ rw dropped (keep-All p P xs h.1)
]

keep-keep : {A : Type 0} (p : A → Bool) (xs : List A) → keep p (keep p xs) ≡ keep p xs
keep-keep p [] = refl
keep-keep p (x ∷ xs) = elim (Bool-cases (p x)) [
  | inl kept ↦ rw (kept, kept) (ap (λ r. x ∷ r) (keep-keep p xs))
  | inr dropped ↦ rw dropped (keep-keep p xs)
]

none-any : {A : Type 0} (p : A → Bool) (xs : List A) → any p xs ≡ false → All (λ x. p x ≡ false) xs
none-any p [] h = tt
none-any p (x ∷ xs) h = ground (arith, none-any p xs)

-- Joining the parts of a path and taking it apart again gives the parts.
join-path_parts :
    (ps : List Text)
    → is_nil ps ≡ false
    → All IsName ps
    → keep is_part ps ≡ ps
    → path_parts (join_slash ps) ≡ ps
unfolding path_parts
join-path_parts [] h k e = ground arith
join-path_parts (p ∷ ps) h k e = ap (keep is_part) (split_on-join_slash p ps k) ∙ e

-- The last test of `_clean_path`.
cleaned :
    (refused : Bool) (parts : List Text) (clean : Text)
    → (if refused
        then none
        else if any is_parent parts || is_nil parts
        then none
        else some (join_slash parts))
      ≡ some clean
    → (any is_parent parts ≡ false) × (is_nil parts ≡ false) × (join_slash parts ≡ clean)
cleaned refused parts clean h = ground arith

clean_path-parts :
    (value clean : Text)
    → clean_path value ≡ some clean
    → All (λ p. is_parent p ≡ false) (path_parts clean)
unfolding clean_path path_parts
clean_path-parts value clean h =
    let candidate = forward_slashes (strip value) in
    let parts = path_parts candidate in
    let (no_parent, some_part, e) =
      cleaned (is_empty candidate || starts_with candidate (codes "/")) parts clean h in
    let again =
      join-path_parts parts some_part
        (keep-All is_part IsName (split_on 47 candidate) (split_on-IsName candidate))
        (keep-keep is_part (split_on 47 candidate)) in
    subst (λ c. All (λ p. is_parent p ≡ false) (path_parts c)) e
      (subst (All (λ p. is_parent p ≡ false)) (sym again) (none-any is_parent parts no_parent))

-- The clean path is the base itself or goes on below it.
abbrev pub LiesUnder : Text → Text → Type 0
LiesUnder clean base = (clean ≡ base) ⊎ ((rest : Text) × (clean ≡ (base ++ codes "/") ++ rest))

-- To be safe, a path needs a clean form without a parent reference and without a sensitive part,
-- which lies under the clean form of one of the prefixes.
pub record IsSafe (path : String) (prefixes : List String) : Type 0 where
  pub clean : Text
  pub is_clean : clean_path (codes path) ≡ some clean
  pub no_parent : All (λ p. is_parent p ≡ false) (path_parts clean)
  pub no_secret : All (λ p. is_sensitive_path_part p ≡ false) (path_parts clean)
  pub prefix : String
  pub base : Text
  pub is_base : clean_path (rstrip_code 47 (codes prefix)) ≡ some base
  pub under : LiesUnder clean base

lies_under-LiesUnder : (clean base : Text) → lies_under clean base ≡ true → LiesUnder clean base
lies_under-LiesUnder clean base h = elim (Bool-cases (same clean base)) [
  | inl equal ↦ inl (same→≡ clean base equal)
  | inr longer ↦ inr (starts_with→append clean (base ++ codes "/") (rw longer at h))
]

-- The prefix that a path lies under.
Under : Text → String → Type 0
Under clean prefix =
    (base : Text) × (clean_path (rstrip_code 47 (codes prefix)) ≡ some base) × LiesUnder clean base

is_under-Under :
    (clean : Text) (prefix : String) → is_under clean prefix ≡ true → Under clean prefix
unfolding is_under Under
is_under-Under clean prefix h = elim (Option-cases (clean_path (rstrip_code 47 (codes prefix)))) [
  | inl nothing ↦ ground (arith, nothing)
  | inr (base, e) ↦ (base, e, lies_under-LiesUnder clean base (ground (arith, e)))
]

any-Under :
    (clean : Text) (prefixes : List String)
    → any (is_under clean) prefixes ≡ true
    → (prefix : String) × Under clean prefix
any-Under clean [] h = ground arith
any-Under clean (p ∷ ps) h = elim (Bool-cases (is_under clean p)) [
  | inl yes_under ↦ (p, is_under-Under clean p yes_under)
  | inr other ↦ any-Under clean ps (rw other at h)
]

both : (a b : Bool) → (not a && b) ≡ true → (a ≡ false) × (b ≡ true)
both a b h = ground arith

-- A path that the policy allows has a clean form, none of whose parts is a parent reference or
-- sensitive, and which is the clean form of one of the prefixes or that one followed by a slash and
-- more.
pub path_allowed-IsSafe :
    (path : String) (prefixes : List String)
    → path_allowed path prefixes ≡ true
    → IsSafe path prefixes
unfolding path_allowed Under
path_allowed-IsSafe path prefixes h = elim (Option-cases (clean_path (codes path))) [
  | inl nothing ↦ ground (arith, nothing)
  | inr (clean, e) ↦
      let (secret, below) =
        both (any is_sensitive_path_part (path_parts clean)) (any (is_under clean) prefixes)
          (rw (path_allowed, e) at h) in
      let (prefix, (base, is_base, under)) = any-Under clean prefixes below in
      record {
        clean = clean;
        is_clean = e;
        no_parent = clean_path-parts (codes path) clean e;
        no_secret = none-any is_sensitive_path_part (path_parts clean) secret;
        prefix = prefix;
        base = base;
        is_base = is_base;
        under = under;
      }
]
