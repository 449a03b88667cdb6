-- ===== src/Prelude/Text.antt =====
-- Python's text methods over code points, for the texts that the program looks into. `lower` and
-- `strip` act on the ASCII range and on the white space below 256; the configured markers, paths,
-- commands and domains that they are compared with are ASCII.
use Prim.Native.Nat.{ℕ, ◌+◌, ◌-◌}
use Prim.Native.Char.{code}
use Prim.Native.String.{String, ◌++◌ as string_append}
use mathlib.Core.Path.{◌≡◌, refl}
use mathlib.Core.Bool.{Bool, true, false, ◌&&◌, ◌||◌}
use mathlib.Core.List.{List, [], ◌∷◌, ◌++◌, map, reverse}
use native.Mathlib.Omega.{arith}
use aixion_control_tower.Prelude.Tests.{leb, nat_beq, if◌then◌else◌}

-- The code points of a text.
abbrev pub Text : Type 0
Text = List ℕ

abbrev pub codes : String → Text
codes String.[] = []
codes (String.◌∷◌ c s) = code c ∷ codes s

-- `s + t`
abbrev pub concat : String → String → String
concat = string_append

-- `" ".join(texts)`
abbrev pub join_spaced : List String → String
join_spaced [] = ""
join_spaced (s ∷ []) = s
join_spaced (s ∷ t ∷ rest) = string_append s (string_append " " (join_spaced (t ∷ rest)))

unfoldable pub lower_code : ℕ → ℕ
lower_code c = if leb 65 c && leb c 90 then c + 32 else c

-- `text.lower()`
abbrev pub lower : Text → Text
lower = map lower_code

unfoldable pub upper_code : ℕ → ℕ
upper_code c = if leb 97 c && leb c 122 then c - 32 else c

-- `text.upper()`
abbrev pub upper : Text → Text
upper = map upper_code

-- `c.isspace()`
abbrev pub is_space : ℕ → Bool
is_space c = (leb 9 c && leb c 13) || (leb 28 c && leb c 32) || nat_beq c 133 || nat_beq c 160

abbrev pub strip_left : Text → Text
strip_left [] = []
strip_left (c ∷ s) = let rest = strip_left s in if is_space c then rest else c ∷ s

-- `text.rstrip()`
abbrev pub strip_right : Text → Text
strip_right s = reverse (strip_left (reverse s))

-- `text.strip()`
abbrev pub strip : Text → Text
strip s = strip_right (strip_left s)

-- `s.startswith(p)`
abbrev pub starts_with : Text → Text → Bool
starts_with s [] = true
starts_with [] (d ∷ p) = false
starts_with (c ∷ s) (d ∷ p) = nat_beq c d && starts_with s p

-- `s.endswith(p)`
abbrev pub ends_with : Text → Text → Bool
ends_with s p = starts_with (reverse s) (reverse p)

-- `p in s`
abbrev pub has : Text → Text → Bool
has [] p = starts_with [] p
has (c ∷ s) p = starts_with (c ∷ s) p || has s p

-- `s == t`
abbrev pub same : Text → Text → Bool
same [] [] = true
same [] (d ∷ t) = false
same (c ∷ s) [] = false
same (c ∷ s) (d ∷ t) = nat_beq c d && same s t

abbrev pub is_empty : Text → Bool
is_empty [] = true
is_empty (c ∷ s) = false

-- What `s == t` accepts is equal.
pub same→≡ : (s t : Text) → same s t ≡ true → s ≡ t
same→≡ [] [] h = refl
same→≡ [] (d ∷ t) h = ground arith
same→≡ (c ∷ s) [] h = ground arith
same→≡ (c ∷ s) (d ∷ t) h = ground (arith, same→≡ s t)

-- A text that starts with `p` is `p` followed by the rest.
pub starts_with→append : (s p : Text) → starts_with s p ≡ true → (r : Text) × (s ≡ p ++ r)
starts_with→append s [] h = (s, refl)
starts_with→append [] (d ∷ p) h = ground arith
starts_with→append (c ∷ s) (d ∷ p) h =
    let (r, e) = starts_with→append s p (ground arith) in (r, ground arith)
