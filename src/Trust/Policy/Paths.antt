-- ===== src/Trust/Policy/Paths.antt =====
-- Paths, commands and domains of trust_policy.py: `_clean_path`, `_is_sensitive_path_part`,
-- `_path_allowed`, `_command_allowed` and `_domain_allowed`. `PurePosixPath` of a relative path is
-- the list of its parts; `shlex.split` is a parameter.
use Prim.Native.Nat.{ℕ}
use mathlib.Core.List.{reverse}
use aixion_control_tower.Prelude.{
  Bool, false, ◌&&◌, ◌||◌, not, Option, none, some, List, [], ◌∷◌, ◌++◌, map, String, nat_beq,
  if◌then◌else◌, any, keep, is_nil,
}
use aixion_control_tower.Prelude.Text.{
  Text, codes, lower, strip, starts_with, ends_with, has, same, is_empty,
}

-- `s.split(c)`
abbrev pub push : ℕ → List Text → List Text
push d [] = (d ∷ []) ∷ []
push d (p ∷ ps) = (d ∷ p) ∷ ps

abbrev pub split_on : ℕ → Text → List Text
split_on c [] = [] ∷ []
split_on c (d ∷ s) = let rest = split_on c s in if nat_beq d c then [] ∷ rest else push d rest

-- `"/".join(parts)`
abbrev pub join_slash : List Text → Text
join_slash [] = []
join_slash (p ∷ []) = p
join_slash (p ∷ q ∷ ps) = p ++ 47 ∷ join_slash (q ∷ ps)

-- `PurePosixPath(text).parts` of a relative path
abbrev pub is_part : Text → Bool
is_part p = not (is_empty p) && not (same p (codes "."))

unfoldable pub path_parts : Text → List Text
path_parts s = keep is_part (split_on 47 s)

-- `s.replace("\\", "/")`
abbrev pub forward_slashes : Text → Text
forward_slashes = map (λ c. if nat_beq c 92 then 47 else c)

abbrev pub drop_code : ℕ → Text → Text
drop_code c [] = []
drop_code c (d ∷ s) = let rest = drop_code c s in if nat_beq d c then rest else d ∷ s

-- `s.rstrip(c)` of one character
abbrev pub rstrip_code : ℕ → Text → Text
rstrip_code c s = reverse (drop_code c (reverse s))

abbrev pub is_parent : Text → Bool
is_parent p = same p (codes "..")

-- `_clean_path`
unfoldable pub clean_path : Text → Option Text
unfolding path_parts
clean_path value =
    let candidate = forward_slashes (strip value) in
    let parts = path_parts candidate in
    if is_empty candidate || starts_with candidate (codes "/")
    then none
    else if any is_parent parts || is_nil parts
    then none
    else some (join_slash parts)

-- `SENSITIVE_PATH_STEMS`
abbrev pub sensitive_path_stems : List String
sensitive_path_stems =
    ".env" ∷ ".git" ∷ ".ssh" ∷ "credentials" ∷ "private_key" ∷ "secrets" ∷ "id_rsa" ∷ []

-- The text before and after the last full stop.
abbrev pub last_dot : Text → Option (Text × Text)
last_dot [] = none
last_dot (c ∷ s) = elim (last_dot s) [
  | some (a, b) ↦ some (c ∷ a, b)
  | none ↦ if nat_beq c 46 then some ([], s) else none
]

-- `PurePosixPath(name).stem` of one part
unfoldable pub stem : Text → Text
stem name = elim (last_dot name) [
  | none ↦ name
  | some (a, b) ↦ if is_empty a || is_empty b then name else a
]

-- `_is_sensitive_path_part`
unfoldable pub is_sensitive_path_part : Text → Bool
unfolding stem
is_sensitive_path_part part =
    let lowered = lower part in
    starts_with lowered (codes ".env")
    || (same lowered (codes ".git") || same lowered (codes ".ssh"))
    || any (λ s. same (stem lowered) (codes s)) sensitive_path_stems

-- One round of the loop of `_path_allowed`.
abbrev pub lies_under : Text → Text → Bool
lies_under clean prefix = same clean prefix || starts_with clean (prefix ++ codes "/")

unfoldable pub is_under : Text → String → Bool
unfolding clean_path
is_under clean prefix = elim (clean_path (rstrip_code 47 (codes prefix))) [
  | none ↦ false
  | some base ↦ not (is_empty base) && lies_under clean base
]

unfoldable pub path_allowed : String → List String → Bool
unfolding clean_path is_sensitive_path_part is_under path_parts
path_allowed path prefixes = elim (clean_path (codes path)) [
  | none ↦ false
  | some clean ↦
      not (any is_sensitive_path_part (path_parts clean)) && any (is_under clean) prefixes
]

-- `SHELL_META`
abbrev pub shell_meta : List String
shell_meta = "&&" ∷ "||" ∷ ";" ∷ "|" ∷ ">" ∷ ">>" ∷ "<" ∷ "`" ∷ "$(" ∷ []

-- `cleaned in {item.strip() for item in allowed}`
abbrev pub is_listed : Text → List String → Bool
is_listed cleaned allowed = any (λ item. same cleaned (strip (codes item))) allowed

-- `_command_allowed`; the test for shell syntax decides between two equal answers, as it does in
-- the source.
unfoldable pub command_allowed : (Text → Option (List Text)) → String → List String → Bool
command_allowed shell_split command allowed =
    let cleaned = strip (codes command) in
    if is_empty cleaned then false else elim (shell_split cleaned) [
      | none ↦ false
      | some tokens ↦
          if is_nil tokens
          then false
          else if any (λ marker. has cleaned (codes marker)) shell_meta
          then is_listed cleaned allowed
          else is_listed cleaned allowed
    ]

-- `domain.strip().lower().rstrip(".")`
abbrev pub plain_domain : String → Text
plain_domain domain = rstrip_code 46 (lower (strip (codes domain)))

abbrev pub is_within_domain : Text → String → Bool
is_within_domain candidate configured =
    let base = plain_domain configured in same candidate base || ends_with candidate (46 ∷ base)

-- `_domain_allowed`
unfoldable pub domain_allowed : String → List String → Bool
domain_allowed domain allowed =
    let candidate = plain_domain domain in
    if is_empty candidate || (has candidate (codes "/") || has candidate (codes ":"))
    then false
    else any (is_within_domain candidate) allowed
