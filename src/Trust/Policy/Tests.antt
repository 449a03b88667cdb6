-- ===== src/Trust/Policy/Tests.antt =====
-- The policy at a concrete lease, with a signature that is the receipt's nonce.
use aixion_control_tower.Prelude.{refl, some, List, [], ◌∷◌, String, Option}
use aixion_control_tower.Prelude.Text.{Text, lower_code}
use aixion_control_tower.Trust.Policy.Paths.{
  path_parts, clean_path, stem, is_sensitive_path_part, is_under, path_allowed,
}
use aixion_control_tower.Trust.Policy.Evaluate.{
  LeaseReceipt, block_reasons, evaluate_proposed_action,
}
use aixion_control_tower.Trust.Policy.Within.{Holds, Targets, Covers, Affords, Unattended}
use aixion_control_tower.Trust.Policy.AllowLaws.{evaluate-allow}
use aixion_control_tower.Trust.Policy.PathLaws.{IsSafe, path_allowed-IsSafe}
use aixion_control_tower.Trust.Policy.Fixtures.{source_scope, source_lease, source_change}

path_allowed-IsSafe_example : IsSafe "src/app/main.py" ("docs" ∷ "src/" ∷ [])
unfolding path_allowed clean_path path_parts is_sensitive_path_part stem is_under lower_code
path_allowed-IsSafe_example = path_allowed-IsSafe "src/app/main.py" ("docs" ∷ "src/" ∷ []) refl

-- A signature and a split of commands for the tests.
abbrev nonce_signature : LeaseReceipt → String
nonce_signature receipt = receipt.receipt_nonce

abbrev one_token : Text → Option (List Text)
one_token command = some (command ∷ [])

evaluate-allow_example :
    Holds nonce_signature 10 source_change source_lease
    × Targets source_change source_scope
    × Covers one_token source_change source_scope
    × Affords source_change source_lease
    × Unattended source_change source_lease
unfolding evaluate_proposed_action block_reasons path_allowed clean_path path_parts
    is_sensitive_path_part stem is_under lower_code
evaluate-allow_example = evaluate-allow nonce_signature one_token 10 source_change source_lease refl
