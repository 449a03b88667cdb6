-- ===== src/AgentRun/Verifier/Markers.antt =====
-- The marker tables of agent_run_verifier.py.
use aixion_control_tower.Prelude.{List, [], ◌∷◌, String}

-- `TRANSIENT_MARKERS`
abbrev pub transient_markers : List String
transient_markers =
    "timeout" ∷ "timed out" ∷ "temporarily unavailable" ∷ "connection reset" ∷ "connection refused"
    ∷ "rate limit" ∷ "http 429" ∷ "http 500" ∷ "http 502" ∷ "http 503" ∷ "http 504" ∷ "worker lost"
    ∷ "lease expired" ∷ "container startup" ∷ []

-- `POLICY_BLOCK_MARKERS`
abbrev pub policy_block_markers : List String
policy_block_markers =
    "protected branch" ∷ "direct main" ∷ "branch must not be main" ∷ "secret" ∷ "credential"
    ∷ "approval signature" ∷ "approved payload hash" ∷ "outside approved scope" ∷ "forbidden file"
    ∷ "unapproved mutation" ∷ []

-- `REVISION_MARKERS`
abbrev pub revision_markers : List String
revision_markers =
    "tests failed" ∷ "validation failed" ∷ "objective incomplete" ∷ "scope change"
    ∷ "additional files" ∷ "patch does not match" ∷ "regression" ∷ []

-- `HUMAN_MARKERS`
abbrev pub human_markers : List String
human_markers =
    "needs human" ∷ "manual review" ∷ "ambiguous" ∷ "conflicting payload" ∷ "already exists"
    ∷ "lost acknowledgement" ∷ []

-- The markers of a duplicate delivery, written out in `classify_execution_result`.
abbrev pub duplicate_markers : List String
duplicate_markers = "already exists" ∷ "duplicate" ∷ "already applied" ∷ []
