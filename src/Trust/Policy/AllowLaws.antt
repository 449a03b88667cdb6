-- ===== src/Trust/Policy/AllowLaws.antt =====
-- Actions that `evaluate_proposed_action` of trust_policy.py allows.
use aixion_control_tower.Prelude.{
  ◌≡◌, ◌≢◌, ◌⊎◌, refl, Bool, true, false, ◌&&◌, not, Option, none, some, List, [], ◌∷◌, ◌++◌,
  String, arith, eq_iff, leb, ◌==◌, ◌!=◌, contains, option_eq, string_eq, truthy, is_set, is_some,
  keep, is_nil, All, inl, inr, Bool-cases, Eq, sym, ap,
}
use aixion_control_tower.Prelude.Text.{Text}
use aixion_control_tower.AgentRun.Models.{Instant}
use aixion_control_tower.Trust.Models.{
  CapabilityLeaseMode, CapabilityLeaseStatus, CapabilityActionType, PolicyDecisionType,
  lease_status_eq, lease_mode_eq, action_type_eq, provider_eq,
}
use aixion_control_tower.Trust.Leases.{CapabilityScope, CapabilityLease, ProposedAction}
use aixion_control_tower.Trust.Policy.Paths.{path_allowed, domain_allowed}
use aixion_control_tower.Trust.Policy.Evaluate.{
  high_risk_actions, repository_actions, LeaseReceipt, lease_receipt_payload, PolicyReason, Check,
  raised, lease_checks, target_checks, resource_checks, budget_checks, decide_under, block_reasons,
  evaluate_proposed_action,
}
use aixion_control_tower.Trust.Policy.Within.{Holds, Targets, Covers, Affords, Unattended}

-- No condition of the list holds.
abbrev Clear : List Check → Type 0
Clear = All (λ check. check.0 ≡ false)

raised-nil : (checks : List Check) → is_nil (raised checks) ≡ true → Clear checks
raised-nil [] h = tt
raised-nil ((c, r) ∷ rest) h = ground (arith, raised-nil rest)

append-is_nil :
    (xs ys : List PolicyReason) → is_nil (xs ++ ys) ≡ true → (is_nil xs ≡ true) × (is_nil ys ≡ true)
append-is_nil [] ys h = (refl, h)
append-is_nil (x ∷ xs) ys h = ground arith

keep-nil :
    (p : String → Bool) (xs : List String)
    → not (is_nil (keep (λ x. not (p x)) xs)) ≡ false
    → All (λ x. p x ≡ true) xs
keep-nil p [] h = tt
keep-nil p (x ∷ xs) h = ground (arith, keep-nil p xs)

unequal : {A : Type 0} ⦃e : Eq A⦄ (a b : A) → (a != b) ≡ false → a ≡ b
unequal a b h = ground (arith, eq_iff a b)

empty_of_falsy : (s : String) → truthy s ≡ false → s ≡ ""
empty_of_falsy String.[] h = refl
empty_of_falsy (String.◌∷◌ c s) h = ground arith

agent_holds :
    (a l : Option String)
    → (is_set l && (a != l)) ≡ false
    → (not (is_some l) && is_some a) ≡ false
    → (a ≡ l) ⊎ (l ≡ some "")
agent_holds none none h k = inl refl
agent_holds (some a) none h k = ground arith
agent_holds a (some l) h k = elim (Bool-cases (truthy l)) [
  | inl set ↦ inl (unequal a (some l) (rw set at h))
  | inr falsy ↦ inr (ap some (empty_of_falsy l falsy))
]

lease-Holds :
    (sign_payload : LeaseReceipt → String) (now : Instant) (action : ProposedAction)
    (lease : CapabilityLease)
    → Clear (lease_checks sign_payload now action lease)
    → Holds sign_payload now action lease
lease-Holds sign_payload now action lease h =
    let (
      same_id,
      (is_active, (live, (is_signed, (bound, (unbound, (same_provider, (listed, _))))))),
    ) =
      h in
    record {
      identified = sym (unequal (some lease.id) action.lease_id same_id);
      active = unequal lease.status CapabilityLeaseStatus.active is_active;
      live = ground arith;
      signed =
          unequal (sign_payload (lease_receipt_payload lease)) lease.receipt_signature is_signed;
      agent = agent_holds action.agent_id lease.agent_id bound unbound;
      provider = unequal action.provider lease.provider same_provider;
      listed = ground arith;
    }

on_repository :
    (b : Bool) (x y u v : Option String)
    → (b && (x != y)) ≡ false
    → (b && (u != v)) ≡ false
    → (b ≡ false) ⊎ ((x ≡ y) × (u ≡ v))
on_repository false x y u v h k = inl refl
on_repository true x y u v h k = inr (unequal x y h, unequal u v k)

bound_to :
    (x : Option String) (s : String) → (truthy s && (x != some s)) ≡ false → (s ≡ "") ⊎ (x ≡ some s)
bound_to x s h = elim (Bool-cases (truthy s)) [
  | inl set ↦ inr (unequal x (some s) (rw set at h))
  | inr falsy ↦ inl (empty_of_falsy s falsy)
]

target-Targets :
    (action : ProposedAction) (scope : CapabilityScope)
    → Clear (target_checks action scope)
    → Targets action scope
target-Targets action scope h =
    let (repository, (branch, (unprotected, (merges, (run, (task, _)))))) = h in
    record {
      repository =
          on_repository (contains action.action_type repository_actions) action.repository
            (some scope.repository) action.branch (some scope.branch) repository branch;
      unprotected = unprotected;
      no_auto_merge = ground arith;
      run = bound_to action.run_id scope.run_id run;
      task = bound_to action.task_id scope.task_id task;
    }

unequal_or :
    (a b : CapabilityActionType) (c : Bool) → ((a == b) && c) ≡ false → (a ≢ b) ⊎ (c ≡ false)
unequal_or a b c h = elim (Bool-cases c) [
  | inl is_true ↦ inl (λ e. ground (arith, (eq_iff a b).1 e))
  | inr is_false ↦ inr is_false
]

resource-Covers :
    (shell_split : Text → Option (List Text)) (action : ProposedAction) (scope : CapabilityScope)
    → Clear (resource_checks shell_split action scope)
    → Covers shell_split action scope
resource-Covers shell_split action scope h =
    let (some_path, (paths, (_, (covered, (_, (domains, _)))))) = h in
    record {
      paths = keep-nil (λ path. path_allowed path scope.allowed_path_prefixes) action.paths paths;
      some_path =
          unequal_or action.action_type CapabilityActionType.modify_files (is_nil action.paths)
            some_path;
      command = ground arith;
      domains =
          keep-nil (λ domain. domain_allowed domain scope.allowed_network_domains)
            action.network_domains domains;
    }

budget-Affords :
    (action : ProposedAction) (lease : CapabilityLease)
    → Clear (budget_checks action lease)
    → Affords action lease
budget-Affords action lease h =
    let (runtime, (cost, (retries, (pull_requests, _)))) = h in
    record {
      runtime = ground arith;
      cost = ground arith;
      retries = ground arith;
      pull_requests =
          elim (unequal_or action.action_type CapabilityActionType.create_pull_request
            (leb lease.scope.max_pull_requests lease.consumed_pull_requests) pull_requests) [
              | inl other ↦ inl other
              | inr left ↦ inr (ground arith)
            ];
    }

-- What `decide_under` asks for beside no reasons.
allowed :
    (action : ProposedAction) (lease : CapabilityLease) (reasons : List PolicyReason)
    → (decide_under action lease reasons).decision ≡ PolicyDecisionType.allow
    → (is_nil reasons ≡ true)
      × ((lease.mode == CapabilityLeaseMode.strict) ≡ false)
      × (((lease.mode == CapabilityLeaseMode.supervised)
            && contains action.action_type high_risk_actions)
          ≡ false)
allowed action lease reasons h = ground arith

decide_under-Unattended :
    (action : ProposedAction) (lease : CapabilityLease)
    → (lease.mode == CapabilityLeaseMode.strict) ≡ false
    → ((lease.mode == CapabilityLeaseMode.supervised)
        && contains action.action_type high_risk_actions)
      ≡ false
    → Unattended action lease
decide_under-Unattended action lease h k = record {
  not_strict = λ e. ground (arith, (eq_iff lease.mode CapabilityLeaseMode.strict).1 e);
  not_escalated = elim (Bool-cases (contains action.action_type high_risk_actions)) [
    | inl risky ↦ inl (λ e. ground (arith, (eq_iff lease.mode CapabilityLeaseMode.supervised).1 e))
    | inr harmless ↦ inr harmless
  ];
}

-- An action under a lease is allowed only if the action names the lease, which is active, unexpired,
-- correctly signed and issued to the action's agent (unless the lease's agent id is the empty text)
-- and provider for its type; a repository action stays on the repository and branch of the lease,
-- every action on its run and task, off the protected branches and without auto-merge; each of its
-- paths and domains and its command is covered; its estimates fit into the lease's budgets; and the
-- lease's mode does not ask for a human.
pub evaluate-allow :
    (sign_payload : LeaseReceipt → String) (shell_split : Text → Option (List Text)) (now : Instant)
    (action : ProposedAction) (lease : CapabilityLease)
    → (evaluate_proposed_action sign_payload shell_split now action (some lease)).decision
      ≡ PolicyDecisionType.allow
    → Holds sign_payload now action lease
      × Targets action lease.scope
      × Covers shell_split action lease.scope
      × Affords action lease
      × Unattended action lease
unfolding evaluate_proposed_action
evaluate-allow sign_payload shell_split now action lease h =
    let checks_lease : List Check = lease_checks sign_payload now action lease in
    let on_lease = raised checks_lease in
    let checks_target : List Check = target_checks action lease.scope in
    let on_target = raised checks_target in
    let checks_resource : List Check = resource_checks shell_split action lease.scope in
    let on_resource = raised checks_resource in
    let checks_budget : List Check = budget_checks action lease in
    let on_budget = raised checks_budget in
    let (none_left, not_strict, not_escalated) =
      allowed action lease (block_reasons sign_payload shell_split now action lease) h in
    let (before_d, d) = append-is_nil (on_lease ++ on_target ++ on_resource) on_budget none_left in
    let (before_c, c) = append-is_nil (on_lease ++ on_target) on_resource before_d in
    let (a, b) = append-is_nil on_lease on_target before_c in
    (
      lease-Holds sign_payload now action lease (raised-nil checks_lease a),
      target-Targets action lease.scope (raised-nil checks_target b),
      resource-Covers shell_split action lease.scope (raised-nil checks_resource c),
      budget-Affords action lease (raised-nil checks_budget d),
      decide_under-Unattended action lease not_strict not_escalated,
    )
