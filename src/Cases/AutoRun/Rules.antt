-- ===== src/Cases/AutoRun/Rules.antt =====
-- What the admin does with the auto-run rules (modules/cases/caseAutoRun.service.ts). A workflow is
-- looked up outside; the answer is its name and whether it has a destructive step, if it exists.
use applivery_soar.Common.{
  if◌then◌else◌, ℕ, ◌≡◌, inl, inr, refl, String, Bool, true, false, not, ◌&&◌, Option, none, some,
  List, [], ◌∷◌, ◌++◌, Bool-cases, join, str_eq, includes, keep, find, All,
}
use applivery_soar.Cases.Table.{HttpError, http_error, case_severities}
use applivery_soar.Cases.AutoRun.{CaseAutoRunRule, set_rule}

pub record CaseAutoRunRulePayload : Type 0 where
  pub enabled : Bool
  pub min_severity : String
  pub mitre_techniques : List String
  pub workflow_id : String
  pub auto_run_destructive_ack : Bool
  pub max_fires_per_hour : ℕ

-- `workflowHasDestructiveStep`
abbrev pub has_destructive_step : Option (String × Bool) → Bool
has_destructive_step none = false
has_destructive_step (some (name, destructive)) = destructive

abbrev pub unacknowledged : Option (String × Bool) → String
unacknowledged none = ""
unacknowledged (some (name, destructive)) = join "Workflow \"" (
    join name
      "\" contains a destructive action (wipe, unenroll, disable, etc.) — enabling this rule requires explicit acknowledgment.")

-- `validateSeverity`, then `validateDestructive`: why the payload is refused
abbrev pub invalid : (String → Option (String × Bool)) → CaseAutoRunRulePayload → Option HttpError
invalid workflow p =
    if not (includes case_severities p.min_severity)
    then some
        (http_error 400 "minSeverity must be one of [\"low\",\"medium\",\"high\",\"critical\"]")
    else if p.enabled
        && has_destructive_step (workflow p.workflow_id)
        && not p.auto_run_destructive_ack
    then some (http_error 400 (unacknowledged (workflow p.workflow_id)))
    else none

abbrev pub row_of : String → List ℕ → CaseAutoRunRulePayload → CaseAutoRunRule
row_of id recent_fires p = record {
  id = id;
  enabled = p.enabled;
  min_severity = p.min_severity;
  mitre_techniques = p.mitre_techniques;
  workflow_id = p.workflow_id;
  auto_run_destructive_ack = p.auto_run_destructive_ack;
  max_fires_per_hour = p.max_fires_per_hour;
  recent_fires = recent_fires;
}

abbrev pub find_rule : String → List CaseAutoRunRule → Option CaseAutoRunRule
find_rule id rules = find (λ r. str_eq r.id id) rules

-- The rules of the workspace afterwards, and the refusal, if there is one.
abbrev pub Changed : Type 0
Changed = List CaseAutoRunRule × Option HttpError

abbrev pub rule_not_found : HttpError
rule_not_found = http_error 404 "Case Auto-Run rule not found"

abbrev pub create_valid :
    Option HttpError → String → CaseAutoRunRulePayload → List CaseAutoRunRule → Changed
create_valid (some e) id p rules = (rules, some e)
create_valid none id p rules = (rules ++ row_of id [] p ∷ [], none)

-- `createCaseAutoRunRule`, with the id that the database gives
unfoldable pub create_case_auto_run_rule :
    (String → Option (String × Bool))
    → String
    → CaseAutoRunRulePayload
    → List CaseAutoRunRule
    → Changed
create_case_auto_run_rule workflow id p rules = create_valid (invalid workflow p) id p rules

-- The fires of the old row stay.
abbrev pub update_found :
    CaseAutoRunRulePayload → List CaseAutoRunRule → Option CaseAutoRunRule → Changed
update_found p rules none = (rules, some rule_not_found)
update_found p rules (some old) = (set_rule (row_of old.id old.recent_fires p) rules, none)

abbrev pub update_valid :
    Option HttpError → String → CaseAutoRunRulePayload → List CaseAutoRunRule → Changed
update_valid (some e) id p rules = (rules, some e)
update_valid none id p rules = update_found p rules (find_rule id rules)

-- `updateCaseAutoRunRule`
unfoldable pub update_case_auto_run_rule :
    (String → Option (String × Bool))
    → String
    → CaseAutoRunRulePayload
    → List CaseAutoRunRule
    → Changed
update_case_auto_run_rule workflow id p rules = update_valid (invalid workflow p) id p rules

abbrev pub delete_found : String → List CaseAutoRunRule → Option CaseAutoRunRule → Changed
delete_found id rules none = (rules, some rule_not_found)
delete_found id rules (some old) = (keep (λ r. not (str_eq r.id id)) rules, none)

-- `deleteCaseAutoRunRule`
unfoldable pub delete_case_auto_run_rule : String → List CaseAutoRunRule → Changed
delete_case_auto_run_rule id rules = delete_found id rules (find_rule id rules)

-- A rule has a known severity and, if it is enabled, no destructive workflow without acknowledgment.
pub record IsAdmissible (workflow : String → Option (String × Bool)) (r : CaseAutoRunRule)
    : Type 0 where
  pub severity_known : includes case_severities r.min_severity ≡ true
  pub acknowledged :
      (r.enabled && has_destructive_step (workflow r.workflow_id) && not r.auto_run_destructive_ack)
      ≡ false

row_of-IsAdmissible :
    (workflow : String → Option (String × Bool)) (id : String) (fires : List ℕ)
    (p : CaseAutoRunRulePayload)
    → invalid workflow p ≡ none
    → IsAdmissible workflow (row_of id fires p)
row_of-IsAdmissible workflow id fires p h =
    elim (Bool-cases (includes case_severities p.min_severity)) [
      | inr e ↦ cc (rw e at h)
      | inl e ↦
          elim (Bool-cases (
            p.enabled
            && has_destructive_step (workflow p.workflow_id)
            && not p.auto_run_destructive_ack)) [
              | inl k ↦ cc (rw (e, k) at h)
              | inr k ↦ record { severity_known = e; acknowledged = k }
            ]
    ]

module _ (P : CaseAutoRunRule → Type 0) where
  All-set_rule :
      (new : CaseAutoRunRule) (rules : List CaseAutoRunRule)
      → P new
      → All P rules
      → All P (set_rule new rules)
  All-set_rule new [] h k = tt
  All-set_rule new (r ∷ rs) h k = elim (Bool-cases (str_eq r.id new.id)) [
    | inl e ↦ rw e (h, k.1)
    | inr e ↦ rw e (k.0, All-set_rule new rs h k.1)
  ]

  All-add :
      (new : CaseAutoRunRule) (rules : List CaseAutoRunRule)
      → P new
      → All P rules
      → All P (rules ++ new ∷ [])
  All-add new [] h k = (h, tt)
  All-add new (r ∷ rs) h k = (k.0, All-add new rs h k.1)

  All-filter :
      (t : CaseAutoRunRule → Bool) (rules : List CaseAutoRunRule)
      → All P rules
      → All P (keep t rules)
  All-filter t [] k = tt
  All-filter t (r ∷ rs) k = elim (Bool-cases (t r)) [
    | inl e ↦ rw e (k.0, All-filter t rs k.1)
    | inr e ↦ rw e (All-filter t rs k.1)
  ]

-- Whatever the admin asks for, creating, changing and deleting a rule leave all rules admissible, as
-- long as the workflows stay as they are: of a known severity and, where enabled, with no destructive
-- workflow that was not acknowledged.
pub rules-IsAdmissible :
    (workflow : String → Option (String × Bool)) (id : String) (p : CaseAutoRunRulePayload)
    (rules : List CaseAutoRunRule)
    → All (IsAdmissible workflow) rules
    → All (IsAdmissible workflow) (create_case_auto_run_rule workflow id p rules).0
      × All (IsAdmissible workflow) (update_case_auto_run_rule workflow id p rules).0
      × All (IsAdmissible workflow) (delete_case_auto_run_rule id rules).0
unfolding create_case_auto_run_rule update_case_auto_run_rule delete_case_auto_run_rule
rules-IsAdmissible workflow id p rules h = (
  created (invalid workflow p) refl,
  changed (invalid workflow p) (find_rule id rules) refl,
  removed (find_rule id rules),
)
  where
    created :
        (e : Option HttpError)
        → invalid workflow p ≡ e
        → All (IsAdmissible workflow) (create_valid e id p rules).0
    created (some e) k = h
    created none k =
        All-add (IsAdmissible workflow) (row_of id [] p) rules
          (row_of-IsAdmissible workflow id [] p k) h

    found :
        (old : Option CaseAutoRunRule)
        → invalid workflow p ≡ none
        → All (IsAdmissible workflow) (update_found p rules old).0
    found none k = h
    found (some old) k =
        All-set_rule (IsAdmissible workflow) (row_of old.id old.recent_fires p) rules
          (row_of-IsAdmissible workflow old.id old.recent_fires p k) h

    changed :
        (e : Option HttpError) (old : Option CaseAutoRunRule)
        → invalid workflow p ≡ e
        → All (IsAdmissible workflow) (update_valid e id p rules).0
    changed (some e) old k = h
    changed none old k = found (find_rule id rules) k

    removed :
        (old : Option CaseAutoRunRule) → All (IsAdmissible workflow) (delete_found id rules old).0
    removed none = h
    removed (some old) = All-filter (IsAdmissible workflow) (λ r. not (str_eq r.id id)) rules h
