-- ===== src/Cases/AutoRun.antt =====
-- The rules that run a workflow when a case is created by hand: `tryCaseAutorun`
-- (modules/cases/caseAutoRun.service.ts). The workflows, the devices and the launch of a run come from
-- outside. A stored time of a fire is a number of milliseconds, and the audit log is not modelled. A cap is
-- a natural number: with a negative one, which the schema admits, the source never fires.
pub mod Cap
pub mod Rules
use applivery_soar.Common.{
  if◌then◌else◌, ℕ, min, max, zero, suc, ◌+◌, ◌-◌, ◌*◌, ◌≤◌, ◌<◌, ◌≡◌, ◌≢◌, ◌↔◌, ◌⊎◌, inl, inr,
  refl, sym, ap, subst, ◌∙◌, String, Bool, true, false, not, ◌&&◌, ◌||◌, Option, none, some, List,
  [], ◌∷◌, ◌++◌, map, arith, ltb, leb, ◌==◌, ==_self, ==-eq, Bool-cases, Option-cases, or_else,
  is_some, or_string, join, str_eq, str_eq-true, str_eq_self, str_eq-false, truthy, includes,
  opt_eq, is_set, length, take, drop, any, all, keep, find, count_if, All, find-All, find-holds,
  All-keep, keep-all, all-keep, length-append, length-keep-le, lookup, insert, delete_keys,
  lookup-insert, lookup-delete_keys,
}

pub record CaseAutoRunRule : Type 0 where
  pub id : String
  pub enabled : Bool
  pub min_severity : String
  pub mitre_techniques : List String
  pub workflow_id : String
  pub auto_run_destructive_ack : Bool
  pub max_fires_per_hour : ℕ
  pub recent_fires : List ℕ

pub record CaseAutorunTarget : Type 0 where
  pub id : String
  pub device_id : Option String
  pub severity : String
  pub mitre_techniques : List String

pub record Outside : Type 0 where
  pub workflow : String → Option Bool  -- whether it exists, and has a destructive step
  pub has_device : String → Bool
  pub launch : String → String → Option String  -- the run, by workflow and device
  pub now : ℕ

-- `CASE_SEVERITY_RANK`
abbrev pub case_severity_rank : List (String × ℕ)
case_severity_rank = ("low", 0) ∷ ("medium", 1) ∷ ("high", 2) ∷ ("critical", 3) ∷ []

abbrev pub rank_or : String → ℕ → ℕ
rank_or severity d = or_else (lookup severity case_severity_rank) d

abbrev pub shares : List String → List String → Bool
shares rule_techniques case_techniques =
    length rule_techniques == 0 || any (λ t. includes case_techniques t) rule_techniques

-- None of the three `continue`s is taken.
abbrev pub is_match : CaseAutorunTarget → CaseAutoRunRule → Bool
is_match kase rule =
    rule.enabled
    && leb (rank_or rule.min_severity 2) (rank_or kase.severity 1)
    && shares rule.mitre_techniques kase.mitre_techniques

-- An hour, in milliseconds.
abbrev pub hour : ℕ
hour = 3600000

abbrev pub is_recent : ℕ → ℕ → Bool
is_recent now fired_at = leb now (fired_at + hour)

abbrev pub recent : ℕ → CaseAutoRunRule → List ℕ
recent now rule = keep (is_recent now) rule.recent_fires

abbrev pub max_per_hour : CaseAutoRunRule → ℕ
max_per_hour rule = if rule.max_fires_per_hour == 0 then 10 else rule.max_fires_per_hour

-- `slice(-200)`
abbrev pub last_200 : List ℕ → List ℕ
last_200 xs = drop (length xs - 200) xs

abbrev pub set_rule : CaseAutoRunRule → List CaseAutoRunRule → List CaseAutoRunRule
set_rule new [] = []
set_rule new (r ∷ rs) = if str_eq r.id new.id then new ∷ rs else r ∷ set_rule new rs

abbrev pub with_fire : ℕ → CaseAutoRunRule → CaseAutoRunRule
with_fire now rule = record rule { recent_fires = last_200 (recent now rule ++ now ∷ []) }

-- The new row of the rule and the run, if it fires.
abbrev pub launched : ℕ → CaseAutoRunRule → Option String → Option (CaseAutoRunRule × String)
launched now rule none = none
launched now rule (some run) = some (with_fire now rule, run)

abbrev pub with_workflow :
    Outside → String → CaseAutoRunRule → Option Bool → Option (CaseAutoRunRule × String)
with_workflow o device_id rule none = none
with_workflow o device_id rule (some destructive) =
    if destructive && not rule.auto_run_destructive_ack
    then none
    else if leb (max_per_hour rule) (length (recent o.now rule))
    then none
    else if not (o.has_device device_id)
    then none
    else launched o.now rule (o.launch rule.workflow_id device_id)

-- What a rule that matches does.
abbrev pub fire_rule : Outside → String → CaseAutoRunRule → Option (CaseAutoRunRule × String)
fire_rule o device_id rule = with_workflow o device_id rule (o.workflow rule.workflow_id)

-- The loop over the rules.
abbrev pub try_rules :
    Outside → CaseAutorunTarget → String → List CaseAutoRunRule → Option (CaseAutoRunRule × String)
try_rules o kase device_id [] = none
try_rules o kase device_id (rule ∷ rules) =
    let rest = try_rules o kase device_id rules in
    if is_match kase rule then fire_rule o device_id rule else rest

abbrev pub save :
    List CaseAutoRunRule → Option (CaseAutoRunRule × String) → List CaseAutoRunRule × Option String
save rules none = (rules, none)
save rules (some (rule, run)) = (set_rule rule rules, some run)

abbrev pub for_device :
    Outside
    → CaseAutorunTarget
    → List CaseAutoRunRule
    → Option String
    → List CaseAutoRunRule × Option String
for_device o kase rules none = (rules, none)
for_device o kase rules (some device_id) =
    if truthy device_id then save rules (try_rules o kase device_id rules) else (rules, none)

-- `tryCaseAutorun`: the rules of the workspace in the order of their creation, and the run.
unfoldable pub try_case_autorun :
    Outside
    → CaseAutorunTarget
    → Option String
    → List CaseAutoRunRule
    → List CaseAutoRunRule × Option String
try_case_autorun o kase authorization rules =
    if is_set authorization then for_device o kase rules kase.device_id else (rules, none)
