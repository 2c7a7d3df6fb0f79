-- ===== src/Compliance/Forced.antt =====
-- The evaluation that a device asks for: `forceEvaluateNow` of
-- modules/compliance/compliance.service.ts, up to the call of the evaluation. A time is a number of
-- milliseconds; the automation credential comes from outside.
pub mod Cooldown
mod Tests
use applivery_soar.Cases.Table.{HttpError, http_error}
use applivery_soar.Compliance.Pass.Evaluation.{Request}
use applivery_soar.Common.{
  if◌then◌else◌, ℕ, min, max, zero, suc, ◌+◌, ◌-◌, ◌*◌, ◌≤◌, ◌<◌, ◌≡◌, ◌≢◌, ◌↔◌, ◌⊎◌, inl, inr,
  refl, sym, ap, subst, ◌∙◌, String, Bool, true, false, not, ◌&&◌, ◌||◌, Option, none, some, List,
  [], ◌∷◌, ◌++◌, map, arith, ltb, leb, ◌==◌, ==_self, ==-eq, Bool-cases, Option-cases, or_else,
  is_some, or_string, join, str_eq, str_eq-true, str_eq_self, str_eq_comm, str_eq-false, truthy,
  includes, opt_eq, is_set, length, take, drop, any, all, keep, find, count_if, All, find-All,
  find-holds, All-keep, keep-all, all-keep, length-append, length-keep-le, lookup, insert,
  delete_keys, lookup-insert, lookup-delete_keys,
}

-- `lastForcedDeviceEvaluationAt` and `lastForcedEvaluationAt`
pub record Cooldowns : Type 0 where
  pub last_forced_device_evaluation_at : List (String × ℕ)
  pub last_forced_evaluation_at : List (String × ℕ)

pub record Call : Type 0 where
  pub slug : String
  pub only_device_serial : Option String
  pub now : ℕ
  pub bearer : Option String

-- The evaluation that is to be run, with its bearer, or the error that is thrown.
pub data Forced : Type 0 where
  evaluation : String → Request → Forced
  thrown : HttpError → Forced

abbrev pub forced_evaluation_cooldown_ms : ℕ
forced_evaluation_cooldown_ms = 60000

abbrev pub forced_device_evaluation_cooldown_ms : ℕ
forced_device_evaluation_cooldown_ms = 15000

-- `now - last < cooldown`, where a missing time is 0
abbrev pub is_cooling : ℕ → String → ℕ → List (String × ℕ) → Bool
is_cooling cooldown key now times = ltb now (or_else (lookup key times) 0 + cooldown)

abbrev pub device_cooling : HttpError
device_cooling =
    http_error 429
      "A compliance evaluation was already triggered for this device in the last 15 seconds — please wait a moment before trying again."

abbrev pub workspace_cooling : HttpError
workspace_cooling =
    http_error 429
      "A compliance evaluation was already triggered for this workspace in the last minute — please wait a moment before trying again."

abbrev pub no_credential : HttpError
no_credential =
    http_error 503
      "No Automation Credential is configured for this workspace (Settings > Workspace Automation) — the SOAR Agent can't trigger an unattended compliance evaluation without one."

abbrev pub request_of : Option String → Request
request_of none = record { policy_ids = none; only_device_serial = none }
request_of (some serial) = record { policy_ids = none; only_device_serial = some (serial ∷ []) }

-- Past the cooldown.
abbrev pub with_bearer : Call → Forced
with_bearer c =
    if is_set c.bearer
    then evaluation (or_else c.bearer "") (request_of c.only_device_serial)
    else thrown no_credential

-- `${workspaceSlug}:${onlyDeviceSerial}`
abbrev pub cooldown_key : Call → String
cooldown_key c = join (join c.slug ":") (or_else c.only_device_serial "")

abbrev pub force_device : Call → Cooldowns → Cooldowns × Forced
force_device c s =
    if is_cooling forced_device_evaluation_cooldown_ms (cooldown_key c) c.now
      s.last_forced_device_evaluation_at
    then (s, thrown device_cooling)
    else (
      record s {
        last_forced_device_evaluation_at =
            insert (cooldown_key c) c.now s.last_forced_device_evaluation_at;
      },
      with_bearer c,
    )

abbrev pub force_workspace : Call → Cooldowns → Cooldowns × Forced
force_workspace c s =
    if is_cooling forced_evaluation_cooldown_ms c.slug c.now s.last_forced_evaluation_at
    then (s, thrown workspace_cooling)
    else (
      record s { last_forced_evaluation_at = insert c.slug c.now s.last_forced_evaluation_at },
      with_bearer c,
    )

-- `forceEvaluateNow`
unfoldable pub force_evaluate_now : Call → Cooldowns → Cooldowns × Forced
force_evaluate_now c s =
    if is_set c.only_device_serial then force_device c s else force_workspace c s
