-- ===== src/Compliance/Review/Tests.antt =====
-- The review of one violation (modules/compliance/compliance.service.ts).
use applivery_soar.Compliance.Pass.Table.{Workflow, Violation, pending}
use applivery_soar.Compliance.Review.{
  Desk, Reviewer, refused, approve_violation_core, approve_with, bulk_approve_violations,
}
use applivery_soar.Compliance.Review.Approve.{
  IsApproval, IsCounted, approve_violation_core-IsApproval, approve_violation_core_once,
  bulk_approve_violations-IsCounted,
}
use applivery_soar.Cases.Table.{http_error}
use applivery_soar.Common.{◌≡◌, refl, String, false, none, some, [], ◌∷◌}

abbrev lock : Workflow
lock = record { id = "w1"; name = "Lock"; steps = [] }

abbrev waiting : Violation String
waiting = record {
  id = "v1";
  policy_id = "p1";
  policy_name = "No Apple";
  workflow_id = some "w1";
  workflow_name = some "Lock";
  workflow_run_id = none;
  escalated = false;
  device_id = "d1";
  device_name = "Phone";
  platform = "apple";
  matched_conditions = "apple" ∷ [];
  detected_at = 1;
  resolved_at = none;
  status = pending;
  severity = "high";
  case_id = none;
}

abbrev desk : Desk String
desk = record {
  violations = waiting ∷ [];
  state = ("p1:d1", record { violation_id = "v1"; status = pending; last_detected_at = 1 }) ∷ [];
  store = record { cases = []; timeline = []; sent = []; removals = []; next_id = 1 };
  runs = [];
  attempts = 0;
  cleanups = [];
}

abbrev admin : Reviewer
admin = record { workflows = lock ∷ []; launch = λ n w d. some "run-1"; actor = "ana"; now = 9 }

abbrev desk_after : Desk String
desk_after = approve_with admin waiting lock "run-1" desk

approve_violation_core-IsApproval_example : IsApproval admin "v1" desk desk_after
unfolding approve_violation_core
approve_violation_core-IsApproval_example =
    approve_violation_core-IsApproval admin "v1" desk desk_after refl

approve_violation_core_once_example :
    approve_violation_core admin "v1" desk_after
    ≡ refused (http_error 400 "Violation already 'approved'")
unfolding approve_violation_core
approve_violation_core_once_example =
    approve_violation_core_once admin admin "v1" desk desk_after refl

bulk_approve_violations-IsCounted_example :
    IsCounted admin ("v1" ∷ "v1" ∷ []) desk (bulk_approve_violations admin ("v1" ∷ "v1" ∷ []) desk)
bulk_approve_violations-IsCounted_example =
    bulk_approve_violations-IsCounted admin ("v1" ∷ "v1" ∷ []) desk
