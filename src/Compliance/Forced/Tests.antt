-- ===== src/Compliance/Forced/Tests.antt =====
-- Two devices that ask for an evaluation (modules/compliance/compliance.service.ts).
use applivery_soar.Compliance.Forced.{Cooldowns, Call, thrown, device_cooling, force_evaluate_now}
use applivery_soar.Compliance.Forced.Cooldown.{force_evaluate_now-cooldown, after_calls}
use applivery_soar.Common.{◌≡◌, refl, some, [], ◌∷◌, arith}

abbrev first_call : Call
first_call = record {
  slug = "acme";
  only_device_serial = some "S1";
  now = 100000;
  bearer = some "token";
}

abbrev other_call : Call
other_call = record first_call { only_device_serial = some "S2"; now = 101000 }

abbrev second_call : Call
second_call = record first_call { now = 114999 }

abbrev no_calls : Cooldowns
no_calls = record { last_forced_device_evaluation_at = []; last_forced_evaluation_at = [] }

force_evaluate_now-cooldown_example :
    force_evaluate_now second_call
      (after_calls (other_call ∷ []) ((force_evaluate_now first_call no_calls).0))
    ≡ (
      after_calls (other_call ∷ []) ((force_evaluate_now first_call no_calls).0),
      thrown device_cooling,
    )
force_evaluate_now-cooldown_example =
    force_evaluate_now-cooldown first_call second_call no_calls (other_call ∷ []) refl refl
      (omega arith, tt) refl refl (omega arith)
