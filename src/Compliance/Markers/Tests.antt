-- ===== src/Compliance/Markers/Tests.antt =====
-- A tag on one device (modules/compliance/compliance.service.ts).
use applivery_soar.Compliance.Pass.Table.{MarkerAction}
use applivery_soar.Compliance.Markers.{MarkedDevice, Writer, platform_path_segment, apply_actions}
use applivery_soar.Compliance.Markers.Applied.{apply_actions-last_wanted}
use applivery_soar.Common.{◌≡◌, refl, true, false, none, some, List, [], ◌∷◌, includes}

abbrev tagged : MarkedDevice
tagged = record {
  id = "d1";
  platform = "macos";
  tags = "vip" ∷ [];
  smart_attribute_assignment_ids = [];
}

abbrev writer : Writer
writer = record { accepts_tags = λ d xs. true; accepts_ids = λ d xs. true }

abbrev actions : List MarkerAction
actions =
    record { device_id = "d1"; tag = some "bad"; smart_attr_id = none; present = true }
    ∷ record { device_id = "d1"; tag = none; smart_attr_id = some "a1"; present = true }
    ∷ record { device_id = "d1"; tag = some "bad"; smart_attr_id = none; present = false }
    ∷ []

apply_actions-last_wanted_example :
    includes ((apply_actions writer actions tagged).0).tags "bad" ≡ false
unfolding platform_path_segment
apply_actions-last_wanted_example =
    apply_actions-last_wanted writer actions tagged "bad" (refl, λ e xs. refl)
