-- ===== src/Compliance/Markers/Applied.antt =====
-- What the writes of markers leave on a device (modules/compliance/compliance.service.ts).
use applivery_soar.Compliance.Scope.{includes-concat}
use applivery_soar.Compliance.Pass.Table.{MarkerAction}
use applivery_soar.Compliance.Pass.Run.Flags.{first_of, or_else-first_of, or_else-if}
use applivery_soar.Compliance.Markers.{
  MarkedDevice, Writer, same, with_marker, needs_write, platform_path_segment, apply_compliance_tag,
  apply_compliance_smart_attribute, apply_action, apply_actions,
}
use applivery_soar.Common.{
  if◌then◌else◌, ◌≡◌, inl, inr, refl, ap, ◌∙◌, String, Bool, true, false, not, ◌&&◌, Option, none,
  some, List, [], ◌∷◌, ◌++◌, arith, Bool-cases, or_else, is_some, str_eq, str_eq-true, str_eq_self,
  truthy, includes, is_set, keep,
}

includes-keep :
    (marker x : String) (xs : List String)
    → includes (keep (λ y. not (str_eq y marker)) xs) x
      ≡ (if str_eq marker x then false else includes xs x)
includes-keep marker x [] = ground arith
includes-keep marker x (y ∷ ys) = elim (Bool-cases (str_eq y marker)) [
  | inl e ↦ elim (Bool-cases (str_eq marker x)) [
    | inl m ↦ rw (e, includes-keep marker x ys, m) refl
    | inr m ↦
        let other : str_eq y x ≡ false = rw (str_eq-true y marker e) m in
        rw (e, includes-keep marker x ys, m, other) refl
  ]
  | inr e ↦ elim (Bool-cases (str_eq marker x)) [
    | inl m ↦
        let other : str_eq y x ≡ false = rw (← str_eq-true marker x m) e in
        rw (e, includes-keep marker x ys, m, other) refl
    | inr m ↦ rw (e, includes-keep marker x ys, m) refl
  ]
]

-- Adding a marker that is missing and removing it again gives the list back.
keep-unmarked :
    (marker : String) (xs : List String)
    → includes xs marker ≡ false
    → keep (λ y. not (str_eq y marker)) (xs ++ marker ∷ []) ≡ xs
keep-unmarked marker [] h = rw (str_eq_self marker) refl
keep-unmarked marker (x ∷ xs) h =
    let apart : str_eq x marker ≡ false = ground (arith, h) in
    let rest : includes xs marker ≡ false = ground (arith, h) in
    rw apart (ap (λ t. x ∷ t) (keep-unmarked marker xs rest))

-- Whether a request about a tag is answered well.
abbrev pub IsWritable : Writer → MarkedDevice → Type 0
IsWritable o d =
    (is_some (platform_path_segment d.platform) ≡ true)
    × ((e : MarkedDevice) (tags : List String) → o.accepts_tags e tags ≡ true)

-- A tag that a device did not have is there after it has been added, and once it is removed again the
-- device is as it was, where Applivery accepts the requests.
pub apply_compliance_tag-undone :
    (o : Writer) (d : MarkedDevice) (tag : String)
    → IsWritable o d
    → truthy tag ≡ true
    → includes d.tags tag ≡ false
    → (includes ((apply_compliance_tag o.accepts_tags d tag true).0).tags tag ≡ true)
      × (apply_compliance_tag o.accepts_tags
            ((apply_compliance_tag o.accepts_tags d tag true).0)
            tag
            false
          ≡ (d, true))
unfolding apply_compliance_tag
apply_compliance_tag-undone o d tag w named missing =
    let there : includes (d.tags ++ tag ∷ []) tag ≡ true =
      includes-concat d.tags tag tag ∙ rw (missing, str_eq_self tag) refl in
    let once : apply_compliance_tag o.accepts_tags d tag true
        ≡ (record d { tags = d.tags ++ tag ∷ [] }, true) =
      rw (w.0, named, missing, w.1 d (d.tags ++ tag ∷ [])) refl in
    (
      ap (λ r. includes r.0.tags tag) once ∙ there,
      ap (λ r. apply_compliance_tag o.accepts_tags r.0 tag false) once
          ∙ rw
              (
                w.0,
                named,
                there,
                w.1 (record d { tags = d.tags ++ tag ∷ [] }) _,
                keep-unmarked tag d.tags missing,
              )
              refl,
    )

written_tag :
    (tag x : String) (present : Bool) (tags : List String)
    → includes (with_marker tag present tags) x
      ≡ (if str_eq tag x then present else includes tags x)
written_tag tag x false tags = includes-keep tag x tags
written_tag tag x true tags = elim (Bool-cases (str_eq tag x)) [
  | inl e ↦ rw (includes-concat tags tag x, e) (ground arith)
  | inr e ↦ rw (includes-concat tags tag x, e) (ground arith)
]

already : (present has : Bool) → same present has ≡ true → has ≡ present
already true true h = refl
already true false h = cc
already false true h = cc
already false false h = refl

-- What a write of one tag leaves.
apply_compliance_tag-includes :
    (o : Writer) (d : MarkedDevice) (tag x : String) (present : Bool)
    → IsWritable o d
    → truthy tag ≡ true
    → includes ((apply_compliance_tag o.accepts_tags d tag present).0).tags x
      ≡ (if str_eq tag x then present else includes d.tags x)
unfolding apply_compliance_tag
apply_compliance_tag-includes o d tag x present w named =
    elim (Bool-cases (same present (includes d.tags tag))) [
      | inr e ↦
          rw (w.0, named, e, w.1 d (with_marker tag present d.tags))
            (written_tag tag x present d.tags)
      | inl e ↦
          rw (w.0, named, e)
            (elim (Bool-cases (str_eq tag x)) [
              | inl k ↦ rw (k, ← str_eq-true tag x k) (already present (includes d.tags tag) e)
              | inr k ↦ rw k refl
            ])
    ]

tag_platform :
    (o : Writer) (d : MarkedDevice) (tag : String) (present : Bool)
    → ((apply_compliance_tag o.accepts_tags d tag present).0).platform ≡ d.platform
unfolding apply_compliance_tag
tag_platform o d tag present =
    go (needs_write d tag present d.tags && o.accepts_tags d (with_marker tag present d.tags))
      (with_marker tag present d.tags)
  where
    go :
        (b : Bool) (xs : List String)
        → ((if◌then◌else◌ {A = MarkedDevice × Bool} b (record d { tags = xs }, true) (d, false)).0
          ).platform
          ≡ d.platform
    go true xs = refl
    go false xs = refl

attribute_keeps :
    (o : Writer) (d : MarkedDevice) (id : String) (present : Bool)
    → (((apply_compliance_smart_attribute o.accepts_ids d id present).0).platform ≡ d.platform)
      × (((apply_compliance_smart_attribute o.accepts_ids d id present).0).tags ≡ d.tags)
unfolding apply_compliance_smart_attribute
attribute_keeps o d id present =
    go
      (needs_write d id present d.smart_attribute_assignment_ids
        && o.accepts_ids d (with_marker id present d.smart_attribute_assignment_ids))
      (with_marker id present d.smart_attribute_assignment_ids)
  where
    go :
        (b : Bool) (xs : List String)
        → (((if◌then◌else◌ {A = MarkedDevice × Bool} b
                (record d { smart_attribute_assignment_ids = xs }, true)
                (d, false)).0
              ).platform
            ≡ d.platform)
          × (((if◌then◌else◌ {A = MarkedDevice × Bool} b
                  (record d { smart_attribute_assignment_ids = xs }, true)
                  (d, false)).0
                ).tags
              ≡ d.tags)
    go true xs = (refl, refl)
    go false xs = (refl, refl)

-- The platform stays, and with it what can be written.
apply_action-platform :
    (o : Writer) (a : MarkerAction) (d : MarkedDevice)
    → ((apply_action o a d).0).platform ≡ d.platform
apply_action-platform o a d = elim (Bool-cases (is_set a.tag)) [
  | inl e ↦ rw e (tag_platform o d (or_else a.tag "") a.present)
  | inr e ↦ rw e ((attribute_keeps o d (or_else a.smart_attr_id "") a.present).0)
]

-- The last action that is about the tag says whether it is wanted.
abbrev pub last_wanted : String → List MarkerAction → Option Bool
last_wanted x [] = none
last_wanted x (a ∷ rest) =
    first_of (last_wanted x rest)
      (if is_set a.tag && str_eq (or_else a.tag "") x then some a.present else none)

apply_action-includes :
    (o : Writer) (a : MarkerAction) (d : MarkedDevice) (x : String)
    → IsWritable o d
    → includes ((apply_action o a d).0).tags x
      ≡ (if is_set a.tag && str_eq (or_else a.tag "") x then a.present else includes d.tags x)
apply_action-includes o a d x w = elim (Bool-cases (is_set a.tag)) [
  | inl e ↦
      rw e (apply_compliance_tag-includes o d (or_else a.tag "") x a.present w (set_truthy a.tag e))
  | inr e ↦ rw e (
      ap (λ tags. includes tags x) ((attribute_keeps o d (or_else a.smart_attr_id "") a.present).1))
]
  where
    set_truthy : (s : Option String) → is_set s ≡ true → truthy (or_else s "") ≡ true
    set_truthy none h = cc
    set_truthy (some s) h = h

-- After the actions of a pass on a device whose requests are accepted, the device has exactly those
-- tags that the last action about them wants, and of the others those that it had.
pub apply_actions-last_wanted :
    (o : Writer) (actions : List MarkerAction) (d : MarkedDevice) (x : String)
    → IsWritable o d
    → includes ((apply_actions o actions d).0).tags x
      ≡ or_else (last_wanted x actions) (includes d.tags x)
unfolding apply_actions
apply_actions-last_wanted o [] d x w = refl
apply_actions-last_wanted o (a ∷ actions) d x w =
    let next = (apply_action o a d).0 in
    let w' : IsWritable o next =
      (ap (λ p. is_some (platform_path_segment p)) (apply_action-platform o a d) ∙ w.0, w.1) in
    apply_actions-last_wanted o actions next x w'
    ∙ ap (or_else (last_wanted x actions)) (
        apply_action-includes o a d x w
        ∙ or_else-if (is_set a.tag && str_eq (or_else a.tag "") x) a.present (includes d.tags x))
    ∙ or_else-first_of (last_wanted x actions) _ (includes d.tags x)
