-- ===== src/Cases/AutoRun/Cap.antt =====
-- Which rule fires, and how often (modules/cases/caseAutoRun.service.ts).
use applivery_soar.Common.{
  if◌then◌else◌, ℕ, min, zero, suc, ◌+◌, ◌-◌, ◌≤◌, ◌<◌, ◌≡◌, inl, inr, refl, sym, ap, subst, ◌∙◌,
  String, Bool, true, false, not, ◌&&◌, Option, none, some, List, [], ◌∷◌, ◌++◌, arith, ltb, leb,
  ◌==◌, Bool-cases, length, drop, keep, find, length-append,
}
use applivery_soar.Cases.AutoRun.{
  is_recent, CaseAutoRunRule, CaseAutorunTarget, Outside, is_match, recent, max_per_hour, last_200,
  with_fire, launched, with_workflow, fire_rule, try_rules,
}

-- What the first of the rules that match does.
abbrev pub fire_first :
    Outside → String → Option CaseAutoRunRule → Option (CaseAutoRunRule × String)
fire_first o device_id none = none
fire_first o device_id (some rule) = fire_rule o device_id rule

-- Only the first rule that matches counts: if it may not fire, no later rule is tried in its place.
pub try_rules-find :
    (o : Outside) (kase : CaseAutorunTarget) (device_id : String) (rules : List CaseAutoRunRule)
    → try_rules o kase device_id rules ≡ fire_first o device_id (find (is_match kase) rules)
try_rules-find o kase device_id [] = refl
try_rules-find o kase device_id (rule ∷ rules) = elim (Bool-cases (is_match kase rule)) [
  | inl e ↦ rw e
  | inr e ↦ rw e (try_rules-find o kase device_id rules)
]

-- The times that are no more than an hour old, in milliseconds.
abbrev pub within_hour : ℕ → List ℕ → List ℕ
within_hour now [] = []
within_hour now (x ∷ xs) =
    if ltb (x + 3600000) now then within_hour now xs else x ∷ within_hour now xs

-- The cap that a rule's setting stands for.
abbrev pub cap_of : ℕ → ℕ
cap_of zero = 10
cap_of (suc n) = suc n

-- A rule may fire: its workflow exists, a destructive one was acknowledged, fewer of its fires than its
-- cap are an hour old at most, and the device is known.
pub record MayFire (o : Outside) (device_id : String) (rule : CaseAutoRunRule) : Type 0 where
  pub destructive : Bool
  pub has_workflow : o.workflow rule.workflow_id ≡ some destructive
  pub acknowledged : (destructive && not rule.auto_run_destructive_ack) ≡ false
  pub below_cap : length (within_hour o.now rule.recent_fires) < cap_of rule.max_fires_per_hour
  pub has_device : o.has_device device_id ≡ true

keep-within_hour : (now : ℕ) (xs : List ℕ) → keep (is_recent now) xs ≡ within_hour now xs
keep-within_hour now [] = refl
keep-within_hour now (x ∷ xs) = elim (Bool-cases (leb now (x + 3600000))) [
  | inl e ↦
      let within : ltb (x + 3600000) now ≡ false = ground (arith, e) in
      rw (e, within) (ap (λ ys. x ∷ ys) (keep-within_hour now xs))
  | inr e ↦
      let past : ltb (x + 3600000) now ≡ true = ground (arith, e) in
      rw (e, past) (keep-within_hour now xs)
]

cap_of_lem : (n : ℕ) → (if n == 0 then 10 else n) ≡ cap_of n
cap_of_lem zero = refl
cap_of_lem (suc n) = ground arith

with_workflow-MayFire :
    (o : Outside) (device_id : String) (rule new : CaseAutoRunRule) (run : String) (w : Option Bool)
    → o.workflow rule.workflow_id ≡ w
    → with_workflow o device_id rule w ≡ some (new, run)
    → MayFire o device_id rule × (new ≡ with_fire o.now rule)
with_workflow-MayFire o device_id rule new run none e h = cc
with_workflow-MayFire o device_id rule new run (some d) e h =
    elim (Bool-cases (d && not rule.auto_run_destructive_ack)) [
      | inl a ↦ cc (rw a at h)
      | inr a ↦ elim (Bool-cases (leb (max_per_hour rule) (length (recent o.now rule)))) [
        | inl b ↦ cc (rw (a, b) at h)
        | inr b ↦ elim (Bool-cases (o.has_device device_id)) [
          | inr c ↦ cc (rw (a, b, c) at h)
          | inl c ↦ (
            record {
              destructive = d;
              has_workflow = e;
              acknowledged = a;
              below_cap =
                  below (keep-within_hour o.now rule.recent_fires)
                    (cap_of_lem rule.max_fires_per_hour) b;
              has_device = c;
            },
            written (o.launch rule.workflow_id device_id) (rw (a, b, c) at h),
          )
        ]
      ]
    ]
  where
    below : {xs ys : List ℕ} {m n : ℕ} → xs ≡ ys → m ≡ n → leb m (length xs) ≡ false → length ys < n
    below same cap h = rw (← same, ← cap) (ground (arith, h))

    written :
        (l : Option String) → launched o.now rule l ≡ some (new, run) → new ≡ with_fire o.now rule
    written none k = cc
    written (some r) k = cc

length-drop : (n : ℕ) (xs : List ℕ) → length (drop n xs) ≡ length xs - n
length-drop zero xs = omega arith
length-drop (suc n) [] = omega arith
length-drop (suc n) (x ∷ xs) = omega (arith, length-drop n xs)

drop-suffix : (n : ℕ) (xs : List ℕ) → (older : List ℕ) × (xs ≡ older ++ drop n xs)
drop-suffix zero xs = ([], refl)
drop-suffix (suc n) [] = ([], refl)
drop-suffix (suc n) (x ∷ xs) =
    let (older, eq) = drop-suffix n xs in (x ∷ older, ap (λ ys. x ∷ ys) eq)

-- The second list is made of the last ones of the first, of all of them if they are 200 at most.
abbrev pub IsLatest : List ℕ → List ℕ → Type 0
IsLatest fires kept =
    ((older : List ℕ) × (fires ≡ older ++ kept)) × (length kept ≡ min 200 (length fires))

last_200-IsLatest : (xs : List ℕ) → IsLatest xs (last_200 xs)
last_200-IsLatest xs =
    let eq = length-drop (length xs - 200) xs in
    (drop-suffix (length xs - 200) xs, omega (arith, eq))

-- A rule that fires was allowed to, and its new row holds, at the end, the time of this fire, after the
-- earlier ones of the last hour: all of them, or the latest 200 of them with this one where there are
-- more. They are no more than the cap of the rule.
pub fire_rule-MayFire :
    (o : Outside) (device_id : String) (rule new : CaseAutoRunRule) (run : String)
    → fire_rule o device_id rule ≡ some (new, run)
    → MayFire o device_id rule
      × IsLatest (within_hour o.now rule.recent_fires ++ o.now ∷ []) new.recent_fires
      × (length new.recent_fires ≤ cap_of rule.max_fires_per_hour)
fire_rule-MayFire o device_id rule new run h =
    let (may, same) =
      with_workflow-MayFire o device_id rule new run (o.workflow rule.workflow_id) refl h in
    let earlier = within_hour o.now rule.recent_fires in
    let fires = earlier ++ o.now ∷ [] in
    let held =
      ap (λ r. r.recent_fires) same
      ∙ ap (λ ys. last_200 (ys ++ o.now ∷ [])) (keep-within_hour o.now rule.recent_fires) in
    let latest = subst (IsLatest fires) (sym held) (last_200-IsLatest fires) in
    let all_kept = latest.1 in
    let one_more = length-append earlier (o.now ∷ []) in
    let below = may.below_cap in (may, latest, omega (arith, all_kept, one_more, below))
