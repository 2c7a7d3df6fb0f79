-- ===== src/Cases/Update/Stages.antt =====
-- The stages of `updateCase` (cases.service.ts), one by one: what each keeps of the row, and that a
-- refusal has changed no row.
use applivery_soar.Common.{
  ℕ, ◌≡◌, refl, sym, String, Bool, true, false, not, Option, none, some, inl, inr, List, arith,
  Bool-cases, is_some, includes, str_eq, opt_eq, keep,
}
use applivery_soar.Cases.Table.{
  Case, Store, Event, closed, reopened, is_open_case_status, case_statuses, case_severities,
  add_case_timeline_entry,
}
use applivery_soar.Cases.Table.Sound.{IsSound}
use applivery_soar.Cases.Update.{
  Request, Draft, Stage, proceed, refuse, then_stage, title_stage, severity_stage, assignee_stage,
  untouched, mitre_stage, move, status_stage, stages, list_eq,
}

-- Nothing but the timeline has been written.
pub record SameRows (s s' : Store) : Type 0 where
  pub same_cases : s'.cases ≡ s.cases
  pub same_sent : s'.sent ≡ s.sent
  pub same_removals : s'.removals ≡ s.removals
  pub same_next_id : s'.next_id ≡ s.next_id

-- Before the stage of the status. What is said of soundness is for a case that was sound.
pub record IsEarly (kase : Case) (s : Store) (d : Draft) : Type 0 where
  pub same_id : d.next.id ≡ kase.id
  pub same_status : d.next.status ≡ kase.status
  pub same_closed_at : d.next.closed_at ≡ kase.closed_at
  pub severity_known : IsSound kase → includes case_severities d.next.severity ≡ true
  pub silent : d.notify ≡ none
  pub rows : SameRows s d.store

-- The event that a change from open or closed to open or closed calls for.
abbrev pub transition : Bool → Bool → Option Event
transition true false = some closed
transition false true = some reopened
transition _ _ = none

-- Before the row is written.
pub record IsReady (kase : Case) (s : Store) (d : Draft) : Type 0 where
  pub same_id : d.next.id ≡ kase.id
  pub status_known : IsSound kase → includes case_statuses d.next.status ≡ true
  pub severity_known : IsSound kase → includes case_severities d.next.severity ≡ true
  pub closing : IsSound kase → is_some d.next.closed_at ≡ not (is_open_case_status d.next.status)
  pub notified :
      d.notify ≡ transition (is_open_case_status kase.status) (is_open_case_status d.next.status)
  pub rows : SameRows s d.store

abbrev pub Holds : (Draft → Type 0) → Store → Stage → Type 0
Holds P s (proceed d) = P d
Holds P s (refuse s' e) = SameRows s s'

then_stage-Holds :
    (P Q : Draft → Type 0) (s : Store) (x : Stage) (f : Draft → Stage)
    → Holds P s x
    → ((d : Draft) → P d → Holds Q s (f d))
    → Holds Q s (then_stage x f)
then_stage-Holds P Q s (proceed d) f h k = k d h
then_stage-Holds P Q s (refuse s' e) f h k = h

title_stage-IsEarly :
    (r : Request) (kase : Case) (s : Store) → IsEarly kase s (title_stage r kase s)
title_stage-IsEarly r kase s = go r.payload.title
  where
    go :
        (title : Option String)
        → IsEarly kase s (record {
          next = elim title [ some t ↦ record kase { title = t } | none ↦ kase ];
          acknowledged = untouched;
          notify = none;
          store = s;
        })
    go none = record {
      same_id = refl;
      same_status = refl;
      same_closed_at = refl;
      severity_known = λ q. q.severity_known;
      silent = refl;
      rows = ground arith;
    }
    go (some title) = record {
      same_id = refl;
      same_status = refl;
      same_closed_at = refl;
      severity_known = λ q. q.severity_known;
      silent = refl;
      rows = ground arith;
    }

severity_stage-Holds :
    (r : Request) (kase : Case) (s : Store) (severity : Option String) (d : Draft)
    → IsEarly kase s d
    → Holds (IsEarly kase s) s (severity_stage r kase severity d)
unfolding severity_stage add_case_timeline_entry
severity_stage-Holds r kase s none d h = h
severity_stage-Holds r kase s (some severity) d h =
    elim (Bool-cases (str_eq severity kase.severity)) [
      | inl e ↦ rw e h
      | inr e ↦ rw e (elim (Bool-cases (includes case_severities severity)) [
        | inl k ↦ rw k (record {
          same_id = h.same_id;
          same_status = h.same_status;
          same_closed_at = h.same_closed_at;
          severity_known = λ q. k;
          silent = h.silent;
          rows = record {
            same_cases = h.rows.same_cases;
            same_sent = h.rows.same_sent;
            same_removals = h.rows.same_removals;
            same_next_id = h.rows.same_next_id;
          };
        })
        | inr k ↦ rw k h.rows
      ])
    ]

assignee_stage-Holds :
    (r : Request) (kase : Case) (s : Store) (a : Option String) (d : Draft)
    → IsEarly kase s d
    → Holds (IsEarly kase s) s (assignee_stage r kase a d)
unfolding assignee_stage add_case_timeline_entry
assignee_stage-Holds r kase s none d h = h
assignee_stage-Holds r kase s (some a) d h = elim (Bool-cases (opt_eq (some a) kase.assignee)) [
  | inl e ↦ rw e h
  | inr e ↦ rw e (ground arith)
]

mitre_stage-Holds :
    (r : Request) (kase : Case) (s : Store) (m : Option (List String)) (d : Draft)
    → IsEarly kase s d
    → Holds (IsEarly kase s) s (mitre_stage r kase m d)
unfolding mitre_stage add_case_timeline_entry
mitre_stage-Holds r kase s none d h = h
mitre_stage-Holds r kase s (some techniques) d h =
    elim (Bool-cases (list_eq (keep r.is_known techniques) kase.mitre_techniques)) [
      | inl e ↦ rw e h
      | inr e ↦ rw e (ground arith)
    ]

transition_self : (b : Bool) → transition b b ≡ none
transition_self true = refl
transition_self false = refl

-- A status that is not changed.
IsReady-unchanged : (kase : Case) (s : Store) (d : Draft) → IsEarly kase s d → IsReady kase s d
IsReady-unchanged kase s d h = record {
  same_id = h.same_id;
  status_known = λ k. rw h.same_status k.status_known;
  severity_known = h.severity_known;
  closing = λ k. rw (h.same_closed_at, h.same_status) k.closing;
  notified = rw (h.same_status, h.silent) (sym (transition_self (is_open_case_status kase.status)));
  rows = h.rows;
}

move-IsReady :
    (kase : Case) (s : Store) (now : ℕ) (was is : Bool) (d : Draft)
    → is_open_case_status kase.status ≡ was
    → is_open_case_status d.next.status ≡ is
    → d.next.id ≡ kase.id
    → includes case_statuses d.next.status ≡ true
    → (IsSound kase → includes case_severities d.next.severity ≡ true)
    → (IsSound kase → is_some d.next.closed_at ≡ not was)
    → d.notify ≡ none
    → SameRows s d.store
    → IsReady kase s (move now (not was) (not is) d)
unfolding move
move-IsReady kase s now true true d w i a b c e f g = record {
  same_id = a;
  status_known = λ q. b;
  severity_known = c;
  closing = λ q. rw i (e q);
  notified = rw (w, i) f;
  rows = g;
}
move-IsReady kase s now true false d w i a b c e f g = record {
  same_id = a;
  status_known = λ q. b;
  severity_known = c;
  closing = λ q. rw i refl;
  notified = rw (w, i);
  rows = g;
}
move-IsReady kase s now false true d w i a b c e f g = record {
  same_id = a;
  status_known = λ q. b;
  severity_known = c;
  closing = λ q. rw i refl;
  notified = rw (w, i);
  rows = g;
}
move-IsReady kase s now false false d w i a b c e f g = record {
  same_id = a;
  status_known = λ q. b;
  severity_known = c;
  closing = λ q. rw i (e q);
  notified = rw (w, i) f;
  rows = g;
}

status_stage-Holds :
    (r : Request) (kase : Case) (s : Store) (status : Option String) (d : Draft)
    → IsEarly kase s d
    → Holds (IsReady kase s) s (status_stage r kase status d)
unfolding status_stage add_case_timeline_entry
status_stage-Holds r kase s none d h = IsReady-unchanged kase s d h
status_stage-Holds r kase s (some status) d h = elim (Bool-cases (str_eq status kase.status)) [
  | inl e ↦ rw e (IsReady-unchanged kase s d h)
  | inr e ↦ rw e (elim (Bool-cases (includes case_statuses status)) [
    | inl m ↦ rw m (
        move-IsReady kase s r.now (is_open_case_status kase.status) (is_open_case_status status) _
          refl refl h.same_id m h.severity_known (λ k. rw h.same_closed_at k.closing) h.silent
          (record {
            same_cases = h.rows.same_cases;
            same_sent = h.rows.same_sent;
            same_removals = h.rows.same_removals;
            same_next_id = h.rows.same_next_id;
          }))
    | inr m ↦ rw m h.rows
  ])
]

-- All the stages together.
pub stages-Holds :
    (r : Request) (kase : Case) (s : Store) → Holds (IsReady kase s) s (stages r kase s)
unfolding stages
stages-Holds r kase s =
    let P = IsEarly kase s in
    let Q = IsReady kase s in
    let rest = λ (d : Draft).
      then_stage (mitre_stage r kase r.payload.mitre_techniques d)
        (λ e. status_stage r kase r.payload.status e) in
    let rest' = λ (d : Draft). then_stage (assignee_stage r kase r.payload.assignee d) rest in
    then_stage-Holds P Q s (severity_stage r kase r.payload.severity (title_stage r kase s)) rest'
      (severity_stage-Holds r kase s r.payload.severity (title_stage r kase s)
        (title_stage-IsEarly r kase s))
      (λ d h.
        then_stage-Holds P Q s (assignee_stage r kase r.payload.assignee d) rest
          (assignee_stage-Holds r kase s r.payload.assignee d h)
          (λ d' h'.
            then_stage-Holds P Q s (mitre_stage r kase r.payload.mitre_techniques d')
              (λ e. status_stage r kase r.payload.status e)
              (mitre_stage-Holds r kase s r.payload.mitre_techniques d' h')
              (λ d'' h''. status_stage-Holds r kase s r.payload.status d'' h'')))
