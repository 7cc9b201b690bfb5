-- ===== src/Journal/Scale.antt =====
-- internal/controllers/scale_decision.go: the decision's validity, its projection onto the status,
-- and what applying, recovering and observing it do.
use hpa_plus.Prelude.{
  ℤ, ℕ, ltb_ℤ, leb_ℤ, ◌==ℤ◌, ◌-ℤ◌, same_text, String, Bool, true, false, not, ◌&&◌, List, [], ◌∷◌,
  ◌++◌, Option, none, some, if◌then◌else◌, Result, ok, err, ◌>>◌,
}
use hpa_plus.Api.Types.{TimestampedSample, Mode, observe, HpaPlusStatus, HpaBehavior}
use hpa_plus.Api.Defaults.{default_behavior}
use hpa_plus.Scaling.Windows.{prune_to_window, get_longest_policy_period}
use hpa_plus.Decision.Defs.{sample_at}
use hpa_plus.Journal.Types.{
  TargetRef, ScaleDecision, Owner, Scale, Failure, owner_unread, owner_changed, metrics_expired,
  predictions_expired, unresolved, observe_mode, scale_rejected, scale_unknown, clear_failed, World,
  Outcome, and_then, Platform,
}
use hpa_plus.Journal.Store.{
  same_owner, check_owner, HistoryReply, Mutation, mutate_history, check_status_budget,
  max_accounting_bytes, StatusReply, mutate_status,
}

-- decisionValidity.
pub record Validity : Type 0 where
  pub metrics_until : Option ℤ
  pub predictions_until : Option ℤ

unfoldable pub metrics_over : Validity → ℤ → Bool
metrics_over v now = elim v.metrics_until [ none ↦ false | some t ↦ ltb_ℤ t now ]

unfoldable pub predictions_over : Validity → ℤ → Bool
predictions_over v now = elim v.predictions_until [ none ↦ false | some t ↦ leb_ℤ t now ]

unfoldable pub check_validity : Validity → ℤ → Result Failure (Unit {0})
check_validity v now =
    if metrics_over v now
    then err metrics_expired
    else if predictions_over v now
    then err predictions_expired
    else ok tt

-- The mutation of clearScaleDecision.
unfoldable pub clear_pending : String → Mutation
clear_pending id now none = ok none
clear_pending id now (some pending) = if same_text pending.id id then ok (some none) else ok none

abbrev pub clear_scale_decision : Owner → String → (ℕ → HistoryReply) → World → Outcome
clear_scale_decision instance_ id replies w = mutate_history instance_ (clear_pending id) replies w

-- The events, with the change that a decision attempts charged to its direction.
unfoldable pub charge_up : ScaleDecision → List TimestampedSample → List TimestampedSample
charge_up d events =
    if ltb_ℤ d.previous_desired d.desired
    then events ++ (sample_at d.time (d.desired -ℤ d.previous_desired) ∷ [])
    else events

unfoldable pub charge_down : ScaleDecision → List TimestampedSample → List TimestampedSample
charge_down d events =
    if ltb_ℤ d.previous_desired d.desired
    then events
    else events ++ (sample_at d.time (d.previous_desired -ℤ d.desired) ∷ [])

-- What projectScaleDecision writes where it was not written before.
unfoldable pub charged :
    HpaBehavior → ℤ → HpaPlusStatus → ScaleDecision → (desired observed : ℤ) → HpaPlusStatus
charged behavior now s d desired observed = record {
  last_scale_decision_id = d.id;
  last_scale_time = some d.time;
  current_replicas = observed;
  desired_replicas = desired;
  scale_up_replica_history = d.scale_up_recommendations;
  scale_down_replica_history = d.scale_down_recommendations;
  scale_up_event_history =
      prune_to_window (charge_up d s.scale_up_event_history)
        (get_longest_policy_period behavior.scale_up) now;
  scale_down_event_history =
      prune_to_window (charge_down d s.scale_down_event_history)
        (get_longest_policy_period behavior.scale_down) now;
}

unfoldable pub project_scale_decision :
    Option HpaBehavior → ℤ → ScaleDecision → (desired observed : ℤ) → HpaPlusStatus → HpaPlusStatus
project_scale_decision behavior now d desired observed s =
    if same_text s.last_scale_decision_id d.id
    then s
    else charged (default_behavior behavior) now s d desired observed

-- The instance that a reconciliation works on, and what it decided.
pub record Request : Type 0 where
  pub id : String
  pub instance_ : Owner
  pub mode : Mode
  pub target : TargetRef
  pub behavior : Option HpaBehavior
  pub scale : Scale
  pub desired : ℤ
  pub scale_up_recommendations : List TimestampedSample
  pub scale_down_recommendations : List TimestampedSample
  pub validity : Validity

-- The answer to the update of the Scale: refused for certain (a conflict, a missing target, an
-- invalid or a forbidden write), or an error that says nothing of the outcome.
pub data UpdateReply : Type 0 where
  accepted rejected unknown : UpdateReply

-- What the API server and the clock answer while a decision is applied.
pub record Replies : Type 0 where
  pub first_owner : Option Owner
  pub checked_at : ℤ
  pub stamped_at : ℤ
  pub first_budget_at : ℤ
  pub unchanged : ℕ → StatusReply
  pub journal : ℕ → HistoryReply
  pub prepared_at : ℤ
  pub current_owner : Option Owner
  pub second_budget_at : ℤ
  pub update : UpdateReply
  pub record_status : ℕ → StatusReply
  pub clear : ℕ → HistoryReply

abbrev pub is_observe : Mode → Bool
is_observe observe = true
is_observe _ = false

-- What is checked before anything is written.
unfoldable pub preflight : Request → Replies → Result Failure (Unit {0})
preflight q r = do
  if is_observe q.mode then err observe_mode else ok tt
  check_owner q.instance_ r.first_owner
  check_validity q.validity r.checked_at

unfoldable pub decision_of : Request → Replies → ScaleDecision
decision_of q r = record {
  id = q.id;
  owner_uid = q.instance_.uid;
  target = q.target;
  target_uid = q.scale.uid;
  resource_version = q.scale.resource_version;
  previous_desired = q.scale.replicas;
  desired = q.desired;
  observed = q.scale.observed;
  time = r.stamped_at;
  scale_up_recommendations = q.scale_up_recommendations;
  scale_down_recommendations = q.scale_down_recommendations;
}

-- The mutation that journals a decision, where none is pending.
unfoldable pub journal_decision : Validity → ScaleDecision → Mutation
journal_decision v d now pending = do
  check_validity v now
  elim pending [ none ↦ ok (some (some d)) | some p ↦ err unresolved ]

-- The status of a decision that changes nothing.
unfoldable pub keep_counts : Request → HpaPlusStatus → HpaPlusStatus
keep_counts q s = record s {
  desired_replicas = q.desired;
  current_replicas = q.scale.observed;
  scale_up_replica_history = q.scale_up_recommendations;
  scale_down_replica_history = q.scale_down_recommendations;
}

-- `wrap` says what a failure of the clearing is reported as.
unfoldable pub abandon : Owner → String → Failure → (ℕ → HistoryReply) → World → Outcome
abandon instance_ id e replies w =
    let cleared = clear_scale_decision instance_ id replies w in
    elim cleared.1 [
      | ok done ↦ (cleared.0, err e)
      | err problem ↦ (cleared.0, err (clear_failed e problem))
    ]

unfoldable pub is_same_instance : Owner → Owner → Bool
is_same_instance instance_ current = same_text current.uid instance_.uid && not current.deleting

module _ (p : Platform) (q : Request) (r : Replies) where
  unfoldable pub check_decision_budget :
      HpaPlusStatus → ScaleDecision → ℤ → Result Failure (Unit {0})
  check_decision_budget s d now =
      check_status_budget p.accounting_bytes s
        (project_scale_decision q.behavior now d q.desired q.scale.observed s) max_accounting_bytes

  abbrev pub keep_mutation : ℤ → HpaPlusStatus → Result Failure HpaPlusStatus
  keep_mutation now s =
      check_validity q.validity now
      >> check_status_budget p.accounting_bytes s (keep_counts q s) max_accounting_bytes
      >> ok (keep_counts q s)

  -- `scale.Spec.Replicas == desired`.
  unfoldable pub keep_target : World → Outcome
  keep_target w = mutate_status p q.instance_ keep_mutation r.unchanged w

  unfoldable pub record_decision :
      Owner
      → Option HpaBehavior
      → ScaleDecision
      → (desired observed : ℤ) → (ℕ → StatusReply)
      → World
      → Outcome
  record_decision instance_ behavior d desired observed replies w =
      mutate_status p instance_
        (λ now s. ok (project_scale_decision behavior now d desired observed s)) replies w

  -- The update, and what follows it.
  unfoldable pub send_scale : ScaleDecision → World → Outcome
  send_scale d w =
      let sent = record w { sent = d ∷ w.sent } in
      elim r.update [
        | accepted ↦
            and_then
              (record_decision q.instance_ q.behavior d q.desired q.scale.observed r.record_status
                sent)
              (clear_scale_decision q.instance_ d.id r.clear)
        | rejected ↦ abandon q.instance_ d.id scale_rejected r.clear sent
        | unknown ↦ (sent, err scale_unknown)
      ]

  -- The owner is read again once the decision is journaled.
  unfoldable pub confirm_owner : ScaleDecision → World → Outcome
  confirm_owner d w = elim r.current_owner [
    | none ↦ (w, err owner_unread)
    | some current ↦
        if same_owner q.instance_ current
        then (elim (check_decision_budget w.status d r.second_budget_at) [
          | err e ↦ abandon q.instance_ d.id e r.clear w
          | ok fits ↦ send_scale d w
        ])
        else (if is_same_instance q.instance_ current
            then ((clear_scale_decision current d.id r.clear w).0, err owner_changed)
            else (w, err owner_changed))
  ]

  unfoldable pub write_scale : ScaleDecision → World → Outcome
  write_scale d w = elim (check_validity q.validity r.prepared_at) [
    | err e ↦ abandon q.instance_ d.id e r.clear w
    | ok valid ↦ confirm_owner d w
  ]

  unfoldable pub change_target : ScaleDecision → World → Outcome
  change_target d w = elim (check_decision_budget w.status d r.first_budget_at) [
    | err e ↦ (w, err e)
    | ok fits ↦
        and_then (mutate_history q.instance_ (journal_decision q.validity d) r.journal w)
          (write_scale d)
  ]

  unfoldable pub apply_scale_decision : World → Outcome
  apply_scale_decision w = elim (preflight q r) [
    | err e ↦ (w, err e)
    | ok passed ↦
        if q.scale.replicas ==ℤ q.desired then keep_target w else change_target (decision_of q r) w
  ]

-- observeScaleDecision.
unfoldable pub observed_counts : Validity → Scale → ℤ → HpaPlusStatus → Result Failure HpaPlusStatus
observed_counts v scale now s = do
  check_validity v now
  ok (record s { current_replicas = scale.observed; desired_replicas = scale.replicas })

unfoldable pub observe_scale_decision :
    Platform → Owner → Validity → Scale → (ℕ → StatusReply) → World → Outcome
observe_scale_decision p instance_ v scale replies w =
    mutate_status p instance_ (observed_counts v scale) replies w
