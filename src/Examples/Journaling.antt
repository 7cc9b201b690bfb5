-- ===== src/Examples/Journaling.antt =====
-- Decisions that are applied and recovered on concrete worlds.
use hpa_plus.Prelude.{
  ◌<◌, pos, ℕ, ◌≡◌, ◌≢◌, ◌⊎◌, refl, ap, ◌&&◌, ◌==ℤ◌, true, false, none, some, [], ◌∷◌, ok, err,
  same_text, same_text_iff, Bool-cases, inl, inr,
}
use hpa_plus.Api.Types.{HpaPlusStatus, control}
use hpa_plus.Journal.Types.{TargetRef, ScaleDecision, Owner, Scale, Failure, World, Platform}
use hpa_plus.Journal.Store.{
  HistoryReply, StatusReply, saved, check_owner, same_owner, commit_history, publish_history,
  history_attempt, history_loop, check_status_budget, patch_status, publish_status, status_attempt,
  status_loop,
}
use hpa_plus.Journal.Validate.{
  Validators, valid_recommendation, valid_recommendations, valid_counts, any_blank, valid_identity,
  valid_api_version, valid_target, validate_decision, validate_decision_at,
}
use hpa_plus.Journal.Scale.{
  Request, Replies, accepted, rejected, is_observe, metrics_over, predictions_over, check_validity,
  clear_pending, charge_up, charge_down, charged, project_scale_decision, preflight, decision_of,
  journal_decision, keep_counts, abandon, is_same_instance, check_decision_budget, keep_target,
  record_decision, send_scale, confirm_owner, write_scale, change_target, apply_scale_decision,
  observed_counts, observe_scale_decision,
}
use hpa_plus.Journal.Recover.{
  RecoverReplies, found, same_target, is_settled, is_untouched, recover_from,
  recover_scale_decision,
}
use hpa_plus.Journal.Charging.{Charged, project_scale_decision_once}
use hpa_plus.Journal.Safety.{apply_write_ahead, apply_sends_checked}
use hpa_plus.Journal.Refusal.{apply_unresolved, observe_scale_decision_frame}
use hpa_plus.Journal.Recovery.{recover_ok, recover_charges}
use hpa_plus.Examples.Behaviors.{sample}
use hpa_plus.Examples.Evaluation.{evaluated}

unfoldable journaled : Unit {0}
unfolding evaluated same_text check_owner same_owner commit_history publish_history history_attempt
    history_loop check_status_budget patch_status publish_status status_attempt status_loop
    valid_recommendation valid_recommendations valid_counts any_blank valid_identity
    valid_api_version valid_target validate_decision validate_decision_at metrics_over
    predictions_over check_validity clear_pending charge_up charge_down charged
    project_scale_decision preflight decision_of journal_decision keep_counts abandon
    is_same_instance check_decision_budget keep_target record_decision send_scale confirm_owner
    write_scale change_target apply_scale_decision observed_counts observe_scale_decision
    same_target is_settled is_untouched recover_from recover_scale_decision
journaled = tt

abbrev platform : Platform
platform = record {
  complete_bytes = λ s. some 900;
  accounting_bytes = λ s. some 700;
  deep_equal = λ a b.
      same_text a.last_scale_decision_id b.last_scale_decision_id
      && a.current_replicas ==ℤ b.current_replicas
      && a.desired_replicas ==ℤ b.desired_replicas;
  steps = 4;
}

platform_sound :
    (a b : HpaPlusStatus)
    → platform.deep_equal a b ≡ true
    → a.last_scale_decision_id ≡ b.last_scale_decision_id
platform_sound a b h =
    elim (Bool-cases (same_text a.last_scale_decision_id b.last_scale_decision_id)) [
      | inl same ↦ (same_text_iff a.last_scale_decision_id b.last_scale_decision_id).0 same
      | inr differ ↦ cc
    ]

abbrev owner : Owner
owner = record { uid = "u1"; generation = pos 3; deleting = false }

abbrev deployment : TargetRef
deployment = record { kind = "Deployment"; name = "web"; api_version = "" }

abbrev web : Scale
web = record { uid = "s1"; resource_version = "41"; replicas = pos 4; observed = pos 4 }

abbrev status : HpaPlusStatus
status = record {
  last_scale_decision_id = "d0";
  last_scale_time = none;
  scale_up_replica_history = [];
  scale_down_replica_history = [];
  scale_up_event_history = [];
  scale_down_event_history = [];
  current_replicas = pos 4;
  desired_replicas = pos 4;
}

abbrev idle : World
idle = record { journal = none; status = status; sent = [] }

abbrev request : Request
request = record {
  id = "d1";
  instance_ = owner;
  mode = control;
  target = deployment;
  behavior = none;
  scale = web;
  desired = pos 6;
  scale_up_recommendations = sample (pos 1000) (pos 6) ∷ [];
  scale_down_recommendations = [];
  validity = record { metrics_until = some (pos 2000); predictions_until = none };
}

abbrev history_reply : ℕ → HistoryReply
history_reply n = record {
  owner = some owner;
  loaded = true;
  now = pos 1000;
  current_owner = some owner;
  commit = saved;
}

abbrev status_reply : ℕ → StatusReply
status_reply n = record { alive = true; owner = some owner; now = pos 1000; patch = saved }

-- The status cannot be patched: the update is accepted, and the decision stays in the journal.
abbrev replies : Replies
replies = record {
  first_owner = some owner;
  checked_at = pos 1000;
  stamped_at = pos 1000;
  first_budget_at = pos 1000;
  unchanged = status_reply;
  journal = history_reply;
  prepared_at = pos 1000;
  current_owner = some owner;
  second_budget_at = pos 1000;
  update = accepted;
  record_status = λ n. record { alive = false; owner = none; now = pos 1000; patch = saved };
  clear = history_reply;
}

abbrev decision : ScaleDecision
decision = record {
  id = "d1";
  owner_uid = "u1";
  target = deployment;
  target_uid = "s1";
  resource_version = "41";
  previous_desired = pos 4;
  desired = pos 6;
  observed = pos 4;
  time = pos 1000;
  scale_up_recommendations = sample (pos 1000) (pos 6) ∷ [];
  scale_down_recommendations = [];
}

abbrev interrupted : World
interrupted = record { journal = some decision; status = status; sent = decision ∷ [] }

apply_test : (apply_scale_decision platform request replies idle).0 ≡ interrupted
unfolding journaled
apply_test = refl

apply_write_ahead_example :
    let o = apply_scale_decision platform request replies idle in
    (o.0.sent ≡ [])
    ⊎ ((o.0.sent ≡ decision_of request replies ∷ [])
        × ((replies.update ≡ rejected)
            ⊎ (o.0.journal ≡ some (decision_of request replies))
            ⊎ (o.0.status.last_scale_decision_id ≡ "d1")))
apply_write_ahead_example = apply_write_ahead platform request replies platform_sound idle

apply_sends : (apply_scale_decision platform request replies idle).0.sent ≢ idle.sent
apply_sends same = let e = ap (λ w. w.sent) apply_test in cc

apply_sends_checked_example :
    (is_observe request.mode ≡ false)
    × ((web.replicas ==ℤ request.desired) ≡ false)
    × (idle.journal ≡ none)
    × (check_validity request.validity replies.checked_at ≡ ok tt)
    × (check_validity request.validity replies.prepared_at ≡ ok tt)
    × (check_owner owner replies.first_owner ≡ ok tt)
    × (check_owner owner replies.current_owner ≡ ok tt)
apply_sends_checked_example =
    apply_sends_checked platform request replies platform_sound idle apply_sends

replicas_differ : (web.replicas ==ℤ request.desired) ≡ false
unfolding evaluated
replicas_differ = refl

apply_unresolved_example :
    (e : Failure) × (apply_scale_decision platform request replies interrupted
      ≡ (interrupted, err e))
apply_unresolved_example =
    apply_unresolved platform request replies interrupted decision refl replicas_differ

project_scale_decision_once_example :
    project_scale_decision none
      (pos 9000)
      decision
      (pos 7)
      (pos 5)
      (project_scale_decision none (pos 1000) decision (pos 6) (pos 4) status)
    ≡ project_scale_decision none (pos 1000) decision (pos 6) (pos 4) status
project_scale_decision_once_example =
    project_scale_decision_once none none (pos 1000) (pos 9000) decision (pos 6) (pos 7) (pos 4)
      (pos 5) status

observe_scale_decision_frame_example :
    let w' =
      (observe_scale_decision platform owner request.validity web status_reply interrupted).0 in
    (w'.journal ≡ some decision)
    × (w'.sent ≡ decision ∷ [])
    × (w'.status.last_scale_decision_id ≡ "d0")
    × (w'.status.last_scale_time ≡ none)
    × (w'.status.scale_up_replica_history ≡ [])
    × (w'.status.scale_down_replica_history ≡ [])
    × (w'.status.scale_up_event_history ≡ [])
    × (w'.status.scale_down_event_history ≡ [])
observe_scale_decision_frame_example =
    observe_scale_decision_frame platform owner request.validity web status_reply interrupted

abbrev validators : Validators
validators = record {
  is_blank = λ s. same_text s "";
  is_path_segment = λ s. true;
  parse_group_version = λ s. none;
  is_dns1035_label = λ s. true;
  is_dns1123_subdomain = λ s. true;
}

-- The Scale has been written since.
abbrev written : Scale
written = record { uid = "s1"; resource_version = "42"; replicas = pos 6; observed = pos 4 }

abbrev recover_replies : RecoverReplies
recover_replies = record {
  now = pos 1500;
  scale = found written;
  record_status = status_reply;
  clear = history_reply;
}

recover_test :
    (recover_scale_decision validators platform owner deployment none decision recover_replies
      interrupted).1
    ≡ ok tt
unfolding journaled
recover_test = refl

recover_charges_example :
    (k : ℕ) × (k < 4)
    × Charged none
        (pos 1000)
        decision
        (pos 6)
        (pos 4)
        status
        (recover_scale_decision validators platform owner deployment none decision recover_replies
          interrupted).0.status
unfolding journaled
recover_charges_example =
    recover_charges validators platform owner deployment none decision recover_replies interrupted
      platform_sound written refl refl refl refl recover_test

abbrev other_decision : ScaleDecision
other_decision = record decision { id = "d9" }

-- The journal holds another decision than the one recovered.
abbrev replaced : World
replaced = record interrupted { journal = some other_decision }

replaced_test :
    let o =
      recover_scale_decision validators platform owner deployment none decision recover_replies
        replaced in
    (o.1 ≡ ok tt) × (o.0.journal ≡ some other_decision)
unfolding journaled
replaced_test = (refl, refl)

recover_ok_example : other_decision.id ≢ "d1"
recover_ok_example =
    recover_ok validators platform owner deployment none decision recover_replies replaced
      other_decision replaced_test.0 replaced_test.1
