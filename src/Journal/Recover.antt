-- ===== src/Journal/Recover.antt =====
-- internal/controllers/scale_decision.go: recoverScaleDecision, for a decision that a cycle finds
-- in the journal.
use hpa_plus.Prelude.{ℤ, ℕ, same_text, Bool, not, ◌&&◌, ◌||◌, Option, if◌then◌else◌, ok, err}
use hpa_plus.Api.Types.{HpaBehavior, HpaPlusStatus}
use hpa_plus.Journal.Types.{
  TargetRef, ScaleDecision, Owner, Scale, scale_unread, invalid_decision, World, Outcome, and_then,
  Platform,
}
use hpa_plus.Journal.Store.{HistoryReply, StatusReply, mutate_status}
use hpa_plus.Journal.Validate.{Validators, validate_decision_at}
use hpa_plus.Journal.Scale.{clear_scale_decision, project_scale_decision}

-- The answer to the read of the Scale.
pub data ScaleRead : Type 0 where
  found : Scale → ScaleRead
  missing unreadable : ScaleRead

pub record RecoverReplies : Type 0 where
  pub now : ℤ
  pub scale : ScaleRead
  pub record_status : ℕ → StatusReply
  pub clear : ℕ → HistoryReply

unfoldable pub same_target : TargetRef → TargetRef → Bool
same_target a b =
    same_text a.kind b.kind && same_text a.name b.name && same_text a.api_version b.api_version

-- The decision is of another owner or target, or was recorded already.
unfoldable pub is_settled : Owner → TargetRef → ScaleDecision → HpaPlusStatus → Bool
is_settled instance_ target d s =
    not (same_text d.owner_uid instance_.uid)
    || not (same_target d.target target)
    || same_text s.last_scale_decision_id d.id

-- The target was made anew, or nobody wrote it since.
unfoldable pub is_untouched : ScaleDecision → Scale → Bool
is_untouched d scale =
    not (same_text scale.uid d.target_uid) || same_text scale.resource_version d.resource_version

module _ (v : Validators) (p : Platform) (instance_ : Owner) (target : TargetRef)
    (behavior : Option HpaBehavior) (d : ScaleDecision) (r : RecoverReplies) where
  unfoldable pub recover_from : Scale → World → Outcome
  recover_from scale w =
      if is_untouched d scale
      then clear_scale_decision instance_ d.id r.clear w
      else and_then
          (mutate_status p instance_
            (λ now s. ok (project_scale_decision behavior now d scale.replicas scale.observed s))
            r.record_status w)
          (clear_scale_decision instance_ d.id r.clear)

  unfoldable pub recover_scale_decision : World → Outcome
  recover_scale_decision w =
      if not (validate_decision_at v d r.now)
      then (w, err invalid_decision)
      else if is_settled instance_ target d w.status
      then clear_scale_decision instance_ d.id r.clear w
      else elim r.scale [
        | missing ↦ clear_scale_decision instance_ d.id r.clear w
        | unreadable ↦ (w, err scale_unread)
        | found scale ↦ recover_from scale w
      ]
