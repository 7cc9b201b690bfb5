-- ===== src/Journal/Types.antt =====
-- The records of internal/controllers/scale_decision.go, of the ScaleDecision of
-- api/v1alpha1/hpaplus_types.go, and the objects of the cluster that they stand in.
use hpa_plus.Prelude.{ℤ, ℕ, Bool, String, List, Option, Result, ok, err}
use hpa_plus.Api.Types.{TimestampedSample, HpaPlusStatus}

-- autoscaling/v2's CrossVersionObjectReference.
pub record TargetRef : Type 0 where
  pub kind : String
  pub name : String
  pub api_version : String

pub record ScaleDecision : Type 0 where
  pub id : String
  pub owner_uid : String
  pub target : TargetRef
  pub target_uid : String
  pub resource_version : String
  pub previous_desired : ℤ
  pub desired : ℤ
  pub observed : ℤ
  pub time : ℤ
  pub scale_up_recommendations : List TimestampedSample
  pub scale_down_recommendations : List TimestampedSample

-- What a read of the HPAPlus object says of its identity.
pub record Owner : Type 0 where
  pub uid : String
  pub generation : ℤ
  pub deleting : Bool

-- A Scale subresource: spec.replicas and status.replicas.
pub record Scale : Type 0 where
  pub uid : String
  pub resource_version : String
  pub replicas : ℤ
  pub observed : ℤ

pub data Failure : Type 0 where
  cancelled owner_unread owner_changed metrics_expired predictions_expired : Failure
  unresolved conflict store_failed status_capacity observe_mode : Failure
  scale_rejected scale_unknown scale_unread invalid_decision : Failure
  -- a failure, and another one of the journal's clearing
  clear_failed : Failure → Failure → Failure

-- The durable state: the journal's PendingScale, the status, and the Scale updates that were
-- sent, the last first.
pub record World : Type 0 where
  pub journal : Option ScaleDecision
  pub status : HpaPlusStatus
  pub sent : List ScaleDecision

abbrev pub Outcome : Type 0
Outcome = World × Result Failure (Unit {0})

-- The next step, where the one before it succeeded.
abbrev pub and_then : Outcome → (World → Outcome) → Outcome
and_then o next = elim o.1 [ ok done ↦ next o.0 | err e ↦ (o.0, err e) ]

-- Size of the encoded status, and equality of two statuses: encoding/json and
-- equality.Semantic.DeepEqual. `complete` also counts the reporting fields.
pub record Platform : Type 0 where
  pub complete_bytes : HpaPlusStatus → Option ℕ
  pub accounting_bytes : HpaPlusStatus → Option ℕ
  pub deep_equal : HpaPlusStatus → HpaPlusStatus → Bool
  -- the attempts of retry.DefaultBackoff
  pub steps : ℕ
