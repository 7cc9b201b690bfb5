-- ===== src/Api/Types.antt =====
-- api/v1alpha1/hpaplus_types.go and the scaling rules of Kubernetes' autoscaling/v2. A pointer
-- or a slice that may be nil is an Option. A time is the nanoseconds since Go's zero time, so
-- that `IsZero` is a test against 0; a float64 that is only carried is its bits.
use Prim.Native.String.{String}
use hpa_plus.Prelude.{ℤ, ℕ, Option, List}

-- The strategies DecisionMaximum to DecisionMedian, and any other text.
pub data DecisionType : Type 0 where
  maximum minimum mean median : DecisionType
  other : String → DecisionType

-- ModeObserve, ModeAssist and ModeControl, and any other text.
pub data Mode : Type 0 where
  observe assist control : Mode
  other : String → Mode

pub data FailurePolicy : Type 0 where
  reactive hold_current : FailurePolicy
  other : String → FailurePolicy

-- MaxChangePolicySelect, MinChangePolicySelect, DisabledPolicySelect.
pub data SelectPolicy : Type 0 where
  max_change min_change disabled : SelectPolicy
  other : String → SelectPolicy

pub data PolicyType : Type 0 where
  pods percent : PolicyType
  other : String → PolicyType

pub record HpaScalingPolicy : Type 0 where
  pub kind : PolicyType
  pub value : ℤ
  pub period_seconds : ℤ

pub record HpaScalingRules : Type 0 where
  pub stabilization_window_seconds : Option ℤ
  pub select_policy : Option SelectPolicy
  pub policies : Option (List HpaScalingPolicy)

pub record HpaBehavior : Type 0 where
  pub scale_up : Option HpaScalingRules
  pub scale_down : Option HpaScalingRules

pub record TimestampedSample : Type 0 where
  pub time : Option ℤ
  pub replicas : ℤ
  pub metric : Option ℕ
  pub total_cpu_usage_millicores : Option ℤ
  pub request_per_pod_millicores : Option ℤ
  pub target_cpu_utilization_percentage : Option ℤ

-- The histories that a decision reads.
pub record HpaPlusStatus : Type 0 where
  pub last_scale_decision_id : String
  pub last_scale_time : Option ℤ
  pub scale_up_replica_history : List TimestampedSample
  pub scale_down_replica_history : List TimestampedSample
  pub scale_up_event_history : List TimestampedSample
  pub scale_down_event_history : List TimestampedSample
  pub current_replicas : ℤ
  pub desired_replicas : ℤ
