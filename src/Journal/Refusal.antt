-- ===== src/Journal/Refusal.antt =====
-- What blocks a write: a decision that is pending, and observe mode.
use hpa_plus.Prelude.{ℤ, ◌≡◌, inl, inr, arith, false, some, ok, err, ℕ, Result-cases, ◌==ℤ◌}
use hpa_plus.Api.Types.{HpaPlusStatus}
use hpa_plus.Journal.Types.{ScaleDecision, Owner, Scale, Failure, World, Platform}
use hpa_plus.Journal.Store.{StatusReply}
use hpa_plus.Journal.StatusLaws.{status_loop-effect}
use hpa_plus.Journal.WriteAhead.{journal_effect}
use hpa_plus.Journal.Scale.{
  Request, Replies, Validity, preflight, check_validity, check_decision_budget, decision_of,
  change_target, apply_scale_decision, observed_counts, observe_scale_decision,
}

module _ (p : Platform) (q : Request) (r : Replies) (w : World) where
  change_refused :
      (d pending : ScaleDecision)
      → w.journal ≡ some pending
      → (e : Failure) × (change_target p q r d w ≡ (w, err e))
  unfolding change_target
  change_refused d pending held =
      elim (Result-cases (check_decision_budget p q r w.status d r.first_budget_at)) [
        | inl (e, h) ↦ (e, ground arith)
        | inr (fits, h) ↦ elim (journal_effect q.instance_ q.validity d r.journal w) [
          | inl (e, h1) ↦ (e, ground arith)
          | inr (free, h1) ↦ cc
        ]
      ]

  -- While a decision is pending, a count that differs from the current one is not applied: the
  -- journal, the status and the updates that were sent stay as they are, and an error comes back.
  pub apply_unresolved :
      (pending : ScaleDecision)
      → w.journal ≡ some pending
      → (q.scale.replicas ==ℤ q.desired) ≡ false
      → (e : Failure) × (apply_scale_decision p q r w ≡ (w, err e))
  unfolding apply_scale_decision
  apply_unresolved pending held differ = elim (Result-cases (preflight q r)) [
    | inl (e, h) ↦ (e, ground arith)
    | inr (passed, h) ↦
        let (e, refused) = change_refused (decision_of q r) pending held in (e, ground arith)
  ]

counted :
    (v : Validity) (scale : Scale) (now : ℤ) (s : HpaPlusStatus) {s' : HpaPlusStatus}
    → observed_counts v scale now s ≡ ok s'
    → s' ≡ record s { current_replicas = scale.observed; desired_replicas = scale.replicas }
unfolding observed_counts
counted v scale now s {s'} h = elim (Result-cases (check_validity v now)) [
  | inl (e, h1) ↦ ground arith
  | inr (u, h1) ↦ ground arith
]

-- observeScaleDecision leaves the journal, what was sent, the decision that was recorded last and
-- all histories as they are.
pub observe_scale_decision_frame :
    (p : Platform) (instance_ : Owner) (v : Validity) (scale : Scale) (replies : ℕ → StatusReply)
    (w : World)
    → let w' = (observe_scale_decision p instance_ v scale replies w).0 in
      (w'.journal ≡ w.journal)
      × (w'.sent ≡ w.sent)
      × (w'.status.last_scale_decision_id ≡ w.status.last_scale_decision_id)
      × (w'.status.last_scale_time ≡ w.status.last_scale_time)
      × (w'.status.scale_up_replica_history ≡ w.status.scale_up_replica_history)
      × (w'.status.scale_down_replica_history ≡ w.status.scale_down_replica_history)
      × (w'.status.scale_up_event_history ≡ w.status.scale_up_event_history)
      × (w'.status.scale_down_event_history ≡ w.status.scale_down_event_history)
unfolding observe_scale_decision
observe_scale_decision_frame p instance_ v scale replies w =
    elim (status_loop-effect p instance_ (observed_counts v scale) replies p.steps w) [
      | inl (e, h) ↦ ground arith
      | inr (inl (k, s, h1, h2, h)) ↦ ground arith
      | inr (inr (k, fits, s, h1, h)) ↦
          let e = counted v scale (replies k).now w.status h1 in ground arith
    ]
