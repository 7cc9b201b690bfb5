-- ===== src/Journal/Safety.antt =====
-- applyScaleDecision as a whole: when a Scale update is sent, and what it leaves behind.
use hpa_plus.Prelude.{
  ◌≡◌, sym, subst, ap, ◌∙◌, ◌≢◌, ◌⊎◌, inl, inr, arith, true, false, none, some, ok, err, ◌∷◌,
  Bool-cases, Result-cases, Option-cases, ◌==ℤ◌, >>=-eq-ok, ◌>>◌, if◌then◌else◌,
}
use hpa_plus.Api.Types.{HpaPlusStatus}
use hpa_plus.Journal.Types.{ScaleDecision, observe_mode, World, Outcome, Platform}
use hpa_plus.Journal.Store.{check_owner, same_owner, mutate_history}
use hpa_plus.Journal.StatusLaws.{status_loop-effect}
use hpa_plus.Journal.Clearing.{clear_sent}
use hpa_plus.Journal.WriteAhead.{journal_effect, abandon_sent, send_scale_effect, Accounted}
use hpa_plus.Journal.Scale.{
  Request, Replies, rejected, is_observe, preflight, check_validity, check_decision_budget,
  journal_decision, is_same_instance, decision_of, send_scale, confirm_owner, keep_mutation,
  write_scale, change_target, keep_target, apply_scale_decision,
}

preflight_ok :
    (q : Request) (r : Replies)
    → preflight q r ≡ ok tt
    → (is_observe q.mode ≡ false)
      × (check_owner q.instance_ r.first_owner ≡ ok tt)
      × (check_validity q.validity r.checked_at ≡ ok tt)
unfolding preflight
preflight_ok q r h =
    let mode = is_observe q.mode in
    let rest = λ (u : Unit {0}).
      check_owner q.instance_ r.first_owner >> check_validity q.validity r.checked_at in
    let (a, h1, h2) = >>=-eq-ok (if mode then err observe_mode else ok tt) rest h in
    let (b, h3, h4) =
      >>=-eq-ok (check_owner q.instance_ r.first_owner)
        (λ (u : Unit {0}). check_validity q.validity r.checked_at) h2 in
    (ground arith, h3, h4)

module _ (p : Platform) (q : Request) (r : Replies)
    (sound : (a b : HpaPlusStatus)
      → p.deep_equal a b ≡ true
      → a.last_scale_decision_id ≡ b.last_scale_decision_id) where
  -- The update of `d` was sent, is accounted for, and `Checked` held.
  abbrev SentIf : Type 0 → ScaleDecision → World → Outcome → Type 0
  SentIf Checked d w o = (o.0.sent ≡ d ∷ w.sent) × Accounted p q r d o.0 × Checked

  abbrev IsOwned : Type 0
  IsOwned = check_owner q.instance_ r.current_owner ≡ ok tt

  abbrev IsValidWrite : Type 0
  IsValidWrite = (check_validity q.validity r.prepared_at ≡ ok tt) × IsOwned

  confirm_effect :
      (d : ScaleDecision) (w : World)
      → w.journal ≡ some d
      → let o = confirm_owner p q r d w in (o.0.sent ≡ w.sent) ⊎ SentIf IsOwned d w o
  unfolding confirm_owner check_owner
  confirm_effect d w pending = elim (Option-cases r.current_owner) [
    | inl h ↦ inl (ground arith)
    | inr (current, h) ↦ elim (Bool-cases (same_owner q.instance_ current)) [
      | inr changed ↦ elim (Bool-cases (is_same_instance q.instance_ current)) [
        | inl same ↦ let kept = clear_sent current d.id r.clear w in inl (ground arith)
        | inr differ ↦ inl (ground arith)
      ]
      | inl same ↦ elim (Result-cases (check_decision_budget p q r w.status d r.second_budget_at)) [
        | inl (e, h1) ↦ let kept = abandon_sent p q r e d.id w in inl (ground arith)
        | inr (fits, h1) ↦
            let step : confirm_owner p q r d w ≡ send_scale p q r d w = ground arith in
            let (wrote, accounted) = send_scale_effect p q r sound d w pending in
            inr (subst (SentIf IsOwned d w) (sym step) (wrote, accounted, ground arith))
      ]
    ]
  ]

  write_effect :
      (d : ScaleDecision) (w : World)
      → w.journal ≡ some d
      → let o = write_scale p q r d w in (o.0.sent ≡ w.sent) ⊎ SentIf IsValidWrite d w o
  unfolding write_scale
  write_effect d w pending = elim (Result-cases (check_validity q.validity r.prepared_at)) [
    | inl (e, h) ↦ let kept = abandon_sent p q r e d.id w in inl (ground arith)
    | inr (valid, h) ↦
        let step : write_scale p q r d w ≡ confirm_owner p q r d w = ground arith in
        elim (confirm_effect d w pending) [
          | inl same ↦ inl (ap (λ o. o.0.sent) step ∙ same)
          | inr (wrote, accounted, owned) ↦
              inr (subst (SentIf IsValidWrite d w) (sym step) (wrote, accounted, (h, owned)))
        ]
  ]

  abbrev IsFree : World → Type 0
  IsFree w = (w.journal ≡ none) × IsValidWrite

  journaled_effect :
      (d : ScaleDecision) (w : World)
      → check_decision_budget p q r w.status d r.first_budget_at ≡ ok tt
      → w.journal ≡ none
      → let journaled = mutate_history q.instance_ (journal_decision q.validity d) r.journal w in
        journaled.0 ≡ record w { journal = some d }
        → let o = change_target p q r d w in (o.0.sent ≡ w.sent) ⊎ SentIf (IsFree w) d w o
  unfolding change_target
  journaled_effect d w fits free made =
      let journaled = mutate_history q.instance_ (journal_decision q.validity d) r.journal w in
      elim (Result-cases journaled.1) [
        | inl (e, h) ↦
            let step : change_target p q r d w ≡ (journaled.0, err e) = ground arith in
            inl (ap (λ o. o.0.sent) step ∙ ap (λ w. w.sent) made)
        | inr (done, h) ↦
            let step : change_target p q r d w ≡ write_scale p q r d journaled.0 = ground arith in
            let before = ap (λ w. w.sent) made in
            elim (write_effect d journaled.0 (ap (λ w. w.journal) made)) [
              | inl same ↦ inl (ap (λ o. o.0.sent) step ∙ same ∙ before)
              | inr (wrote, accounted, valid) ↦ inr (
                  subst (SentIf (IsFree w) d w) (sym step)
                    (wrote ∙ ap (λ xs. d ∷ xs) before, accounted, (free, valid)))
            ]
      ]

  change_effect :
      (d : ScaleDecision) (w : World)
      → let o = change_target p q r d w in (o.0.sent ≡ w.sent) ⊎ SentIf (IsFree w) d w o
  unfolding change_target
  change_effect d w =
      elim (Result-cases (check_decision_budget p q r w.status d r.first_budget_at)) [
        | inl (e, h) ↦ inl (ground arith)
        | inr (fits, h) ↦ elim (journal_effect q.instance_ q.validity d r.journal w) [
          | inl (e, h1) ↦ inl (ground arith)
          | inr (free, h1) ↦ journaled_effect d w h free h1
        ]
      ]

  abbrev IsSendable : World → Type 0
  IsSendable w = (preflight q r ≡ ok tt) × ((q.scale.replicas ==ℤ q.desired) ≡ false) × IsFree w

  keep_sent : (w : World) → (keep_target p q r w).0.sent ≡ w.sent
  unfolding keep_target
  keep_sent w =
      elim (status_loop-effect p q.instance_ (keep_mutation p q r) r.unchanged p.steps w) [
        | inl (e, h) ↦ ap (λ o. o.0.sent) h
        | inr (inl (k, s, h1, h2, h)) ↦ ap (λ o. o.0.sent) h
        | inr (inr (k, fits, s, h1, h)) ↦ ap (λ w. w.sent) h
      ]

  apply_effect :
      (w : World)
      → let o = apply_scale_decision p q r w in
        (o.0.sent ≡ w.sent) ⊎ SentIf (IsSendable w) (decision_of q r) w o
  unfolding apply_scale_decision
  apply_effect w = elim (Result-cases (preflight q r)) [
    | inl (e, h) ↦ inl (ground arith)
    | inr (passed, h) ↦ elim (Bool-cases (q.scale.replicas ==ℤ q.desired)) [
      | inl equal ↦ let kept = keep_sent w in inl (ground arith)
      | inr differ ↦
          let step : apply_scale_decision p q r w ≡ change_target p q r (decision_of q r) w =
            ground arith in
          elim (change_effect (decision_of q r) w) [
            | inl same ↦ inl (ap (λ o. o.0.sent) step ∙ same)
            | inr (wrote, accounted, free) ↦ inr (
                subst (SentIf (IsSendable w) (decision_of q r) w) (sym step)
                  (wrote, accounted, (h, differ, free)))
          ]
    ]
  ]

  -- applyScaleDecision sends no update, or it sends that of its decision alone: then the server
  -- refused it, or the journal holds the decision, or the status carries its id; if equal statuses
  -- carry the same id.
  pub apply_write_ahead :
      (w : World)
      → let o = apply_scale_decision p q r w in
        (o.0.sent ≡ w.sent)
        ⊎ ((o.0.sent ≡ decision_of q r ∷ w.sent)
            × ((r.update ≡ rejected)
                ⊎ (o.0.journal ≡ some (decision_of q r))
                ⊎ (o.0.status.last_scale_decision_id ≡ q.id)))
  unfolding decision_of
  apply_write_ahead w = elim (apply_effect w) [
    | inl same ↦ inl same
    | inr (wrote, accounted, checked) ↦ inr (wrote, accounted)
  ]

  -- An update is sent only outside observe mode, for a changed count, with no decision pending,
  -- while the inputs are valid before and after the journal is written, and while the owner is
  -- unchanged at both times; if equal statuses carry the same id.
  pub apply_sends_checked :
      (w : World)
      → (apply_scale_decision p q r w).0.sent ≢ w.sent
      → (is_observe q.mode ≡ false)
        × ((q.scale.replicas ==ℤ q.desired) ≡ false)
        × (w.journal ≡ none)
        × (check_validity q.validity r.checked_at ≡ ok tt)
        × (check_validity q.validity r.prepared_at ≡ ok tt)
        × (check_owner q.instance_ r.first_owner ≡ ok tt)
        × (check_owner q.instance_ r.current_owner ≡ ok tt)
  apply_sends_checked w sends = elim (apply_effect w) [
    | inl same ↦ absurd (sends same)
    | inr (wrote, accounted, (passed, differ, (free, (valid, owned)))) ↦
        let (mode, owner, inputs) = preflight_ok q r passed in
        (mode, differ, free, inputs, valid, owner, owned)
  ]
