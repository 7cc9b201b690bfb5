-- ===== src/Journal/Recovery.antt =====
-- recoverScaleDecision as a whole: what it sends, clears and charges.
use hpa_plus.Prelude.{
  ◌<◌, ◌≡◌, refl, sym, ap, ◌∙◌, ◌≢◌, ◌⊎◌, inl, inr, arith, true, false, Option, some, Result, ok,
  err, Bool-cases, Result-cases, ℕ, false, subst, same_text,
}
use hpa_plus.Api.Types.{HpaPlusStatus, HpaBehavior}
use hpa_plus.Journal.Types.{
  ScaleDecision, TargetRef, Owner, Scale, Failure, World, Platform, invalid_decision, scale_unread,
}
use hpa_plus.Journal.Store.{mutate_status}
use hpa_plus.Journal.Validate.{Validators, validate_decision_at}
use hpa_plus.Journal.Clearing.{clear_sent, clear_ok, clear_status}
use hpa_plus.Journal.Charging.{projection, Charged, record_frame, record_charges}
use hpa_plus.Journal.Scale.{clear_scale_decision}
use hpa_plus.Journal.Recover.{
  RecoverReplies, ScaleRead, found, missing, unreadable, is_settled, is_untouched, recover_from,
  recover_scale_decision,
}

read_cases :
    (s : ScaleRead) → ((scale : Scale) × (s ≡ found scale)) ⊎ (s ≡ missing) ⊎ (s ≡ unreadable)
read_cases (found scale) = inl (scale, refl)
read_cases missing = inr (inl refl)
read_cases unreadable = inr (inr refl)

module _ (v : Validators) (p : Platform) (instance_ : Owner) (target : TargetRef)
    (behavior : Option HpaBehavior) (d : ScaleDecision) (r : RecoverReplies) (w : World) where
  -- How a recovery ends: with nothing done, by clearing the journal, or by clearing it after the
  -- decision was recorded.
  abbrev Cleared : World → Type 0
  Cleared w' =
      recover_scale_decision v p instance_ target behavior d r w
      ≡ clear_scale_decision instance_ d.id r.clear w'

  abbrev recorded : Scale → World × Result Failure (Unit {0})
  recorded scale =
      mutate_status p instance_
        (projection p instance_ behavior d scale.replicas scale.observed r.record_status w)
        r.record_status w

  abbrev Ended : Type 0
  Ended =
      ((w' : World) × (e : Failure) × (w'.sent ≡ w.sent)
        × (recover_scale_decision v p instance_ target behavior d r w ≡ (w', err e)))
      ⊎ Cleared w
      ⊎ ((scale : Scale) × ((recorded scale).1 ≡ ok tt) × Cleared (recorded scale).0)

  recover_ended : Ended
  unfolding recover_scale_decision recover_from
  recover_ended = elim (Bool-cases (validate_decision_at v d r.now)) [
    | inr invalid ↦ inl (w, invalid_decision, refl, ground arith)
    | inl valid ↦ elim (Bool-cases (is_settled instance_ target d w.status)) [
      | inl settled ↦ inr (inl (ground arith))
      | inr unsettled ↦ elim (read_cases r.scale) [
        | inr (inl h) ↦ inr (inl (ground arith))
        | inr (inr h) ↦ inl (w, scale_unread, refl, ground arith)
        | inl (scale, h) ↦ elim (Bool-cases (is_untouched d scale)) [
          | inl untouched ↦ inr (inl (ground arith))
          | inr touched ↦ elim (Result-cases (recorded scale).1) [
            | inl (e, h1) ↦ inl (
              (recorded scale).0,
              e,
              (record_frame p instance_ behavior d scale.replicas scale.observed r.record_status
                  w).1,
              ground arith,
            )
            | inr (done, h1) ↦ inr (inr (scale, h1, ground arith))
          ]
        ]
      ]
    ]
  ]

  -- Recovering a decision sends no Scale update.
  pub recover_sent : (recover_scale_decision v p instance_ target behavior d r w).0.sent ≡ w.sent
  recover_sent = elim recover_ended [
    | inl (w', e, same, h) ↦ ap (λ o. o.0.sent) h ∙ same
    | inr (inl h) ↦ ap (λ o. o.0.sent) h ∙ clear_sent instance_ d.id r.clear w
    | inr (inr (scale, fine, h)) ↦
        ap (λ o. o.0.sent) h
        ∙ clear_sent instance_ d.id r.clear (recorded scale).0
        ∙ (record_frame p instance_ behavior d scale.replicas scale.observed r.record_status w).1
  ]

  -- Where a recovery succeeds, no decision of that id is pending any more.
  pub recover_ok :
      (pending : ScaleDecision)
      → (recover_scale_decision v p instance_ target behavior d r w).1 ≡ ok tt
      → (recover_scale_decision v p instance_ target behavior d r w).0.journal ≡ some pending
      → pending.id ≢ d.id
  recover_ok pending fine held = elim recover_ended [
    | inl (w', e, same, h) ↦ cc
    | inr (inl h) ↦
        clear_ok instance_ d.id r.clear w pending (sym (ap (λ o. o.1) h) ∙ fine)
          (sym (ap (λ o. o.0.journal) h) ∙ held)
    | inr (inr (scale, recorded_ok, h)) ↦
        clear_ok instance_ d.id r.clear (recorded scale).0 pending (sym (ap (λ o. o.1) h) ∙ fine)
          (sym (ap (λ o. o.0.journal) h) ∙ held)
  ]

  -- Where the Scale was written since a valid decision that is not settled, a recovery that
  -- succeeds charges it, at the time of one of the attempts to patch the status: the status then
  -- carries the decision's id, time and recommendations and the counts of the Scale, and the size
  -- of the change that the decision attempted is appended to the events of its direction, before
  -- both histories of events are pruned; if equal statuses carry the same id.
  pub recover_charges :
      ((a b : HpaPlusStatus)
        → p.deep_equal a b ≡ true
        → a.last_scale_decision_id ≡ b.last_scale_decision_id)
      → (scale : Scale) → validate_decision_at v d r.now ≡ true
      → is_settled instance_ target d w.status ≡ false
      → r.scale ≡ found scale
      → is_untouched d scale ≡ false
      → (recover_scale_decision v p instance_ target behavior d r w).1 ≡ ok tt
      → (k : ℕ) × (k < p.steps)
        × Charged behavior
            (r.record_status k).now
            d
            scale.replicas
            scale.observed
            w.status
            (recover_scale_decision v p instance_ target behavior d r w).0.status
  unfolding recover_scale_decision recover_from is_settled
  recover_charges sound scale valid unsettled read touched fine =
      elim (Result-cases (recorded scale).1) [
        | inl (e, h1) ↦ ground arith
        | inr (done, h1) ↦
            let step : Cleared (recorded scale).0 = ground arith in
            let differ : same_text w.status.last_scale_decision_id d.id ≡ false = ground arith in
            let (k, fits, c) =
              record_charges p instance_ behavior d scale.replicas scale.observed r.record_status w
                sound differ h1 in
            (
              k,
              fits,
              subst
                  (Charged behavior (r.record_status k).now d scale.replicas scale.observed
                    w.status)
                  (sym (
                    ap (λ o. o.0.status) step
                    ∙ clear_status instance_ d.id r.clear (recorded scale).0))
                  c,
            )
      ]
