-- ===== src/Journal/WriteAhead.antt =====
-- applyScaleDecision: the journal stands before the write, and what must hold for one to be sent.
use hpa_plus.Prelude.{
  ℤ, ◌≡◌, refl, ap, ◌∙◌, ◌≢◌, ◌⊎◌, inl, inr, ℕ, arith, true, Option, none, some, ok, err, ◌∷◌,
  Result-cases,
}
use hpa_plus.Api.Types.{HpaPlusStatus}
use hpa_plus.Journal.Types.{
  ScaleDecision, Owner, Failure, World, and_then, Platform, scale_rejected,
}
use hpa_plus.Journal.Store.{HistoryReply, mutate_history, mutate_status}
use hpa_plus.Journal.StoreLaws.{history_loop-effect}
use hpa_plus.Journal.Clearing.{clear_status, clear_sent}
use hpa_plus.Journal.Charging.{record_frame, record_ok, projection}
use hpa_plus.Journal.Scale.{
  Validity, Request, Replies, rejected, accepted, unknown, UpdateReply, journal_decision, abandon,
  clear_scale_decision, record_decision, send_scale,
}

journal_decision-some :
    (v : Validity) (d : ScaleDecision) (now : ℤ) (pending : Option ScaleDecision)
    {j : Option ScaleDecision}
    → journal_decision v d now pending ≡ ok (some j)
    → (pending ≡ none) × (j ≡ some d)
unfolding journal_decision
journal_decision-some v d now none h = (refl, ground arith)
journal_decision-some v d now (some p) h = ground arith

journal_decision-none :
    (v : Validity) (d : ScaleDecision) (now : ℤ) (pending : Option ScaleDecision)
    → journal_decision v d now pending ≢ ok none
unfolding journal_decision
journal_decision-none v d now none h = ground arith
journal_decision-none v d now (some p) h = ground arith

module _ (instance_ : Owner) (v : Validity) (d : ScaleDecision) (replies : ℕ → HistoryReply)
    (w : World) where
  -- Journaling fails and changes nothing, or none was pending and the decision now is.
  pub journal_effect :
      let o = mutate_history instance_ (journal_decision v d) replies w in
      ((e : Failure) × (o ≡ (w, err e)))
      ⊎ ((w.journal ≡ none) × (o.0 ≡ record w { journal = some d }))
  journal_effect = elim (history_loop-effect instance_ (journal_decision v d) replies 5 w) [
    | inl refused ↦ inl refused
    | inr (inl (now, h1, h)) ↦ absurd (journal_decision-none v d now w.journal h1)
    | inr (inr (now, j, h1, h)) ↦
        let (free, is_d) = journal_decision-some v d now w.journal h1 in
        inr (free, h ∙ ap (λ j. record w { journal = j }) is_d)
  ]

module _ (p : Platform) (q : Request) (r : Replies) where
  pub abandon_sent :
      (e : Failure) (id : _) (w : World) → (abandon q.instance_ id e r.clear w).0.sent ≡ w.sent
  unfolding abandon
  abandon_sent e id w = elim (Result-cases (clear_scale_decision q.instance_ id r.clear w).1) [
    | inl (problem, h) ↦ let same = clear_sent q.instance_ id r.clear w in ground arith
    | inr (done, h) ↦ let same = clear_sent q.instance_ id r.clear w in ground arith
  ]

  -- The world that a sent decision leaves, the update's answer included.
  abbrev pub Accounted : ScaleDecision → World → Type 0
  Accounted d w =
      (r.update ≡ rejected) ⊎ (w.journal ≡ some d) ⊎ (w.status.last_scale_decision_id ≡ d.id)

  accepted_effect :
      ((a b : HpaPlusStatus)
        → p.deep_equal a b ≡ true
        → a.last_scale_decision_id ≡ b.last_scale_decision_id)
      → (d : ScaleDecision) (w : World) → w.journal ≡ some d
      → let o =
          and_then
            (record_decision p q r q.instance_ q.behavior d q.desired q.scale.observed
              r.record_status w)
            (clear_scale_decision q.instance_ d.id r.clear) in
        (o.0.sent ≡ w.sent) × ((o.0.journal ≡ some d) ⊎ (o.0.status.last_scale_decision_id ≡ d.id))
  unfolding record_decision
  accepted_effect sound d w pending =
      let recorded =
        mutate_status p q.instance_
          (projection p q.instance_ q.behavior d q.desired q.scale.observed r.record_status w)
          r.record_status w in
      let frame =
        record_frame p q.instance_ q.behavior d q.desired q.scale.observed r.record_status w in
      elim (Result-cases recorded.1) [
        | inl (e, h) ↦ (ground arith, ground arith)
        | inr (done, h) ↦
            let id =
              record_ok p q.instance_ q.behavior d q.desired q.scale.observed r.record_status w
                sound h in
            let same = clear_status q.instance_ d.id r.clear recorded.0 in
            let sent = clear_sent q.instance_ d.id r.clear recorded.0 in
            (ground arith, ground arith)
      ]

  update_cases : (u : UpdateReply) → (u ≡ accepted) ⊎ (u ≡ rejected) ⊎ (u ≡ unknown)
  update_cases accepted = inl refl
  update_cases rejected = inr (inl refl)
  update_cases unknown = inr (inr refl)

  -- What sending a decision leaves, where the decision is pending.
  pub send_scale_effect :
      ((a b : HpaPlusStatus)
        → p.deep_equal a b ≡ true
        → a.last_scale_decision_id ≡ b.last_scale_decision_id)
      → (d : ScaleDecision) (w : World) → w.journal ≡ some d
      → ((send_scale p q r d w).0.sent ≡ d ∷ w.sent) × Accounted d (send_scale p q r d w).0
  unfolding send_scale
  send_scale_effect sound d w pending =
      let sent = record w { sent = d ∷ w.sent } in
      elim (update_cases r.update) [
        | inl h ↦
            let (s, kept) = accepted_effect sound d sent pending in (ground arith, ground arith)
        | inr (inl h) ↦ let s = abandon_sent scale_rejected d.id sent in (ground arith, inl h)
        | inr (inr h) ↦ (ground arith, ground arith)
      ]
