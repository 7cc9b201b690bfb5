-- ===== src/Journal/Charging.antt =====
-- projectScaleDecision and recordScaleDecision: how often a decision is charged.
use hpa_plus.Prelude.{
  ℤ, ◌<◌, ◌<ℤ◌, ◌≤ℤ◌, ◌-ℤ◌, ltb_ℤ, ◌≡◌, refl, sym, ap, subst, ◌∙◌, ◌⊎◌, inl, inr, ℕ, arith, true,
  false, [], ◌∷◌, ◌++◌, Option, some, ok, Bool-cases, same_text, same_text_iff, ok_inj,
}
use hpa_plus.Api.Types.{HpaPlusStatus, HpaBehavior}
use hpa_plus.Journal.Types.{ScaleDecision, Owner, World, Platform}
use hpa_plus.Journal.Store.{StatusReply, StatusMutation, mutate_status}
use hpa_plus.Journal.StatusLaws.{status_loop-effect}
use hpa_plus.Journal.Scale.{project_scale_decision, charged, charge_up, charge_down}
use hpa_plus.Api.Defaults.{default_behavior}
use hpa_plus.Scaling.Windows.{prune_to_window, get_longest_policy_period}
use hpa_plus.Decision.Defs.{sample_at}

-- What recording a decision makes of a status: its id, its time, its recommendations and the
-- counts, and the size of its change as the last event of its own direction, before each history
-- of events is pruned at `now` to the longest period of the policies.
abbrev pub Charged :
    Option HpaBehavior
    → ℤ
    → ScaleDecision
    → (desired observed : ℤ) → (before after : HpaPlusStatus) → Type 0
Charged behavior now d desired observed before after =
    let rules = default_behavior behavior in
    let ups = get_longest_policy_period rules.scale_up in
    let downs = get_longest_policy_period rules.scale_down in
    (after.last_scale_decision_id ≡ d.id)
    × (after.last_scale_time ≡ some d.time)
    × (after.desired_replicas ≡ desired)
    × (after.current_replicas ≡ observed)
    × (after.scale_up_replica_history ≡ d.scale_up_recommendations)
    × (after.scale_down_replica_history ≡ d.scale_down_recommendations)
    × (((d.previous_desired <ℤ d.desired)
          × (after.scale_up_event_history
              ≡ prune_to_window
                  (before.scale_up_event_history
                    ++ (sample_at d.time (d.desired -ℤ d.previous_desired) ∷ []))
                  ups now)
          × (after.scale_down_event_history
              ≡ prune_to_window before.scale_down_event_history downs now))
        ⊎ ((d.desired ≤ℤ d.previous_desired)
            × (after.scale_up_event_history ≡ prune_to_window before.scale_up_event_history ups now)
            × (after.scale_down_event_history
                ≡ prune_to_window
                    (before.scale_down_event_history
                      ++ (sample_at d.time (d.previous_desired -ℤ d.desired) ∷ []))
                    downs now)))

charged-Charged :
    (behavior : Option HpaBehavior) (now : ℤ) (d : ScaleDecision) (desired observed : ℤ)
    (s : HpaPlusStatus)
    → Charged behavior now d desired observed s
        (charged (default_behavior behavior) now s d desired observed)
unfolding charged charge_up charge_down
charged-Charged behavior now d desired observed s = (
  refl,
  refl,
  refl,
  refl,
  refl,
  refl,
  elim (Bool-cases (ltb_ℤ d.previous_desired d.desired)) [
    | inl higher ↦ inl (ground arith, rw higher refl, rw higher refl)
    | inr lower ↦ inr (ground arith, rw lower refl, rw lower refl)
  ],
)

-- A decision whose id the status does not carry is charged to it.
pub project-Charged :
    (behavior : Option HpaBehavior) (now : ℤ) (d : ScaleDecision) (desired observed : ℤ)
    (s : HpaPlusStatus)
    → same_text s.last_scale_decision_id d.id ≡ false
    → Charged behavior now d desired observed s
        (project_scale_decision behavior now d desired observed s)
unfolding project_scale_decision
project-Charged behavior now d desired observed s differ =
    subst (Charged behavior now d desired observed s) (sym (rw differ refl))
      (charged-Charged behavior now d desired observed s)

-- A status that the decision was projected onto carries its id.
pub project-id :
    (behavior : Option HpaBehavior) (now : ℤ) (d : ScaleDecision) (desired observed : ℤ)
    (s : HpaPlusStatus)
    → (project_scale_decision behavior now d desired observed s).last_scale_decision_id ≡ d.id
unfolding project_scale_decision charged
project-id behavior now d desired observed s =
    elim (Bool-cases (same_text s.last_scale_decision_id d.id)) [
      | inl same ↦ let e = (same_text_iff s.last_scale_decision_id d.id).0 same in ground arith
      | inr differ ↦ ground arith
    ]

project_again :
    (behavior : Option HpaBehavior) (now : ℤ) (d : ScaleDecision) (desired observed : ℤ)
    (s : HpaPlusStatus)
    → s.last_scale_decision_id ≡ d.id
    → project_scale_decision behavior now d desired observed s ≡ s
unfolding project_scale_decision
project_again behavior now d desired observed s e =
    let same = (same_text_iff s.last_scale_decision_id d.id).1 e in ground arith

-- Once a decision is projected onto a status, projecting it again changes nothing, whatever the
-- time, the behavior and the counts of the second time.
pub project_scale_decision_once :
    (b1 b2 : Option HpaBehavior) (now1 now2 : ℤ) (d : ScaleDecision)
    (desired1 desired2 observed1 observed2 : ℤ) (s : HpaPlusStatus)
    → project_scale_decision b2 now2 d desired2 observed2
        (project_scale_decision b1 now1 d desired1 observed1 s)
      ≡ project_scale_decision b1 now1 d desired1 observed1 s
project_scale_decision_once b1 b2 now1 now2 d desired1 desired2 observed1 observed2 s =
    project_again b2 now2 d desired2 observed2
      (project_scale_decision b1 now1 d desired1 observed1 s)
      (project-id b1 now1 d desired1 observed1 s)

module _ (p : Platform) (instance_ : Owner) (behavior : Option HpaBehavior) (d : ScaleDecision)
    (desired observed : ℤ) (replies : ℕ → StatusReply) (w : World) where
  -- recordScaleDecision's mutation of the status.
  abbrev pub projection : StatusMutation
  projection now s = ok (project_scale_decision behavior now d desired observed s)

  -- Recording a decision leaves the journal and what was sent.
  pub record_frame :
      let o = mutate_status p instance_ projection replies w in
      (o.0.journal ≡ w.journal) × (o.0.sent ≡ w.sent)
  record_frame = elim (status_loop-effect p instance_ projection replies p.steps w) [
    | inl (e, h) ↦ (ap (λ o. o.0.journal) h, ap (λ o. o.0.sent) h)
    | inr (inl (k, s, h1, h2, h)) ↦ (ap (λ o. o.0.journal) h, ap (λ o. o.0.sent) h)
    | inr (inr (k, fits, s, h1, h)) ↦ (ap (λ w. w.journal) h, ap (λ w. w.sent) h)
  ]

  -- Where recording succeeds, the status carries the decision's id.
  pub record_ok :
      ((a b : HpaPlusStatus)
        → p.deep_equal a b ≡ true
        → a.last_scale_decision_id ≡ b.last_scale_decision_id)
      → (mutate_status p instance_ projection replies w).1 ≡ ok tt
      → (mutate_status p instance_ projection replies w).0.status.last_scale_decision_id ≡ d.id
  record_ok sound fine = elim (status_loop-effect p instance_ projection replies p.steps w) [
    | inl (e, h) ↦ cc
    | inr (inl (k, s, h1, h2, h)) ↦
        ap (λ o. o.0.status.last_scale_decision_id) h
        ∙ sound w.status s h2
        ∙ sym (ap (λ s. s.last_scale_decision_id) (ok_inj h1))
        ∙ project-id behavior (replies k).now d desired observed w.status
    | inr (inr (k, fits, s, h1, h)) ↦
        ap (λ w. w.status.last_scale_decision_id) h
        ∙ sym (ap (λ s. s.last_scale_decision_id) (ok_inj h1))
        ∙ project-id behavior (replies k).now d desired observed w.status
  ]

  -- Where recording succeeds and the status did not carry the decision's id, it is charged.
  pub record_charges :
      ((a b : HpaPlusStatus)
        → p.deep_equal a b ≡ true
        → a.last_scale_decision_id ≡ b.last_scale_decision_id)
      → same_text w.status.last_scale_decision_id d.id ≡ false
      → (mutate_status p instance_ projection replies w).1 ≡ ok tt
      → (k : ℕ) × (k < p.steps)
        × Charged behavior
            (replies k).now
            d
            desired
            observed
            w.status
            (mutate_status p instance_ projection replies w).0.status
  record_charges sound differ fine =
      elim (status_loop-effect p instance_ projection replies p.steps w) [
        | inl (e, h) ↦ cc
        | inr (inl (k, s, h1, h2, h)) ↦
            let same = (same_text_iff w.status.last_scale_decision_id d.id).1 (
              sound w.status s h2
              ∙ sym (ap (λ s. s.last_scale_decision_id) (ok_inj h1))
              ∙ project-id behavior (replies k).now d desired observed w.status) in
            cc
        | inr (inr (k, fits, s, h1, h)) ↦ (
          k,
          fits,
          subst (Charged behavior (replies k).now d desired observed w.status)
              (ok_inj h1 ∙ sym (ap (λ w. w.status) h))
              (project-Charged behavior (replies k).now d desired observed w.status differ),
        )
      ]
