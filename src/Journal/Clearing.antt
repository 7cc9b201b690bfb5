-- ===== src/Journal/Clearing.antt =====
-- Clearing the journal: what it can change, and what it says of it.
use hpa_plus.Prelude.{
  ℤ, ◌≡◌, refl, ap, ◌∙◌, ◌≢◌, ◌⊎◌, inl, inr, ℕ, arith, false, Option, none, some, ok, Bool-cases,
  same_text, same_text_iff, String,
}
use hpa_plus.Journal.Types.{ScaleDecision, Owner, World}
use hpa_plus.Journal.Store.{HistoryReply}
use hpa_plus.Journal.StoreLaws.{history_loop-effect}
use hpa_plus.Journal.Scale.{clear_pending, clear_scale_decision}

clear_pending-some :
    (id : String) (now : ℤ) (j : Option ScaleDecision) {j' : Option ScaleDecision}
    → clear_pending id now j ≡ ok (some j')
    → (d : ScaleDecision) × (j ≡ some d) × (d.id ≡ id) × (j' ≡ none)
unfolding clear_pending
clear_pending-some id now none h = ground arith
clear_pending-some id now (some d) h = elim (Bool-cases (same_text d.id id)) [
  | inl same ↦ (d, refl, (same_text_iff d.id id).0 same, ground arith)
  | inr differ ↦ ground arith
]

differs : (d : ScaleDecision) {id : String} → d.id ≡ id → same_text d.id id ≡ false → ⊥
differs d {id} e h = let same = (same_text_iff d.id id).1 e in cc

clear_pending-none :
    (id : String) (now : ℤ) (j : Option ScaleDecision)
    → clear_pending id now j ≡ ok none
    → (d : ScaleDecision) → j ≡ some d
    → d.id ≢ id
unfolding clear_pending
clear_pending-none id now none h d e = cc
clear_pending-none id now (some d') h d e = elim (Bool-cases (same_text d'.id id)) [
  | inl same ↦ ground arith
  | inr differ ↦ λ eq. differs d' (cc) differ
]

module _ (instance_ : Owner) (id : String) (replies : ℕ → HistoryReply) (w : World) where
  -- Clearing takes away the decision of that id, or changes nothing.
  pub clear_effect :
      ((clear_scale_decision instance_ id replies w).0 ≡ w)
      ⊎ ((d : ScaleDecision) × (w.journal ≡ some d)
          × (d.id ≡ id)
          × ((clear_scale_decision instance_ id replies w).0 ≡ record w { journal = none }))
  clear_effect = elim (history_loop-effect instance_ (clear_pending id) replies 5 w) [
    | inl (e, h) ↦ inl (ap (λ o. o.0) h)
    | inr (inl (now, h1, h)) ↦ inl (ap (λ o. o.0) h)
    | inr (inr (now, j, h1, h)) ↦
        let (d, pending, same, gone) = clear_pending-some id now w.journal h1 in
        inr (d, pending, same, h ∙ ap (λ j. record w { journal = j }) gone)
  ]

  pub clear_status : (clear_scale_decision instance_ id replies w).0.status ≡ w.status
  clear_status = elim clear_effect [
    | inl same ↦ ap (λ w. w.status) same
    | inr (d, h1, h2, h) ↦ ap (λ w. w.status) h
  ]

  pub clear_sent : (clear_scale_decision instance_ id replies w).0.sent ≡ w.sent
  clear_sent = elim clear_effect [
    | inl same ↦ ap (λ w. w.sent) same
    | inr (d, h1, h2, h) ↦ ap (λ w. w.sent) h
  ]

  -- Where clearing succeeds, no decision of that id is pending.
  pub clear_ok :
      (d : ScaleDecision)
      → (clear_scale_decision instance_ id replies w).1 ≡ ok tt
      → (clear_scale_decision instance_ id replies w).0.journal ≡ some d
      → d.id ≢ id
  clear_ok d fine pending = elim (history_loop-effect instance_ (clear_pending id) replies 5 w) [
    | inl (e, h) ↦ cc
    | inr (inl (now, h1, h)) ↦ clear_pending-none id now w.journal h1 d (cc)
    | inr (inr (now, j, h1, h)) ↦
        let (d', pending', same, gone) = clear_pending-some id now w.journal h1 in cc
  ]
