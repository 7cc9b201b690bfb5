-- ===== src/Journal/StoreLaws.antt =====
-- What a mutation of the journal or of the status can leave behind, for every answer of the server.
use hpa_plus.Prelude.{
  ℤ, ◌≡◌, refl, ◌⊎◌, inl, inr, ℕ, zero, suc, arith, Option, none, some, Result, ok, err,
  Result-cases, subst, ◌>>◌,
}
use hpa_plus.Journal.Types.{ScaleDecision, Owner, Failure, conflict, store_failed, World, Outcome}
use hpa_plus.Journal.Store.{
  Mutation, HistoryReply, history_loop, history_attempt, publish_history, commit_history, Attempt,
  done, again, CommitReply, saved, conflicted, failed, lost, check_owner, load_history,
}

pub Attempt-cases : (a : Attempt) → ((o : Outcome) × (a ≡ done o)) ⊎ (a ≡ again)
Attempt-cases (done o) = inl (o, refl)
Attempt-cases again = inr refl

-- How a mutation of the journal ends: an error that changed nothing, no change, or the change.
abbrev pub HistoryEffect : Mutation → World → Outcome → Type 0
HistoryEffect mutate w o =
    ((e : Failure) × (o ≡ (w, err e)))
    ⊎ ((now : ℤ) × (mutate now w.journal ≡ ok none) × (o ≡ (w, ok tt)))
    ⊎ ((now : ℤ) × (j : Option ScaleDecision) × (mutate now w.journal ≡ ok (some j))
        × (o.0 ≡ record w { journal = j }))

commit_effect :
    (r : CommitReply) (j : Option ScaleDecision) (w : World) (o : Outcome)
    → commit_history r j w ≡ done o
    → ((e : Failure) × (o ≡ (w, err e))) ⊎ (o.0 ≡ record w { journal = j })
unfolding commit_history
commit_effect saved j w o h = inr (ground arith)
commit_effect conflicted j w o h = ground arith
commit_effect failed j w o h = inl (store_failed, ground arith)
commit_effect lost j w o h = inr (ground arith)

module _ (instance_ : Owner) where
  publish_effect :
      (r : HistoryReply) (j : Option ScaleDecision) (w : World) (o : Outcome)
      → publish_history instance_ r j w ≡ done o
      → ((e : Failure) × (o ≡ (w, err e))) ⊎ (o.0 ≡ record w { journal = j })
  unfolding publish_history
  publish_effect r j w o h = elim (Result-cases (check_owner instance_ r.current_owner)) [
    | inl (e, h1) ↦ inl (e, ground arith)
    | inr (a, h1) ↦ commit_effect r.commit j w o (ground arith)
  ]

  module _ (mutate : Mutation) where
    -- The reads before a mutation, and its own answer.
    answer : HistoryReply → World → Result Failure (Option (Option ScaleDecision))
    answer r w = check_owner instance_ r.owner >> load_history r.loaded >> mutate r.now w.journal

    attempt_effect :
        (r : HistoryReply) (w : World) (o : Outcome)
        → history_attempt instance_ mutate r w ≡ done o
        → HistoryEffect mutate w o
    unfolding history_attempt answer
    attempt_effect r w o h = elim (Result-cases (answer r w)) [
      | inl (e, h1) ↦ inl (e, ground arith)
      | inr (none, h1) ↦ inr (inl (r.now, ground arith, ground arith))
      | inr (some j, h1) ↦ elim (publish_effect r j w o (ground arith)) [
        | inl refused ↦ inl refused
        | inr wrote ↦ inr (inr (r.now, j, ground arith, wrote))
      ]
    ]

    pub history_loop-effect :
        (replies : ℕ → HistoryReply) (n : ℕ) (w : World)
        → HistoryEffect mutate w (history_loop instance_ mutate replies n w)
    unfolding history_loop
    history_loop-effect replies zero w = inl (conflict, refl)
    history_loop-effect replies (suc n) w =
        elim (Attempt-cases (history_attempt instance_ mutate (replies n) w)) [
          | inl (o, h) ↦
              subst (HistoryEffect mutate w) (ground arith) (attempt_effect (replies n) w o h)
          | inr h ↦ subst (HistoryEffect mutate w) (ground arith) (history_loop-effect replies n w)
        ]
