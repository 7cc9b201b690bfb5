-- ===== src/Journal/StatusLaws.antt =====
-- What a mutation of the status can leave behind, for every answer of the server.
use hpa_plus.Prelude.{
  ◌<◌, ◌≡◌, refl, ◌⊎◌, inl, inr, ℕ, zero, suc, arith, true, false, Result, ok, err, Bool-cases,
  Result-cases, subst, ◌>>◌,
}
use hpa_plus.Api.Types.{HpaPlusStatus}
use hpa_plus.Journal.Types.{Owner, Failure, conflict, store_failed, World, Outcome, Platform}
use hpa_plus.Journal.Store.{
  done, CommitReply, saved, conflicted, failed, lost, check_owner, check_alive, check_status_budget,
  max_status_bytes, StatusMutation, StatusReply, status_loop, status_attempt, publish_status,
  patch_status,
}
use hpa_plus.Journal.StoreLaws.{Attempt-cases}

-- How a mutation of the status ends: an error that changed nothing, an equal status that is not
-- written, or the change that the mutation made at the time of one of its attempts.
abbrev pub StatusEffect :
    Platform → StatusMutation → (ℕ → StatusReply) → ℕ → World → Outcome → Type 0
StatusEffect p mutate replies n w o =
    ((e : Failure) × (o ≡ (w, err e)))
    ⊎ ((k : ℕ) × (s : HpaPlusStatus) × (mutate (replies k).now w.status ≡ ok s)
        × (p.deep_equal w.status s ≡ true)
        × (o ≡ (w, ok tt)))
    ⊎ ((k : ℕ) × (k < n)
        × (s : HpaPlusStatus) × (mutate (replies k).now w.status ≡ ok s)
        × (o.0 ≡ record w { status = s }))

patch_effect :
    (r : CommitReply) (s : HpaPlusStatus) (w : World) (o : Outcome)
    → patch_status r s w ≡ done o
    → ((e : Failure) × (o ≡ (w, err e))) ⊎ (o.0 ≡ record w { status = s })
unfolding patch_status
patch_effect saved s w o h = inr (ground arith)
patch_effect conflicted s w o h = ground arith
patch_effect failed s w o h = inl (store_failed, ground arith)
patch_effect lost s w o h = inr (ground arith)

module _ (p : Platform) where
  publish_effect :
      (r : CommitReply) (s : HpaPlusStatus) (w : World) (o : Outcome)
      → p.deep_equal w.status s ≡ false
      → publish_status p r s w ≡ done o
      → ((e : Failure) × (o ≡ (w, err e))) ⊎ (o.0 ≡ record w { status = s })
  unfolding publish_status
  publish_effect r s w o differ h =
      elim (Result-cases (check_status_budget p.complete_bytes w.status s max_status_bytes)) [
        | inl (e, h1) ↦ inl (e, ground arith)
        | inr (a, h1) ↦ patch_effect r s w o (ground arith)
      ]

  module _ (instance_ : Owner) (mutate : StatusMutation) where
    -- The reads before a mutation, and its own answer.
    answer : StatusReply → World → Result Failure HpaPlusStatus
    answer r w = check_alive r.alive >> check_owner instance_ r.owner >> mutate r.now w.status

    attempt_effect :
        (replies : ℕ → StatusReply) (k : ℕ) (w : World) (o : Outcome)
        → status_attempt p instance_ mutate (replies k) w ≡ done o
        → StatusEffect p mutate replies (suc k) w o
    unfolding status_attempt answer publish_status
    attempt_effect replies k w o h = elim (Result-cases (answer (replies k) w)) [
      | inl (e, h1) ↦ inl (e, ground arith)
      | inr (s, h1) ↦ elim (Bool-cases (p.deep_equal w.status s)) [
        | inl same ↦ inr (inl (k, s, ground arith, same, ground arith))
        | inr differ ↦ elim (publish_effect (replies k).patch s w o differ (ground arith)) [
          | inl refused ↦ inl refused
          | inr wrote ↦ inr (inr (k, omega arith, s, ground arith, wrote))
        ]
      ]
    ]

    one_more :
        (replies : ℕ → StatusReply) (n : ℕ) (w : World) (o : Outcome)
        → StatusEffect p mutate replies n w o
        → StatusEffect p mutate replies (suc n) w o
    one_more replies n w o (inl refused) = inl refused
    one_more replies n w o (inr (inl same)) = inr (inl same)
    one_more replies n w o (inr (inr (k, b, s, e, h))) = inr (inr (k, omega (arith, b), s, e, h))

    pub status_loop-effect :
        (replies : ℕ → StatusReply) (n : ℕ) (w : World)
        → StatusEffect p mutate replies n w (status_loop p instance_ mutate replies n w)
    unfolding status_loop
    status_loop-effect replies zero w = inl (conflict, refl)
    status_loop-effect replies (suc n) w =
        elim (Attempt-cases (status_attempt p instance_ mutate (replies n) w)) [
          | inl (o, h) ↦
              subst (StatusEffect p mutate replies (suc n) w) (ground arith)
                (attempt_effect replies n w o h)
          | inr h ↦
              subst (StatusEffect p mutate replies (suc n) w) (ground arith)
                (one_more replies n w _ (status_loop-effect replies n w))
        ]
