-- ===== src/Sampler/Once.antt =====
-- A slot gets one row at most.
use hpa_plus.Prelude.{
  ℤ, ◌≤ℤ◌, ltb_ℤ, leb_ℤ, Bool, true, false, ◌||◌, List, [], ◌∷◌, ◌++◌, Option, none, some,
  Bool-cases, if◌then◌else◌, ok, err, ◌≡◌, ◌⊎◌, refl, sym, subst, inl, inr, arith,
}
use hpa_plus.Api.Types.{TimestampedSample}
use hpa_plus.Forecast.History.{later, latest_timestamp}
use hpa_plus.Sampler.Slots.{second, truncate}
use hpa_plus.Sampler.Apply.{
  StoredHistory, Sample, SampledModel, SamplerRuntime, slot_expired, prune_failed, Outcome,
  slot_taken, skip_slot, is_unusable, is_behind, sample_row, append_row, mark_source, sample_source,
  sample_slot, with_rows,
}

abbrev rows_of : StoredHistory → List TimestampedSample
rows_of s = s.history.replica_history

later-slot : (o : Option ℤ) (slot : ℤ) → (t : ℤ) × (later o (some slot) ≡ some t) × (slot ≤ℤ t)
unfolding later
later-slot none slot = (slot, refl, omega arith)
later-slot (some a) slot = elim (Bool-cases (ltb_ℤ a slot)) [
  | inl newer ↦ (slot, rw newer refl, omega arith)
  | inr older ↦ (a, rw older refl, not_below a slot older)
]
  where
    not_below : (x y : ℤ) → ltb_ℤ x y ≡ false → y ≤ℤ x
    not_below x y t = ground arith

-- A slot that is marked is taken.
slot_taken-marked :
    (slot : ℤ) (s : StoredHistory)
    → s.history.last_sample_time ≡ some slot
    → slot_taken slot s ≡ true
unfolding slot_taken
slot_taken-marked slot s e =
    let (t, l, h) = later-slot (latest_timestamp none (rows_of s)) slot in
    subst (λ o. taken (later (latest_timestamp none (rows_of s)) o) ≡ true) (sym e)
      (subst (λ o. taken o ≡ true) (sym l) (at_most slot t h))
  where
    taken : Option ℤ → Bool
    taken o = elim o [ none ↦ false | some latest ↦ leb_ℤ slot latest ]

    at_most : (a b : ℤ) → a ≤ℤ b → leb_ℤ a b ≡ true
    at_most a b h = ground arith

module _ (rt : SamplerRuntime) (m : SampledModel) (x : Sample) (prior : Option ℤ) where
  -- The time of a row: the slot's, or the measurement's.
  abbrev pub IsObserved : ℤ → Type 0
  IsObserved t = (t ≡ x.slot_time) ⊎ ((t ≤ℤ x.now) × (is_behind t prior ≡ false))

  -- No row is added, or one, and the slot is marked.
  abbrev Adds : List TimestampedSample → StoredHistory → Type 0
  Adds rows t =
      (rows_of t ≡ rows)
      ⊎ ((observed : ℤ) × IsObserved observed
          × (rt.prune (rows ++ (sample_row x observed ∷ [])) ≡ some (rows_of t))
          × (t.history.last_sample_time ≡ some x.slot_time))

  abbrev EveryDone : (StoredHistory → Type 0) → Outcome → Type 0
  EveryDone P (err e) = Unit
  EveryDone P (ok r) = P r.1

  append_row-Adds :
      (s : StoredHistory) (observed : ℤ)
      → IsObserved observed
      → EveryDone (Adds (rows_of s)) (append_row rt m x observed s)
  unfolding append_row
  append_row-Adds s observed h = cases _ _ refl
    where
      cases :
          (b : Bool) (o : Option (List TimestampedSample))
          → rt.prune (rows_of s ++ (sample_row x observed ∷ [])) ≡ o
          → EveryDone (Adds (rows_of s)) (
              if b then err slot_expired else elim o [
                | none ↦ err prune_failed
                | some rows ↦ ok (
                  true,
                  with_rows s (record s.history {
                    last_sample_time = some x.slot_time;
                    replica_history = rows;
                  }),
                )
              ])
      cases true o e = tt
      cases false none e = tt
      cases false (some rows) e = inr (observed, h, e, refl)

  skip_slot-Adds : (s : StoredHistory) → EveryDone (Adds (rows_of s)) (ok (skip_slot x s))
  unfolding skip_slot
  skip_slot-Adds s = cases x.retry_cpu
    where
      cases :
          (b : Bool)
          → EveryDone (Adds (rows_of s)) (
              ok (
                if b then (false, s) else (
                  true,
                  with_rows s (record s.history { last_sample_time = some x.slot_time }),
                )))
      cases true = inl refl
      cases false = inl refl

  usable-IsObserved : (observed : ℤ) → is_unusable observed x prior ≡ false → IsObserved observed
  unfolding is_unusable
  usable-IsObserved observed h = inr (parts _ _ _ h)
    where
      parts :
          (a : Bool) (t : ℤ) (c : Bool)
          → (a || ltb_ℤ t observed || c) ≡ false
          → (observed ≤ℤ t) × (c ≡ false)
      parts a t c h = ground arith

  sample_source-Adds :
      (s : StoredHistory) → EveryDone (Adds (rows_of s)) (sample_source rt m x prior s)
  unfolding sample_source
  sample_source-Adds s = cases _ _ refl
    where
      observed : ℤ
      observed = truncate x.snapshot.source_time second

      cases :
          (a b : Bool)
          → is_unusable observed x prior ≡ b
          → EveryDone (Adds (rows_of s)) (
              if a || b
              then ok (skip_slot x s)
              else append_row rt m x observed (mark_source rt x s))
      cases true b e = skip_slot-Adds s
      cases false true e = skip_slot-Adds s
      cases false false e =
          append_row-Adds (mark_source rt x s) observed (usable-IsObserved observed e)

  sample_slot-Adds : (s : StoredHistory) → EveryDone (Adds (rows_of s)) (sample_slot rt m x prior s)
  unfolding sample_slot
  sample_slot-Adds s = cases _ _ _
    where
      cases :
          (a b c : Bool)
          → EveryDone (Adds (rows_of s)) (
              if a
              then ok (false, s)
              else if b
              then ok (skip_slot x s)
              else if c
              then append_row rt m x x.slot_time s
              else sample_source rt m x prior s)
      cases true b c = inl refl
      cases false true c = skip_slot-Adds s
      cases false false true = append_row-Adds s x.slot_time (inl refl)
      cases false false false = sample_source-Adds s

module _ (rt : SamplerRuntime) (m : SampledModel) where
  -- A slot that is taken leaves the history as it is.
  sample_slot-taken :
      (y : Sample) (q : Option ℤ) (t : StoredHistory)
      → slot_taken y.slot_time t ≡ true
      → sample_slot rt m y q t ≡ ok (false, t)
  unfolding sample_slot
  sample_slot-taken y q t h = rw h refl

  -- A sample either adds no row, or one row, which is pruned with the others: its time is the
  -- slot's, or one that is not of the future and after the newest time `prior`. In the second case
  -- any other sample at the same slot leaves the history as it is.
  pub sample_slot_once :
      (x y : Sample) (prior other : Option ℤ) (s t : StoredHistory) (changed : Bool)
      → y.slot_time ≡ x.slot_time
      → sample_slot rt m x prior s ≡ ok (changed, t)
      → (t.history.replica_history ≡ s.history.replica_history)
        ⊎ ((observed : ℤ) × IsObserved rt m x prior observed
            × (rt.prune (s.history.replica_history ++ (sample_row x observed ∷ []))
                ≡ some t.history.replica_history)
            × (sample_slot rt m y other t ≡ ok (false, t)))
  sample_slot_once x y prior other s t changed same h =
      elim (subst (EveryDone rt m x prior (Adds rt m x prior (rows_of s))) h
        (sample_slot-Adds rt m x prior s)) [
          | inl kept ↦ inl kept
          | inr (observed, seen, pruned, marked) ↦ inr (
            observed,
            seen,
            pruned,
            sample_slot-taken y other t (
                subst (λ slot. slot_taken slot t ≡ true) (sym same)
                  (slot_taken-marked x.slot_time t marked)),
          )
        ]
