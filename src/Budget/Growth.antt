-- ===== src/Budget/Growth.antt =====
-- A stored part that is too large does not grow.
use hpa_plus.Prelude.{
  ℤ, pos, up, down, ◌≤ℤ◌, leb_ℤ, ◌+ℤ◌, ◌-ℤ◌, Bool, true, false, ◌||◌, Option, none, some,
  if◌then◌else◌, ok, err, require, require-ok, >>=-eq-ok, ◌≡◌, ◌⊎◌, refl, arith, +ℤ_parts, -ℤ_parts,
  eq_of_parts,
}
use hpa_plus.Budget.Check.{
  Codec, Stored, invalid_data, max_history_state_bytes, max_scale_journal_bytes,
  history_budget_parts, old_parts, unrelated_bytes, check_parts, check_history_budget, split,
}

split_sum : (p u e : ℤ) → (e +ℤ u) +ℤ (p -ℤ e) ≡ p +ℤ u
split_sum p u e =
    eq_of_parts _ _
      (omega (arith, +ℤ_parts (e +ℤ u) (p -ℤ e), +ℤ_parts e u, -ℤ_parts p e, +ℤ_parts p u))

add_zero : (a : ℤ) → a +ℤ pos 0 ≡ a
unfolding up down
add_zero a = eq_of_parts _ _ (omega (arith, +ℤ_parts a (pos 0)))

within_either : (a b o : ℤ) → (leb_ℤ a b || leb_ℤ a o) ≡ true → (a ≤ℤ b) ⊎ (a ≤ℤ o)
within_either a b o h = ground arith

module _ (c : Codec) where
  -- The two parts are the bytes that are written.
  abbrev SumsTo : ℤ → Option (ℤ × ℤ) → Type 0
  SumsTo n none = Unit {0}
  SumsTo n (some p) = p.0 +ℤ p.1 ≡ n

  history_budget_parts-SumsTo :
      (proposed : c.Data) (payload unrelated : ℤ)
      → SumsTo (payload +ℤ unrelated) (history_budget_parts c proposed payload unrelated)
  unfolding history_budget_parts
  history_budget_parts-SumsTo proposed payload unrelated =
      cases (c.has_pending proposed) (c.encode (c.without_pending proposed))
    where
      cases :
          (b : Bool) (o : Option ℤ)
          → SumsTo
              (payload +ℤ unrelated)
              (if b then split c payload unrelated o else some (payload +ℤ unrelated, pos 0))
      cases true none = tt
      cases true (some e) = split_sum payload unrelated e
      cases false o = add_zero (payload +ℤ unrelated)

  check_parts-fits :
      (new old : ℤ × ℤ)
      → check_parts c new old ≡ ok tt
      → ((new.0 ≤ℤ max_history_state_bytes) ⊎ (new.0 ≤ℤ old.0))
        × ((new.1 ≤ℤ max_scale_journal_bytes) ⊎ (new.1 ≤ℤ old.1))
  unfolding check_parts
  check_parts-fits new old h =
      let (u, first, rest) = >>=-eq-ok (require _ _) _ h in
      (
        within_either new.0 _ old.0 (require-ok _ _ first),
        within_either new.1 _ old.1 (require-ok _ _ rest),
      )

  -- A write that the budget admits has a state and a journal that add up to the bytes that are
  -- stored, each within its own budget or no larger than the one that is stored already.
  pub check_history_budget-fits :
      (previous : Stored c) (proposed : c.Data) (payload : ℤ)
      → check_history_budget c previous proposed payload ≡ ok tt
      → (new : ℤ × ℤ) × (history_budget_parts c proposed payload (unrelated_bytes c previous)
          ≡ some new)
        × (new.0 +ℤ new.1 ≡ payload +ℤ unrelated_bytes c previous)
        × ((new.0 ≤ℤ max_history_state_bytes)
            ⊎ (new.0 ≤ℤ (old_parts c previous (unrelated_bytes c previous)).0))
        × ((new.1 ≤ℤ max_scale_journal_bytes)
            ⊎ (new.1 ≤ℤ (old_parts c previous (unrelated_bytes c previous)).1))
  unfolding check_history_budget
  check_history_budget-fits previous proposed payload h =
      cases _ refl (history_budget_parts-SumsTo proposed payload (unrelated_bytes c previous)) h
    where
      cases :
          (o : Option (ℤ × ℤ))
          → history_budget_parts c proposed payload (unrelated_bytes c previous) ≡ o
          → SumsTo (payload +ℤ unrelated_bytes c previous) o
          → (elim o [
            | none ↦ err invalid_data
            | some new ↦ check_parts c new (old_parts c previous (unrelated_bytes c previous))
          ])
            ≡ ok tt
          → (new : ℤ × ℤ) × (history_budget_parts c proposed payload (unrelated_bytes c previous)
              ≡ some new)
            × (new.0 +ℤ new.1 ≡ payload +ℤ unrelated_bytes c previous)
            × ((new.0 ≤ℤ max_history_state_bytes)
                ⊎ (new.0 ≤ℤ (old_parts c previous (unrelated_bytes c previous)).0))
            × ((new.1 ≤ℤ max_scale_journal_bytes)
                ⊎ (new.1 ≤ℤ (old_parts c previous (unrelated_bytes c previous)).1))
      cases none e s k = cc
      cases (some new) e s k =
          let (state, journal) =
            check_parts-fits new (old_parts c previous (unrelated_bytes c previous)) k in
          (new, e, s, state, journal)
