-- ===== src/Examples/Budgets.antt =====
-- Budgets of a history of 800,000 bytes that is stored already. The data of this codec is its size
-- without and with the pending decision.
use hpa_plus.Prelude.{ℤ, pos, up, down, ◌≤ℤ◌, ltb_ℤ, ◌+ℤ◌, ◌-ℤ◌, some, err, ◌≡◌, ◌⊎◌, refl}
use hpa_plus.Budget.Check.{
  Codec, Stored, max_history_state_bytes, max_scale_journal_bytes, history_budget_parts, old_parts,
  unrelated_bytes, check_parts, check_history_budget, state_exceeded,
}
use hpa_plus.Budget.Growth.{check_history_budget-fits}

unfoldable budgeted : Unit {0}
unfolding up down ◌+ℤ◌ ◌-ℤ◌ history_budget_parts old_parts check_parts check_history_budget
budgeted = tt

abbrev codec : Codec
codec = record {
  Data = ℤ × ℤ;
  encode = λ d. some d.1;
  has_pending = λ d. ltb_ℤ d.0 d.1;
  without_pending = λ d. (d.0, d.0);
}

abbrev stored : Stored codec
stored = record {
  data_bytes = pos 800100;
  history_bytes = pos 800000;
  decoded = some (pos 800000, pos 800000);
}

abbrev pending : ℤ × ℤ
pending = (pos 799000, pos 800500)

grown_test :
    check_history_budget codec stored (pos 800001, pos 800001) (pos 800001) ≡ err state_exceeded
unfolding budgeted
grown_test = refl

check_history_budget-fits_example :
    (new : ℤ × ℤ) × (history_budget_parts codec pending (pos 800500) (unrelated_bytes codec stored)
      ≡ some new)
    × (new.0 +ℤ new.1 ≡ pos 800500 +ℤ unrelated_bytes codec stored)
    × ((new.0 ≤ℤ max_history_state_bytes)
        ⊎ (new.0 ≤ℤ (old_parts codec stored (unrelated_bytes codec stored)).0))
    × ((new.1 ≤ℤ max_scale_journal_bytes)
        ⊎ (new.1 ≤ℤ (old_parts codec stored (unrelated_bytes codec stored)).1))
unfolding budgeted
check_history_budget-fits_example = check_history_budget-fits codec stored pending (pos 800500) refl
