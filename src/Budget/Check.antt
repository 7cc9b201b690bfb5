-- ===== src/Budget/Check.antt =====
-- internal/controllers/history_budget.go. The encoding of the stored data is a parameter; `encode`
-- says how many bytes it takes.
use hpa_plus.Prelude.{
  ℤ, pos, leb_ℤ, ◌+ℤ◌, ◌-ℤ◌, Bool, ◌||◌, Option, none, some, if◌then◌else◌, Result, err, require,
  ◌>>◌,
}

pub record Codec : Type 1 where
  pub Data : Type 0
  pub encode : Data → Option ℤ
  pub has_pending : Data → Bool
  pub without_pending : Data → Data

-- What was stored: the bytes of the whole map and of the history in it, and the decoded history.
pub record Stored (c : Codec) : Type 0 where
  pub data_bytes : ℤ
  pub history_bytes : ℤ
  pub decoded : Option c.Data

pub data BudgetError : Type 0 where
  invalid_data state_exceeded journal_exceeded : BudgetError

abbrev pub max_history_state_bytes : ℤ
max_history_state_bytes = pos 786432

abbrev pub max_scale_journal_bytes : ℤ
max_scale_journal_bytes = pos 1048576 -ℤ max_history_state_bytes

module _ (c : Codec) where
  abbrev pub split : ℤ → ℤ → Option ℤ → Option (ℤ × ℤ)
  split payload unrelated none = none
  split payload unrelated (some encoded) = some (encoded +ℤ unrelated, payload -ℤ encoded)

  -- The bytes of the state, and of the journal.
  unfoldable pub history_budget_parts : c.Data → ℤ → ℤ → Option (ℤ × ℤ)
  history_budget_parts proposed payload unrelated =
      if c.has_pending proposed
      then split payload unrelated (c.encode (c.without_pending proposed))
      else some (payload +ℤ unrelated, pos 0)

  abbrev or_zeros : Option (ℤ × ℤ) → ℤ × ℤ
  or_zeros none = (pos 0, pos 0)
  or_zeros (some p) = p

  unfoldable pub old_parts : Stored c → ℤ → ℤ × ℤ
  old_parts previous unrelated = elim previous.decoded [
    | none ↦ (pos 0, pos 0)
    | some old ↦ elim (c.encode old) [
      | none ↦ (pos 0, pos 0)
      | some encoded ↦ or_zeros (history_budget_parts old encoded unrelated)
    ]
  ]

  abbrev pub unrelated_bytes : Stored c → ℤ
  unrelated_bytes previous = previous.data_bytes -ℤ previous.history_bytes

  abbrev pub fits : ℤ → ℤ → ℤ → Bool
  fits size budget old = leb_ℤ size budget || leb_ℤ size old

  unfoldable pub check_parts : ℤ × ℤ → ℤ × ℤ → Result BudgetError (Unit {0})
  check_parts new old =
      require (fits new.0 max_history_state_bytes old.0) state_exceeded
      >> require (fits new.1 max_scale_journal_bytes old.1) journal_exceeded

  unfoldable pub check_history_budget : Stored c → c.Data → ℤ → Result BudgetError (Unit {0})
  check_history_budget previous proposed payload =
      elim (history_budget_parts proposed payload (unrelated_bytes previous)) [
        | none ↦ err invalid_data
        | some new ↦ check_parts new (old_parts previous (unrelated_bytes previous))
      ]
