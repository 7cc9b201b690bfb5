-- ===== src/Scaling/Errors.antt =====
-- The errors of internal/scalebehavior and internal/decision, and a panic on a nil pointer.
pub data Error : Type 0 where
  no_candidates negative_candidate unknown_decision_type : Error
  invalid_mode invalid_inputs : Error
  nil_dereference : Error
