-- ===== src/Scaling.antt =====
-- internal/scalebehavior: the choice among replica candidates, and the scaling behavior of a
-- Kubernetes HPA (stabilization, rate limits, minimum and maximum).
pub mod Errors
pub mod Strategy
pub mod Windows
pub mod Limits
pub mod Behavior
pub mod Stabilization
pub mod RateLimit
pub mod ChoiceBounds
pub mod Choice
pub mod Budget
