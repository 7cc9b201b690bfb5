-- ===== src/Examples.antt =====
-- Tests on concrete inputs, and the theorems at inputs that meet their hypotheses.
mod Arithmetic
mod Evaluation
mod Behaviors
mod Plans
mod Journaling
mod Forecasts
mod Retries
mod Expiries
mod Specs
mod Monitoring
mod Caching
mod Sampling
mod Budgets
