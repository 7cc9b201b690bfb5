-- ===== src/Api.antt =====
-- api/v1alpha1: the resource's types, as far as the modelled code reads them, and the defaults.
pub mod Types
pub mod Defaults
pub mod Filled
