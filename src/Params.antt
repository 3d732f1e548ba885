-- ===== src/Params.antt =====
-- params/config.go: the settings that the core reads. They are global variables that main.go sets
-- from the command line before the services start, and that are constant from then on.
use photon_monitoring.Base.{ℕ, ℤ, Bool}

pub record Params : Type 0 where
  pub smt_unlock : ℤ
  pub smt_update_transfer : ℤ
  pub smt_punish : ℤ
  pub smt_secret : ℤ
  pub smt_address : ℕ
  pub debug_mode : Bool
  pub reveal_timeout : ℤ
