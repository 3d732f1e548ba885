-- ===== src/Models/Account/Health.antt =====
-- Reading an account harms nothing.
use photon_monitoring.Base.{ℕ}
use photon_monitoring.Platform.{Platform}
use photon_monitoring.World.Health.{IsSafe, safe_rules}
use photon_monitoring.Models.Account.{account_get_account}

module _ ⦃p : Platform⦄ where
  pub account_get_account-IsSafe : (addr : ℕ) → IsSafe (account_get_account addr)
  unfolding account_get_account
  account_get_account-IsSafe addr = search safe_rules
