-- ===== src/Models/Account/Balance.antt =====
-- Whether a balance is enough, asked of a solvent account.
use photon_monitoring.Base.{ℕ, ◌≡◌, leb_ℤ}
use photon_monitoring.Orm.{IsDocumented}
use photon_monitoring.Platform.{Platform}
use photon_monitoring.World.{World, ret}
use photon_monitoring.Models.Account.{account_available, account_is_balance_enough, account_sanity}
use photon_monitoring.Models.Account.Solvency.{IsSolvent, IsSolvent-sane}
use photon_monitoring.Models.Account.Rules.{account_of, IsUp, account_get_account-read}

module _ ⦃p : Platform⦄ (g : IsDocumented p.gorm) where
  pub account_is_balance_enough_lem :
      (addr : ℕ) (w : World)
      → IsUp w
      → IsSolvent (account_of w addr)
      → let a = account_of w addr in
        account_is_balance_enough addr w ≡ (ret (leb_ℤ a.need_smt (account_available a)), w)
  unfolding account_is_balance_enough account_sanity
  account_is_balance_enough_lem addr w up' s =
      rw (account_get_account-read g addr w up', IsSolvent-sane s)
