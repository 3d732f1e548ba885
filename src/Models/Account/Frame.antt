-- ===== src/Models/Account/Frame.antt =====
-- The operations on an account write no other table.
use photon_monitoring.Base.{ℕ, ℤ, Option, Text}
use photon_monitoring.Platform.{Platform}
use photon_monitoring.World.{World, write, accounts}
use photon_monitoring.World.Frame.{Keeps, keeps_rules}
use photon_monitoring.Models.Rows.{Account, AccountSerialization}
use photon_monitoring.Models.Account.{
  account_sanity, account_get_account, save_account, checked_save, account_lock_smt,
  account_unlock_smt, account_use_smt,
}

module _ ⦃p : Platform⦄ {B : Type 0} {f : World → B}
    (ka : (h : p.gorm.Table AccountSerialization → Option Text × p.gorm.Table AccountSerialization)
      → Keeps f (write accounts h)) where
  account_get_account-Keeps : (addr : ℕ) → Keeps f (account_get_account addr)
  unfolding account_get_account
  account_get_account-Keeps addr = search keeps_rules

  checked_save-Keeps : (a : Account) → Keeps f (checked_save a)
  unfolding checked_save save_account account_sanity
  checked_save-Keeps a = search keeps_rules

  pub account_lock_smt-Keeps : (addr : ℕ) (x : ℤ) → Keeps f (account_lock_smt addr x)
  unfolding account_lock_smt
  account_lock_smt-Keeps addr x =
      search (keeps_rules, account_get_account-Keeps, checked_save-Keeps)

  pub account_unlock_smt-Keeps : (addr : ℕ) (x : ℤ) → Keeps f (account_unlock_smt addr x)
  unfolding account_unlock_smt
  account_unlock_smt-Keeps addr x =
      search (keeps_rules, account_get_account-Keeps, checked_save-Keeps)

  pub account_use_smt-Keeps : (addr : ℕ) (x : ℤ) → Keeps f (account_use_smt addr x)
  unfolding account_use_smt
  account_use_smt-Keeps addr x = search (keeps_rules, account_get_account-Keeps, checked_save-Keeps)
