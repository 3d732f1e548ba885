-- ===== src/Models/Account/Overwritten.antt =====
-- AccountAddSmt when its query fails with another error than that there is no row.
use photon_monitoring.Base.{
  ℕ, pos, ◌≡◌, refl, Text, Option, none, some, List, ◌==◌, ◌+ℤ◌, find?, adjust, arith, true,
  int_laws, if◌then◌else◌,
}
use photon_monitoring.Base.Keyed.{find?-adjust}
use photon_monitoring.Orm.{failed}
use photon_monitoring.Platform.{Platform}
use photon_monitoring.World.{World, ret}
use photon_monitoring.Models.Rows.{AccountSerialization}
use photon_monitoring.Models.Account.{
  blank, has_address, is_sane, to_account, to_serialization, account_add_smt, account_sanity,
  find_or_create, create_if_missing, add_received, panic_if_err,
}
use photon_monitoring.Models.Account.Rules.{read, account_of, OnlyAccount}

-- The update of the one column that AccountAddSmt writes.
abbrev pub total_column : ℕ → AccountSerialization → AccountSerialization
total_column n s = record s { total_received_smt_bytes = n }

read-total_column :
    (addr b n : ℕ) (rs : List AccountSerialization) (r : AccountSerialization)
    → find? (has_address addr) rs ≡ some r
    → read b (adjust (has_address addr) (total_column n) rs)
      ≡ (if addr == b then record (read addr rs) { total_received_smt = pos n } else read b rs)
unfolding to_account
read-total_column addr b n rs r e = grind (
  arith,
  find?-adjust (λ (r : AccountSerialization). r.address) b addr (total_column n) rs (λ y. refl),
  e,
)

module _ ⦃p : Platform⦄ (addr n : ℕ) (w : World) where
  abbrev updated : Option Text × p.gorm.Table AccountSerialization
  updated = p.gorm.update (has_address addr) (total_column n) w.db.accounts

  abbrev with_accounts : p.gorm.Table AccountSerialization → World
  with_accounts t = record w { db = record w.db { accounts = t } }

  -- The blank account of the address takes the place of the row.
  unread :
      (e : Text)
      → p.gorm.first (has_address addr) w.db.accounts ≡ failed e
      → find_or_create addr w ≡ (ret (blank addr), w)
  unfolding find_or_create create_if_missing
  unread e fails = rw fails refl

  added : updated.0 ≡ none → add_received (blank addr) (pos n) w ≡ (ret tt, with_accounts updated.1)
  unfolding add_received account_sanity is_sane to_serialization panic_if_err to_account
  added done =
      let sum : pos 0 +ℤ pos n ≡ pos n = omega int_laws in
      let sane : is_sane (record (to_account (blank addr)) { total_received_smt = pos n }) ≡ true =
        ground arith in
      rw sum (ground (arith, sane, done))

  -- When the query of an account that has a row fails, and the update of the row is done, as gorm
  -- documents it, AccountAddSmt returns, and what the account has received is the deposit alone:
  -- what it had received before is lost. No other account has changed.
  pub account_add_smt-overwrites :
      (e : Text) (r : AccountSerialization)
      → p.gorm.first (has_address addr) w.db.accounts ≡ failed e
      → find? (has_address addr) (p.gorm.rows w.db.accounts) ≡ some r
      → updated.0 ≡ none
      → p.gorm.rows updated.1
        ≡ adjust (has_address addr) (total_column n) (p.gorm.rows w.db.accounts)
      → let (x, v) = account_add_smt addr (pos n) w in
        (x ≡ ret tt)
        × OnlyAccount w addr (record (account_of w addr) { total_received_smt = pos n }) v
  unfolding account_add_smt
  account_add_smt-overwrites e r fails stored done rows' =
      let run : account_add_smt addr (pos n) w ≡ (ret tt, with_accounts updated.1) =
        rw (unread e fails) (added done) in
      rw run (refl, λ b. rw rows' (read-total_column addr b n (p.gorm.rows w.db.accounts) r stored))
