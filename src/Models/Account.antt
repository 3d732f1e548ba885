-- ===== src/Models/Account.antt =====
-- models/account.go: the balance of each delegator. An operation reads the row,
-- computes in big.Int, checks the account's sanity and writes the row back.
pub mod Frame
pub mod Health
pub mod Solvency
pub mod Rules
pub mod Deposit
pub mod Total
pub mod Branches
pub mod Stored
pub mod Fee
pub mod Invariant
pub mod Balance
pub mod Overwritten
pub mod Race
pub mod Ledger
use photon_monitoring.Base.{
  ℕ, ℤ, pos, Bool, true, false, ◌&&◌, not, Option, none, some, ◌==◌, ltb_ℤ, leb_ℤ, ◌+ℤ◌, ◌-ℤ◌, abs,
  Text, ⊤, Option-cases, if◌then◌else◌,
}
use photon_monitoring.Orm.{Fetch, found, not_found, failed}
use photon_monitoring.Platform.{Platform}
use photon_monitoring.World.{M, World, ◌>>=◌, ◌>>◌, pure, panic, skip, first, write, accounts}
use photon_monitoring.Models.Rows.{
  Message, db_err, balance_not_enough, need_smt_smaller, error_unlock_smt, Account,
  AccountSerialization,
}

-- `Bytes` keeps the magnitude and drops the sign.
pub to_serialization : Account → AccountSerialization
to_serialization a = record {
  address = a.address;
  total_received_smt_bytes = abs a.total_received_smt;
  used_smt_bytes = abs a.used_smt;
  locked_smt_bytes = abs a.locked_smt;
  need_smt_bytes = abs a.need_smt;
}

unfoldable pub to_account : AccountSerialization → Account
to_account al = record {
  address = al.address;
  total_received_smt = pos al.total_received_smt_bytes;
  used_smt = pos al.used_smt_bytes;
  locked_smt = pos al.locked_smt_bytes;
  need_smt = pos al.need_smt_bytes;
}

-- `&accountSerialization{Address: addr}`: the columns that are nil bytes are zero.
abbrev pub blank : ℕ → AccountSerialization
blank addr = record {
  address = addr;
  total_received_smt_bytes = 0;
  used_smt_bytes = 0;
  locked_smt_bytes = 0;
  need_smt_bytes = 0;
}

unfoldable pub account_available : Account → ℤ
account_available a = a.total_received_smt -ℤ a.used_smt -ℤ a.locked_smt

-- The conditions under which accountSanity does not panic.
pub is_sane : Account → Bool
is_sane a =
    not (ltb_ℤ a.total_received_smt (pos 0))
    && not (ltb_ℤ a.used_smt (pos 0))
    && not (ltb_ℤ a.locked_smt (pos 0))
    && not (ltb_ℤ a.need_smt (pos 0))
    && not (ltb_ℤ a.total_received_smt a.used_smt)

abbrev pub has_address : ℕ → AccountSerialization → Bool
has_address addr r = r.address == addr

-- The error value of a call whose own error is passed on.
abbrev pub to_error : Option Text → Option Message
to_error none = none
to_error (some e) = some (db_err e)

-- What a query leaves in the struct that it fills: a failed or empty one leaves it as it was.
abbrev pub filled {ℓ} : {A : Type ℓ} → A → Fetch A → A
filled a (found r) = r
filled a not_found = a
filled a (failed e) = a

module _ ⦃p : Platform⦄ where
  pub account_sanity : Account → M ⊤
  account_sanity a = if is_sane a then skip else panic

  -- AccountGetAccount, and GetAccountInTx, which reads the same in a transaction: an error is
  -- logged, and a blank account returned.
  pub account_get_account : ℕ → M Account
  account_get_account addr = do
    r ← first accounts (has_address addr)
    pure (to_account (filled (blank addr) r))

  save_account : Account → M (Option Text)
  save_account a = write accounts (p.gorm.save (has_address a.address) (to_serialization a))

  -- The last lines of lock, unlock and use.
  pub checked_save : Account → M (Option Message)
  checked_save a = do account_sanity a; e ← save_account a; pure (to_error e)

  create_if_missing : ℕ → Fetch AccountSerialization → M (Option Text)
  create_if_missing addr not_found = write accounts (p.gorm.save (has_address addr) (blank addr))
  create_if_missing addr _ = pure none

  panic_if_err : Option Text → M ⊤
  panic_if_err none = skip
  panic_if_err (some e) = panic

  -- AccountAddSmt up to its `toAccount`: the row, which is created if it is missing.
  find_or_create : ℕ → M AccountSerialization
  find_or_create addr = do
    r ← first accounts (has_address addr)
    create_if_missing addr r
    pure (filled (blank addr) r)

  -- AccountAddSmt from its `toAccount` on.
  add_received : AccountSerialization → ℤ → M ⊤
  add_received row amount = do
    let a = to_account row
    let a' = record a { total_received_smt = a.total_received_smt +ℤ amount }
    account_sanity a'
    let al = to_serialization a'
    e ← write accounts (
        p.gorm.update (has_address al.address)
          (λ s. record s { total_received_smt_bytes = al.total_received_smt_bytes }))
    panic_if_err e

  pub account_add_smt : ℕ → ℤ → M ⊤
  unfolding find_or_create add_received create_if_missing panic_if_err
  account_add_smt addr amount = do row ← find_or_create addr; add_received row amount

  pub account_update_need_smt : ℕ → ℤ → M ⊤
  unfolding save_account panic_if_err
  account_update_need_smt addr amount = do
    a ← account_get_account addr
    let a' = record a { need_smt = amount }
    account_sanity a'
    e ← save_account a'
    panic_if_err e

  pub account_is_balance_enough : ℕ → M Bool
  account_is_balance_enough addr = do
    a ← account_get_account addr
    account_sanity a
    pure (leb_ℤ a.need_smt (account_available a))

  -- AccountLockSmt from its read of the account on.
  pub lock_account : ℤ → Account → M (Option Message)
  unfolding save_account checked_save
  lock_account amount a =
      let av = account_available a in
      let a' = record a { locked_smt = a.locked_smt +ℤ amount; need_smt = a.need_smt -ℤ amount } in
      if ltb_ℤ av amount
      then pure (some (balance_not_enough av amount))
      else if ltb_ℤ a.need_smt amount
      then pure (some (need_smt_smaller a.need_smt amount))
      else checked_save a'

  pub account_lock_smt : ℕ → ℤ → M (Option Message)
  unfolding lock_account
  account_lock_smt addr amount = do a ← account_get_account addr; lock_account amount a

  pub account_unlock_smt : ℕ → ℤ → M (Option Message)
  unfolding save_account checked_save
  account_unlock_smt addr amount = do
    a ← account_get_account addr
    let a' = record a { locked_smt = a.locked_smt -ℤ amount }
    if ltb_ℤ a.locked_smt amount
        then pure (some (error_unlock_smt amount a.locked_smt))
        else checked_save a'

  pub account_use_smt : ℕ → ℤ → M (Option Message)
  unfolding save_account checked_save
  account_use_smt addr amount = do
    a ← account_get_account addr
    let a' = record a { locked_smt = a.locked_smt -ℤ amount; used_smt = a.used_smt +ℤ amount }
    if ltb_ℤ a.locked_smt amount
        then pure (some (error_unlock_smt amount a.locked_smt))
        else checked_save a'
