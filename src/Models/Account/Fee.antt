-- ===== src/Models/Account/Fee.antt =====
-- A fee that is locked before a contract call, and used or given back after it.
use photon_monitoring.Base.{ℤ, ◌≡◌, ◌≤ℤ◌, ◌+ℤ◌, ◌-ℤ◌, int_laws}
use photon_monitoring.Models.Rows.{Account, Message, balance_not_enough, need_smt_smaller}
use photon_monitoring.Models.Account.{account_available}
use photon_monitoring.Models.Account.Solvency.{locked, used, unlocked}

-- A needed fee that is used, and one that is given back.
abbrev pub spent : ℤ → Account → Account
spent x a = record a { need_smt = a.need_smt -ℤ x; used_smt = a.used_smt +ℤ x }

abbrev pub returned : ℤ → Account → Account
returned x a = record a { need_smt = a.need_smt -ℤ x }

-- A lock of `x` is made.
abbrev pub IsPayable : ℤ → Account → Type 0
IsPayable x a = (x ≤ℤ account_available a) × (x ≤ℤ a.need_smt)

-- The error with which a lock of `x` is refused.
pub data IsRefused (x : ℤ) (a : Account) : Message → Type 0 where
  unavailable :
      ¬ (x ≤ℤ account_available a) → IsRefused x a (balance_not_enough (account_available a) x)
  unneeded :
      x ≤ℤ account_available a → ¬ (x ≤ℤ a.need_smt) → IsRefused x a (need_smt_smaller a.need_smt x)

pub spent_after_lock : (x : ℤ) (a : Account) → used x (locked x a) ≡ spent x a
spent_after_lock x a =
    let l : a.locked_smt +ℤ x -ℤ x ≡ a.locked_smt = omega int_laws in
    λ i. record a { locked_smt = l i; need_smt = a.need_smt -ℤ x; used_smt = a.used_smt +ℤ x }

pub returned_after_lock : (x : ℤ) (a : Account) → unlocked x (locked x a) ≡ returned x a
returned_after_lock x a =
    let l : a.locked_smt +ℤ x -ℤ x ≡ a.locked_smt = omega int_laws in
    λ i. record a { locked_smt = l i; need_smt = a.need_smt -ℤ x }
