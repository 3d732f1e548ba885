-- ===== src/Models/Account/Solvency.antt =====
-- Balances as values: the four movements of smt, and the solvency that each keeps.
use photon_monitoring.Base.{ℤ, pos, ◌≡◌, true, ◌≤ℤ◌, ◌+ℤ◌, ◌-ℤ◌, int_laws}
use photon_monitoring.Models.Rows.{Account}
use photon_monitoring.Models.Account.{account_available, is_sane}

abbrev pub locked : ℤ → Account → Account
locked x a = record a { locked_smt = a.locked_smt +ℤ x; need_smt = a.need_smt -ℤ x }

abbrev pub unlocked : ℤ → Account → Account
unlocked x a = record a { locked_smt = a.locked_smt -ℤ x }

abbrev pub used : ℤ → Account → Account
used x a = record a { locked_smt = a.locked_smt -ℤ x; used_smt = a.used_smt +ℤ x }

abbrev pub deposited : ℤ → Account → Account
deposited x a = record a { total_received_smt = a.total_received_smt +ℤ x }

-- What is used and what is locked have both been received, and nothing is negative.
pub record IsSolvent (a : Account) : Type 0 where
  pub used_nonneg : pos 0 ≤ℤ a.used_smt
  pub locked_nonneg : pos 0 ≤ℤ a.locked_smt
  pub need_nonneg : pos 0 ≤ℤ a.need_smt
  pub covered : a.used_smt +ℤ a.locked_smt ≤ℤ a.total_received_smt

pub IsSolvent-sane : {a : Account} → IsSolvent a → is_sane a ≡ true
unfolding is_sane
IsSolvent-sane {a} h = grind (int_laws, h.used_nonneg, h.locked_nonneg, h.need_nonneg, h.covered)

module _ (x : ℤ) {a : Account} (h : IsSolvent a) (nonneg : pos 0 ≤ℤ x) where
  pub locked-IsSolvent : x ≤ℤ account_available a → x ≤ℤ a.need_smt → IsSolvent (locked x a)
  unfolding account_available
  locked-IsSolvent fits needs = omega int_laws

  pub unlocked-IsSolvent : x ≤ℤ a.locked_smt → IsSolvent (unlocked x a)
  unlocked-IsSolvent fits = omega int_laws

  pub used-IsSolvent : x ≤ℤ a.locked_smt → IsSolvent (used x a)
  used-IsSolvent fits = omega int_laws

  pub deposited-IsSolvent : IsSolvent (deposited x a)
  deposited-IsSolvent = omega int_laws
