-- ===== src/Models/Account/Branches.antt =====
-- Every branch of lock, unlock and use, on an account that is solvent.
use photon_monitoring.Base.{
  ℕ, ℤ, pos, ◌≡◌, ◌⊎◌, inl, inr, none, some, ◌≤ℤ◌, arith, Bool-cases, leb_ℤ,
}
use photon_monitoring.Orm.{IsDocumented}
use photon_monitoring.Platform.{Platform}
use photon_monitoring.World.{World, ret}
use photon_monitoring.Models.Rows.{Account, balance_not_enough, need_smt_smaller, error_unlock_smt}
use photon_monitoring.Models.Account.{
  account_available, account_lock_smt, account_unlock_smt, account_use_smt,
}
use photon_monitoring.Models.Account.Solvency.{IsSolvent, locked, unlocked, used}
use photon_monitoring.Models.Account.Rules.{
  account_of, IsUp, Sets, account_lock_smt_lem, account_unlock_smt_lem, account_use_smt_lem,
}

≤ℤ-cases : (a b : ℤ) → (a ≤ℤ b) ⊎ ¬ (a ≤ℤ b)
≤ℤ-cases a b = elim (Bool-cases (leb_ℤ a b)) [
  | inl e ↦ inl (ground arith)
  | inr e ↦ inr (λ h. ground arith)
]

module _ ⦃p : Platform⦄ (g : IsDocumented p.gorm) (addr : ℕ) (amount : ℤ) (w : World) (h : IsUp w)
    (solvent : IsSolvent (account_of w addr)) (nonneg : pos 0 ≤ℤ amount) where
  abbrev held : Account
  held = account_of w addr

  -- While the table answers, a lock of no negative amount, on a solvent account.
  -- Either the amount is available and needed: it moves from what is needed to what
  -- is locked, and no other account changes. Or it is not available, or available and
  -- not needed: the call returns the error that says so, and nothing changes at all.
  pub account_lock_smt-branches :
      let (r, v) = account_lock_smt addr amount w in
      ((amount ≤ℤ account_available held)
        × (amount ≤ℤ held.need_smt)
        × (r ≡ ret none)
        × Sets w addr (locked amount held) v)
      ⊎ (¬ (amount ≤ℤ account_available held)
          × (r ≡ ret (some (balance_not_enough (account_available held) amount)))
          × (v ≡ w))
      ⊎ ((amount ≤ℤ account_available held)
          × ¬ (amount ≤ℤ held.need_smt)
          × (r ≡ ret (some (need_smt_smaller held.need_smt amount)))
          × (v ≡ w))
  account_lock_smt-branches =
      let (done, short, unneeded) = account_lock_smt_lem g addr amount w h solvent nonneg in
      elim (≤ℤ-cases amount (account_available held)) [
        | inr x ↦ let (e, same) = short x in inr (inl (x, e, same))
        | inl fits ↦ elim (≤ℤ-cases amount held.need_smt) [
          | inl needs ↦ let (e, sets) = done fits needs in inl (fits, needs, e, sets)
          | inr x ↦ let (e, same) = unneeded fits x in inr (inr (fits, x, e, same))
        ]
      ]

  -- While the table answers, an unlock of no negative amount, on a solvent account.
  -- Either the amount is locked: it becomes available again, and no other account
  -- changes. Or it is not: the call returns the error that says so, and nothing
  -- changes at all.
  pub account_unlock_smt-branches :
      let (r, v) = account_unlock_smt addr amount w in
      ((amount ≤ℤ held.locked_smt) × (r ≡ ret none) × Sets w addr (unlocked amount held) v)
      ⊎ (¬ (amount ≤ℤ held.locked_smt)
          × (r ≡ ret (some (error_unlock_smt amount held.locked_smt)))
          × (v ≡ w))
  account_unlock_smt-branches =
      let (done, short) = account_unlock_smt_lem g addr amount w h solvent nonneg in
      elim (≤ℤ-cases amount held.locked_smt) [
        | inl fits ↦ let (e, sets) = done fits in inl (fits, e, sets)
        | inr x ↦ let (e, same) = short x in inr (x, e, same)
      ]

  -- While the table answers, a use of no negative amount, on a solvent account.
  -- Either the amount is locked: it becomes used, and no other account changes. Or it
  -- is not: the call returns the error that says so, and nothing changes at all.
  pub account_use_smt-branches :
      let (r, v) = account_use_smt addr amount w in
      ((amount ≤ℤ held.locked_smt) × (r ≡ ret none) × Sets w addr (used amount held) v)
      ⊎ (¬ (amount ≤ℤ held.locked_smt)
          × (r ≡ ret (some (error_unlock_smt amount held.locked_smt)))
          × (v ≡ w))
  account_use_smt-branches =
      let (done, short) = account_use_smt_lem g addr amount w h solvent nonneg in
      elim (≤ℤ-cases amount held.locked_smt) [
        | inl fits ↦ let (e, sets) = done fits in inl (fits, e, sets)
        | inr x ↦ let (e, same) = short x in inr (x, e, same)
      ]
