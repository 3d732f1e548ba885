-- ===== src/Models/Account/Total.antt =====
-- The operations on an account, as steps of an action that goes on.
use photon_monitoring.Base.{ℕ, ℤ, pos, ◌≡◌, refl, sym, subst, ap, ◌≤ℤ◌, none, Option, arith}
use photon_monitoring.Orm.{IsDocumented}
use photon_monitoring.Platform.{Platform}
use photon_monitoring.World.{World, M, ret, Outcome}
use photon_monitoring.World.Total.{IsHealthy, Returns}
use photon_monitoring.Models.Rows.{Account, Message}
use photon_monitoring.Models.Account.{
  account_available, account_lock_smt, account_unlock_smt, account_use_smt,
}
use photon_monitoring.Models.Account.Solvency.{IsSolvent, locked, unlocked, used}
use photon_monitoring.Models.Account.Rules.{
  account_of, Sets, account_lock_smt_lem, account_unlock_smt_lem, account_use_smt_lem,
}

module _ ⦃p : Platform⦄ where
  pub Sets-IsHealthy :
      (addr : ℕ) (a : Account) (w v : World) → IsHealthy w → Sets w addr a v → IsHealthy v
  Sets-IsHealthy addr a w v h (_, up', same) = subst IsHealthy (sym same) (record {
    delegates_up = h.delegates_up;
    punishes_up = h.punishes_up;
    disposes_up = h.disposes_up;
    accounts_up = up';
    monitors_up = h.monitors_up;
    records_up = h.records_up;
    block_seen = h.block_seen;
  })

  -- The account itself, after the change.
  pub Sets-self : (addr : ℕ) (a : Account) (w v : World) → Sets w addr a v → account_of v addr ≡ a
  Sets-self addr a w v (r, _, _) = ground (arith, r addr)

  -- The operation has changed the one account, and returned no error.
  abbrev pub Moves : M (Option Message) → World → ℕ → Account → Type 0
  Moves m w addr a = Returns m w (λ e v. (e ≡ none) × IsHealthy v × Sets w addr a v)

  Moves-of :
      (m : M (Option Message)) (w : World) (addr : ℕ) (a : Account)
      → IsHealthy w
      → ((m w).0 ≡ ret none) × Sets w addr a (m w).1
      → Moves m w addr a
  Moves-of m w addr a h (e, s) = (
    none,
    (m w).1,
    ap (λ (r : Outcome (Option Message)). (r, (m w).1)) e,
    (refl, Sets-IsHealthy addr a w (m w).1 h s, s),
  )

module _ ⦃p : Platform⦄ (g : IsDocumented p.gorm) (addr : ℕ) (amount : ℤ) (w : World)
    (h : IsHealthy w) (solvent : IsSolvent (account_of w addr)) (nonneg : pos 0 ≤ℤ amount) where
  pub use-Moves :
      amount ≤ℤ (account_of w addr).locked_smt
      → Moves (account_use_smt addr amount) w addr (used amount (account_of w addr))
  use-Moves fits =
      Moves-of (account_use_smt addr amount) w addr (used amount (account_of w addr)) h
        ((account_use_smt_lem g addr amount w h.accounts_up solvent nonneg).0 fits)

  pub unlock-Moves :
      amount ≤ℤ (account_of w addr).locked_smt
      → Moves (account_unlock_smt addr amount) w addr (unlocked amount (account_of w addr))
  unlock-Moves fits =
      Moves-of (account_unlock_smt addr amount) w addr (unlocked amount (account_of w addr)) h
        ((account_unlock_smt_lem g addr amount w h.accounts_up solvent nonneg).0 fits)

  pub lock-Moves :
      amount ≤ℤ account_available (account_of w addr)
      → amount ≤ℤ (account_of w addr).need_smt
      → Moves (account_lock_smt addr amount) w addr (locked amount (account_of w addr))
  lock-Moves fits needs =
      Moves-of (account_lock_smt addr amount) w addr (locked amount (account_of w addr)) h
        ((account_lock_smt_lem g addr amount w h.accounts_up solvent nonneg).0 fits needs)
