-- ===== src/Models/Receive/Need.antt =====
-- What a request makes of the needed fee of its delegator's account.
use photon_monitoring.Base.{
  ℕ, ℤ, pos, ◌≡◌, refl, sym, true, ◌≤ℤ◌, ◌+ℤ◌, ◌-ℤ◌, abs, eqb_ℤ, int_laws, arith, Bool-cases, inl,
  inr,
}
use photon_monitoring.Orm.{IsDocumented}
use photon_monitoring.Platform.{Platform}
use photon_monitoring.World.{World}
use photon_monitoring.World.Total.{IsHealthy, Returns}
use photon_monitoring.World.Health.{IsSafe-save_account}
use photon_monitoring.Models.Account.{to_serialization, has_address}
use photon_monitoring.Models.Account.Rules.{account_of, OnlyAccount, account_get_account-read}
use photon_monitoring.Models.Account.Stored.{read-need, read-stored}
use photon_monitoring.Models.Receive.{update_account_smt}

unchanged_need :
    (need old new : ℤ)
    → pos 0 ≤ℤ need
    → eqb_ℤ old new ≡ true
    → pos (abs (need +ℤ new -ℤ old)) ≡ need
unchanged_need need old new h e = grind (int_laws, e)

module _ ⦃p : Platform⦄ (g : IsDocumented p.gorm) where
  -- The needed fee of an account follows that of its delegate, on a healthy database: the change of
  -- the one is added to the other, and the sum is stored without its sign. The rest of the account
  -- and every other account are as they were.
  pub update_account_smt-need :
      (delegator : ℕ) (old new : ℤ) (w : World)
      → IsHealthy w
      → let held = account_of w delegator in
        Returns (update_account_smt delegator old new) w (λ _ v.
          IsHealthy v
          × OnlyAccount w delegator
              (record held { need_smt = pos (abs (held.need_smt +ℤ new -ℤ old)) })
              v)
  unfolding update_account_smt
  update_account_smt-need delegator old new w h = elim (Bool-cases (eqb_ℤ old new)) [
    | inl same ↦
        let kept =
          unchanged_need (account_of w delegator).need_smt old new
            (read-need delegator (p.gorm.rows w.db.accounts)) same in
        let row : account_of w delegator ≡ record (account_of w delegator) {
          need_smt = pos (abs ((account_of w delegator).need_smt +ℤ new -ℤ old));
        } =
          λ i. record (account_of w delegator) { need_smt = sym kept i } in
        (tt, w, rw same refl, (h, λ b. ground (arith, row)))
    | inr changed ↦
        let held = account_of w delegator in
        let x = held.need_smt +ℤ new -ℤ old in
        let a = record held { need_smt = x } in
        let save = p.gorm.save (has_address a.address) (to_serialization a) in
        let (e, rows', up') =
          g.save_up (has_address a.address) (to_serialization a) w.db.accounts h.accounts_up in
        let v = record w { db = record w.db { accounts = (save w.db.accounts).1 } } in
        (
          tt,
          v,
          rw (changed, account_get_account-read g delegator w h.accounts_up) (ground (arith, e)),
          (
            (IsSafe-save_account g (has_address a.address) (to_serialization a)).at w h,
            λ b. rw rows' (read-stored delegator b x (p.gorm.rows w.db.accounts)),
          ),
        )
  ]
