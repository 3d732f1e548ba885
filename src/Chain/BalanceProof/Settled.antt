-- ===== src/Chain/BalanceProof/Settled.antt =====
-- What an update of a balance proof charges once the chain has answered.
use photon_monitoring.Base.{
  ℕ, ℤ, pos, ◌≡◌, refl, sym, ap, ◌∙◌, inl, inr, true, false, Bool, Bool-cases, ◌≤ℤ◌, arith, upsert,
}
use photon_monitoring.Orm.{IsDocumented}
use photon_monitoring.Platform.{Platform, settings}
use photon_monitoring.World.{World}
use photon_monitoring.World.Total.{IsHealthy, Returns}
use photon_monitoring.Models.Rows.{Delegate, DelegateUpdateBalanceProof, DelegateExecuteRecord}
use photon_monitoring.Models.Account.Fee.{IsPayable, spent_after_lock, returned_after_lock}
use photon_monitoring.Models.Account.Rules.{account_of, OnlyAccount, OnlyAccount-self}
use photon_monitoring.Models.Account.Solvency.{IsSolvent, locked}
use photon_monitoring.Models.Account.Total.{use-Moves, unlock-Moves}
use photon_monitoring.Models.Delegate.{has_key}
use photon_monitoring.Models.Delegate.Saving.{update_object-saves}
use photon_monitoring.Models.Record.{is_success}
use photon_monitoring.Chain.Execute.{update_tx}
use photon_monitoring.Chain.Execute.Answer.{called}
use photon_monitoring.Chain.BalanceProof.{failed_with, fail_delegate, settle_update}
use photon_monitoring.Chain.BalanceProof.Outcomes.{◌<ℤ◌, Updated, succeeded, failed_by}

module _ ⦃p : Platform⦄ (g : IsDocumented p.gorm) (d : Delegate) (du : DelegateUpdateBalanceProof)
    (w : World) where
  abbrev delegator_of : ℕ
  delegator_of = p.text_address d.delegator_address_str

  abbrev fee : ℤ
  fee = settings.smt_update_transfer

  -- The answer of the chain to the transaction of the proof.
  abbrev success_told : Bool
  success_told = (called d (update_tx d du) w.outside).0

  -- After the lock and the contract call, from `u`.
  module _ (nonneg : pos 0 ≤ℤ fee) (newer : pos 0 <ℤ du.nonce)
      (payable : IsPayable fee (account_of w delegator_of)) (u : World) (h : IsHealthy u)
      (only : OnlyAccount w delegator_of (locked fee (account_of w delegator_of)) u)
      (same : p.gorm.rows u.db.delegates ≡ p.gorm.rows w.db.delegates)
      (solvent : IsSolvent (account_of u delegator_of))
      (fits : fee ≤ℤ (account_of u delegator_of).locked_smt) where
    settle_good :
        (r : DelegateExecuteRecord)
        → is_success r.status ≡ true
        → success_told ≡ true
        → Returns (settle_update d r) u (λ d' v. Updated d du fee w d' v × IsHealthy v)
    unfolding settle_update
    settle_good r good told =
        let (e, v, run, (_, hv, sets)) = use-Moves g delegator_of fee u h solvent nonneg fits in
        let self = OnlyAccount-self delegator_of _ w u only in
        (
          d,
          v,
          rw good (ground (arith, run)),
          (
            succeeded newer payable told refl
                (λ b.
                  ground (
                    arith,
                    sets.0 b,
                    only b,
                    self,
                    spent_after_lock fee (account_of w delegator_of),
                  ))
                (ap (λ (x : World). p.gorm.rows x.db.delegates) sets.2 ∙ same),
            hv,
          ),
        )

    settle_bad :
        (r : DelegateExecuteRecord)
        → is_success r.status ≡ false
        → success_told ≡ false
        → Returns (settle_update d r) u (λ d' v. Updated d du fee w d' v × IsHealthy v)
    unfolding settle_update fail_delegate
    settle_bad r bad told =
        let (e, x, run, (_, hx, sets)) = unlock-Moves g delegator_of fee u h solvent nonneg fits in
        let (_, v, run', ((rows', frame), hv)) =
          update_object-saves g (failed_with r.error d) x hx in
        let self = OnlyAccount-self delegator_of _ w u only in
        let at : (b : ℕ) → account_of v b ≡ account_of x b =
          λ b. ap (λ (z : World). account_of z b) frame in
        (
          failed_with r.error d,
          v,
          rw bad (ground (arith, run, run')),
          (
            failed_by r.error newer payable told refl
                (λ b. ground (
                  arith,
                  at b,
                  sets.0 b,
                  only b,
                  self,
                  returned_after_lock fee (account_of w delegator_of),
                ))
                (rows'
                  ∙ ap
                      (λ (z : World).
                        upsert (has_key d.key) (failed_with r.error d) (p.gorm.rows z.db.delegates))
                      sets.2
                  ∙ ap (upsert (has_key d.key) (failed_with r.error d)) same),
            hv,
          ),
        )

    pub settle_either :
        (r : DelegateExecuteRecord)
        → is_success r.status ≡ success_told
        → Returns (settle_update d r) u (λ d' v. Updated d du fee w d' v × IsHealthy v)
    settle_either r told = elim (Bool-cases (is_success r.status)) [
      | inl e ↦ settle_good r e (sym told ∙ e)
      | inr e ↦ settle_bad r e (sym told ∙ e)
    ]
