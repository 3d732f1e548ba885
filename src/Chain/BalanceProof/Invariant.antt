-- ===== src/Chain/BalanceProof/Invariant.antt =====
-- doDelegateUpdateBalanceProof keeps every account solvent.
use photon_monitoring.Base.{pos, ◌≤ℤ◌, Option, none, some}
use photon_monitoring.Orm.{IsDocumented}
use photon_monitoring.Platform.{Platform, settings}
use photon_monitoring.World.Preserve.{Preserves, preserve_rules}
use photon_monitoring.Models.Rows.{
  Delegate, DelegateUpdateBalanceProof, DelegateExecuteRecord, Message,
}
use photon_monitoring.Models.Account.Invariant.{
  AllSolvent, Preserves-kept, outer-kept, records-kept, account_lock_smt-Preserves,
  account_unlock_smt-Preserves, account_use_smt-Preserves,
}
use photon_monitoring.Models.Delegate.Invariant.{delegate_rules}
use photon_monitoring.Chain.Execute.{do_update_balance_proof}
use photon_monitoring.Chain.Execute.Frame.{do_update_balance_proof-Keeps}
use photon_monitoring.Chain.BalanceProof.{
  fail_delegate, settle_update, update_locked, do_delegate_update_balance_proof,
}

module _ ⦃p : Platform⦄ where
  pub fail_delegate-Preserves :
      (e : Message) (d : Delegate) → Preserves AllSolvent (fail_delegate e d)
  unfolding fail_delegate
  fail_delegate-Preserves e d = search (preserve_rules, delegate_rules)

module _ ⦃p : Platform⦄ (g : IsDocumented p.gorm)
    (nonneg : pos 0 ≤ℤ settings.smt_update_transfer) where
  do_update_balance_proof-Preserves :
      (d : Delegate) (du : DelegateUpdateBalanceProof)
      → Preserves AllSolvent (do_update_balance_proof d du)
  do_update_balance_proof-Preserves d du =
      Preserves-kept (do_update_balance_proof d du)
        (do_update_balance_proof-Keeps outer-kept records-kept d du)

  settle_update-Preserves :
      (d : Delegate) (r : DelegateExecuteRecord) → Preserves AllSolvent (settle_update d r)
  unfolding settle_update
  settle_update-Preserves d r =
      let fee = settings.smt_update_transfer in
      search (
        preserve_rules,
        account_use_smt-Preserves g fee nonneg,
        account_unlock_smt-Preserves g fee nonneg,
        fail_delegate-Preserves,
      )

  update_locked-Preserves :
      (d : Delegate) (du : DelegateUpdateBalanceProof) (e : Option Message)
      → Preserves AllSolvent (update_locked d du e)
  unfolding update_locked
  update_locked-Preserves d du none =
      search (preserve_rules, do_update_balance_proof-Preserves, settle_update-Preserves)
  update_locked-Preserves d du (some e) = search (preserve_rules, fail_delegate-Preserves)

  pub do_delegate_update_balance_proof-Preserves :
      (d : Delegate) → Preserves AllSolvent (do_delegate_update_balance_proof d)
  unfolding do_delegate_update_balance_proof
  do_delegate_update_balance_proof-Preserves d = search (
    preserve_rules,
    delegate_rules,
    update_locked-Preserves,
    account_lock_smt-Preserves g settings.smt_update_transfer nonneg,
  )
