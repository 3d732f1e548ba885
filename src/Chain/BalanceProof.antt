-- ===== src/Chain/BalanceProof.antt =====
-- chainservice/events.go: doDelegateUpdateBalanceProof. The fee is locked first, and then used when
-- the transaction has succeeded or returned when it has not.
pub mod Failing
pub mod Outcomes
pub mod Settled
pub mod Charges
pub mod Invariant
use photon_monitoring.Base.{ℕ, ℤ, pos, Option, none, some, ⊤, leb_ℤ, if◌then◌else◌}
use photon_monitoring.Platform.{Platform, settings}
use photon_monitoring.World.{M, World, ◌>>=◌, ◌>>◌, pure}
use photon_monitoring.Models.Rows.{
  Delegate, DelegateUpdateBalanceProof, DelegateExecuteRecord, Message, smt_not_enough,
  status_failed,
}
use photon_monitoring.Models.Account.{account_lock_smt, account_unlock_smt, account_use_smt}
use photon_monitoring.Models.Delegate.{update_balance_proof, update_object}
use photon_monitoring.Models.Record.{is_success}
use photon_monitoring.Chain.Execute.{do_update_balance_proof}

abbrev pub failed_with : Message → Delegate → Delegate
failed_with e d = record d { status = status_failed; error = e }

module _ ⦃p : Platform⦄ where
  -- `d.Status = Failed; d.Error = e; UpdateObject(d)`
  pub fail_delegate : Message → Delegate → M Delegate
  fail_delegate e d = do update_object (failed_with e d); pure (failed_with e d)

  pub settle_update : Delegate → DelegateExecuteRecord → M Delegate
  unfolding fail_delegate
  settle_update d r =
      let delegator = p.text_address d.delegator_address_str in
      if is_success r.status
      then (do e ← account_use_smt delegator settings.smt_update_transfer; pure d)
      else (do
        e ← account_unlock_smt delegator settings.smt_update_transfer
        fail_delegate r.error d)

  update_locked : Delegate → DelegateUpdateBalanceProof → Option Message → M Delegate
  unfolding settle_update fail_delegate
  update_locked d du (some e) = fail_delegate (smt_not_enough e) d
  update_locked d du none = do r ← do_update_balance_proof d du; settle_update d r

  -- The delegate comes back as it stands in memory, for the unlocks that follow.
  pub do_delegate_update_balance_proof : Delegate → M Delegate
  unfolding update_locked
  do_delegate_update_balance_proof d = do
    du ← update_balance_proof d
    if leb_ℤ du.nonce (pos 0) then pure d else (do
      e ← account_lock_smt (p.text_address d.delegator_address_str) settings.smt_update_transfer
      update_locked d du e)
