-- ===== src/Chain/Unlocks.antt =====
-- chainservice/events.go: doDelegateUnlocks tries every lock of a delegate, at a fee for each that
-- succeeds.
pub mod Frame
pub mod Charged
pub mod Charges
pub mod Outcomes
pub mod Status
pub mod Invariant
use photon_monitoring.Base.{
  ℕ, ℤ, pos, Bool, true, false, Option, none, some, List, [], ◌∷◌, ⊤, ◌*ℤ◌, length, if◌then◌else◌,
}
use photon_monitoring.Platform.{Platform, settings, Reply, reply, reply_err}
use photon_monitoring.Utils.{string_to_big_int}
use photon_monitoring.World.{M, World, ◌>>=◌, ◌>>◌, pure, panic, skip}
use photon_monitoring.Models.Rows.{
  Delegate, DelegateUnlock, DelegateAnnounceDispose, DelegateExecuteRecord, Message, smt_not_enough,
  partial_success, success_finished, status_failed, unlock_partial_success, unlock_all_failed,
}
use photon_monitoring.Models.Account.{account_lock_smt, account_unlock_smt, account_use_smt}
use photon_monitoring.Models.Delegate.{
  update_balance_proof, unlocks, update_object, get_delegate_announce_dispose_list_by_delegate_key,
}
use photon_monitoring.Models.Record.{is_success}
use photon_monitoring.Chain.Execute.{do_unlock}
use photon_monitoring.Chain.BalanceProof.{fail_delegate}

-- hasErr and hasSuccess
pub record Tally : Type 0 where
  pub has_err : Bool
  pub has_success : Bool

-- The status and the error that the tally gives.
pub unlocked_status : Tally → Delegate → Delegate
unlocked_status t d =
    if t.has_err
    then (if t.has_success
        then record d { status = partial_success; error = unlock_partial_success }
        else record d { status = status_failed; error = unlock_all_failed })
    else record d { status = success_finished }

module _ ⦃p : Platform⦄ where
  -- The body of the loop, after the call of doUnlock.
  settle_unlock : ℕ → Tally → DelegateExecuteRecord → M Tally
  settle_unlock delegator t r =
      if is_success r.status
      then (do
        e ← account_use_smt delegator settings.smt_unlock
        pure (record t { has_success = true }))
      else (do
        e ← account_unlock_smt delegator settings.smt_unlock
        pure (record t { has_err = true }))

  pub unlock_each :
      Delegate → ℤ → List DelegateAnnounceDispose → Tally → List DelegateUnlock → M Tally
  unfolding settle_unlock
  unlock_each d amount das t [] = pure t
  unlock_each d amount das t (du ∷ dus) = do
    r ← do_unlock d du amount das
    t ← settle_unlock (p.text_address d.delegator_address_str) t r
    unlock_each d amount das t dus

  or_panic : {A : Type 0} → Reply A → M A
  or_panic (reply a) = pure a
  or_panic (reply_err e) = panic

  unlock_locked :
      Delegate → ℤ → List DelegateAnnounceDispose → List DelegateUnlock → Option Message → M ⊤
  unfolding unlock_each unlocked_status
  unlock_locked d amount das dus (some e) = do fail_delegate (smt_not_enough e) d; skip
  unlock_locked d amount das dus none = do
    t ← unlock_each d amount das (record { has_err = false; has_success = false }) dus
    update_object (unlocked_status t d)

  pub unlock_cost : List DelegateUnlock → ℤ
  unlock_cost dus = settings.smt_unlock *ℤ pos (length dus)

  unlock_all : Delegate → ℤ → List DelegateUnlock → M ⊤
  unfolding or_panic unlock_locked unlock_cost
  unlock_all d amount [] = skip
  unlock_all d amount (du ∷ dus) = do
    q ← get_delegate_announce_dispose_list_by_delegate_key d.key
    das ← or_panic q
    e ← account_lock_smt (p.text_address d.delegator_address_str) (unlock_cost (du ∷ dus))
    unlock_locked d amount das (du ∷ dus) e

  pub do_delegate_unlocks : Delegate → M ⊤
  unfolding unlock_all
  do_delegate_unlocks d = do
    proof ← update_balance_proof d
    dus ← unlocks d
    unlock_all d (string_to_big_int proof.transfer_amount_str) dus
