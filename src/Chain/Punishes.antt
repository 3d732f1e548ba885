-- ===== src/Chain/Punishes.antt =====
-- chainservice/events.go: doDelegatePunishes tries the punishes of a delegate until one succeeds,
-- at one fee for all.
pub mod Frame
pub mod Answers
pub mod Outcomes
pub mod Charges
pub mod Invariant
use photon_monitoring.Base.{
  ℕ, ℤ, Bool, true, false, ◌||◌, Option, none, some, List, [], ◌∷◌, ⊤, if◌then◌else◌,
}
use photon_monitoring.Platform.{Platform, settings, Reply, reply, reply_err}
use photon_monitoring.World.{M, World, ◌>>=◌, ◌>>◌, pure, panic, skip}
use photon_monitoring.Models.Rows.{
  Delegate, DelegatePunish, Message, smt_not_enough, punish_all_failed, already_punish_success,
  punish_type, of_punish, success_executed,
}
use photon_monitoring.Models.Account.{account_lock_smt, account_unlock_smt, account_use_smt}
use photon_monitoring.Models.Delegate.{get_delegate_punish_list_by_delegate_key}
use photon_monitoring.Models.Record.{
  is_success, new_delegate_execute_record, save_delegate_execute_record,
}
use photon_monitoring.Chain.Execute.{do_punish}
use photon_monitoring.Chain.BalanceProof.{fail_delegate}

module _ ⦃p : Platform⦄ where
  -- The record of a punish that is no longer needed.
  pub skip_punish : Delegate → DelegatePunish → M ⊤
  skip_punish d dp = do
    r ← new_delegate_execute_record d punish_type (of_punish dp)
    save_delegate_execute_record
        (record r { status = success_executed; error = already_punish_success })

  -- One round, and the loop; the result is hasSuccess.
  punish_one : Delegate → Bool → DelegatePunish → M Bool
  unfolding skip_punish
  punish_one d true dp = do skip_punish d dp; pure true
  punish_one d false dp = do r ← do_punish d dp; pure (is_success r.status)

  pub punish_each : Delegate → Bool → List DelegatePunish → M Bool
  unfolding punish_one
  punish_each d has_success [] = pure has_success
  punish_each d has_success (dp ∷ dps) = do
    has_success ← punish_one d has_success dp
    punish_each d has_success dps

  settle_punish : Delegate → Bool → M ⊤
  settle_punish d has_success =
      let delegator = p.text_address d.delegator_address_str in
      if has_success then (do e ← account_use_smt delegator settings.smt_punish; skip) else (do
        e ← account_unlock_smt delegator settings.smt_punish
        fail_delegate punish_all_failed d
        skip)

  punish_locked : Delegate → List DelegatePunish → Option Message → M ⊤
  unfolding punish_each settle_punish
  punish_locked d dps (some e) = do fail_delegate (smt_not_enough e) d; skip
  punish_locked d dps none = do has_success ← punish_each d false dps; settle_punish d has_success

  punish_listed : Delegate → Reply (List DelegatePunish) → M ⊤
  unfolding punish_locked
  punish_listed d (reply_err e) = panic
  punish_listed d (reply []) = skip
  punish_listed d (reply (dp ∷ dps)) = do
    e ← account_lock_smt (p.text_address d.delegator_address_str) settings.smt_punish
    punish_locked d (dp ∷ dps) e

  pub do_delegate_punishes : Delegate → M ⊤
  unfolding punish_listed
  do_delegate_punishes d = do q ← get_delegate_punish_list_by_delegate_key d.key; punish_listed d q
