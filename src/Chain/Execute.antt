-- ===== src/Chain/Execute.antt =====
-- chainservice/events.go: doRegisterSecret, doUpdateBalanceProof, doUnlock and doPunish. Each makes
-- a record, sends a transaction, waits for its receipt and saves the record whatever happened.
pub mod Frame
pub mod Total
pub mod Answer
use photon_monitoring.Base.{
  ℕ, ◌+◌, ◌%◌, ◌^◌, ℤ, pos, Bool, true, false, ◌||◌, Option, none, some, List, [], ◌∷◌, ⊤, ◌==◌,
  Text, pos_part, if◌then◌else◌,
}
use photon_monitoring.Utils.{string_to_big_int}
use photon_monitoring.Platform.{
  Platform, Tx, register_secret, update_balance_proof_delegate, unlock_delegate,
  punish_obsolete_unlock, Reply, reply, reply_err,
}
use photon_monitoring.World.{M, World, ◌>>=◌, ◌>>◌, pure, panic, gets, outer}
use photon_monitoring.Models.Rows.{
  Delegate, DelegateSecret, DelegateUpdateBalanceProof, DelegateUnlock, DelegatePunish,
  DelegateAnnounceDispose, DelegateExecuteRecord, of_secret, of_update, of_unlock, of_punish,
  update_balance_proof_type, unlock_type, punish_type, register_secret_type, success_executed,
  error_executed, create_tx_err, wait_mined_err, tx_execution_err, token_network_err,
  give_up_by_dispose,
}
use photon_monitoring.Models.Record.{new_delegate_execute_record, save_delegate_execute_record}

module _ ⦃p : Platform⦄ where
  -- `ce.blockNumber.Load().(int64)`: on nil the assertion panics, and the deferred save still runs.
  asserted : DelegateExecuteRecord → Option ℤ → M ℤ
  asserted r none = do save_delegate_execute_record r; panic
  asserted r (some b) = pure b

  load_block_number : DelegateExecuteRecord → M ℤ
  unfolding asserted
  load_block_number r = do n ← gets (λ w. w.block_number); asserted r n

  -- The receipt of a transaction that was sent.
  receipt : DelegateExecuteRecord → Reply Bool → M DelegateExecuteRecord
  receipt r (reply_err e) = pure (record r { error = wait_mined_err e })
  receipt r (reply successful) = do
    b ← load_block_number r
    time ← outer p.now
    let r = record r { tx_pack_block_number = b; tx_pack_timestamp = time }
    pure (
        if successful
        then record r { status = success_executed }
        else record r { error = tx_execution_err })

  sent_tx : DelegateExecuteRecord → Reply ℕ → M DelegateExecuteRecord
  unfolding receipt load_block_number
  sent_tx r (reply_err e) = pure (record r { error = create_tx_err e })
  sent_tx r (reply hash) = do
    let r = record r { status = error_executed; tx_hash_str = p.hash_text hash }
    b ← load_block_number r
    time ← outer p.now
    let r = record r { tx_create_block_number = b; tx_create_timestamp = time }
    mined ← outer (p.wait_mined hash)
    receipt r mined

  -- What the four functions have in common, from the call of the contract on.
  pub execute_tx : Tx → DelegateExecuteRecord → M DelegateExecuteRecord
  unfolding sent_tx
  execute_tx tx r = do sent ← outer (p.send tx); sent_tx r sent

  -- The deferred SaveDelegateExecuteRecord.
  saving : M DelegateExecuteRecord → M DelegateExecuteRecord
  saving m = do r ← m; save_delegate_execute_record r; pure r

  -- `ce.bcs.TokenNetwork(token)`, and on success the transaction.
  unless_network_err : Tx → DelegateExecuteRecord → Option Text → M DelegateExecuteRecord
  unless_network_err tx r none = execute_tx tx r
  unless_network_err tx r (some t) = pure (record r { error = token_network_err t })

  on_token_network : Delegate → Tx → DelegateExecuteRecord → M DelegateExecuteRecord
  unfolding unless_network_err
  on_token_network d tx r = do
    e ← outer (p.token_network (p.text_address d.token_address_str))
    unless_network_err tx r e

  pub do_register_secret : Delegate → DelegateSecret → M DelegateExecuteRecord
  unfolding saving
  do_register_secret d s = do
    r ← new_delegate_execute_record d register_secret_type (of_secret s)
    saving (execute_tx (register_secret (p.text_hash s.secret)) (record r { secret = s.secret }))

  pub update_tx : Delegate → DelegateUpdateBalanceProof → Tx
  update_tx d du =
      update_balance_proof_delegate (p.text_address d.token_address_str)
        (p.text_address d.partner_address_str) (p.text_address d.delegator_address_str)
        (string_to_big_int du.transfer_amount_str) (p.text_hash du.locksroot_str)
        (pos_part du.nonce) (p.text_hash du.extra_hash_str) du.closing_signature
        du.non_closing_signature

  pub do_update_balance_proof : Delegate → DelegateUpdateBalanceProof → M DelegateExecuteRecord
  unfolding saving on_token_network update_tx
  do_update_balance_proof d du = do
    r ← new_delegate_execute_record d update_balance_proof_type (of_update du)
    saving (on_token_network d (update_tx d du) r)

  -- Whether the delegator has announced that it gives the lock up.
  pub is_given_up : DelegateUnlock → List DelegateAnnounceDispose → Bool
  is_given_up du [] = false
  is_given_up du (da ∷ das) =
      (p.text_hash da.lock_secret_hash_str == p.text_hash du.lock_secret_hash_str)
      || is_given_up du das

  pub unlock_tx : Delegate → DelegateUnlock → ℤ → Tx
  unlock_tx d du transfer_amount =
      unlock_delegate (p.text_address d.token_address_str) (p.text_address d.partner_address_str)
        (p.text_address d.delegator_address_str) transfer_amount du.expiration
        (string_to_big_int du.amount_str) (p.text_hash du.lock_secret_hash_str) du.merkle_proof
        du.signature

  pub do_unlock :
      Delegate → DelegateUnlock → ℤ → List DelegateAnnounceDispose → M DelegateExecuteRecord
  unfolding saving on_token_network is_given_up unlock_tx
  do_unlock d du transfer_amount das = do
    r ← new_delegate_execute_record d unlock_type (of_unlock du)
    if is_given_up du das
        then saving (pure (record r { status = success_executed; error = give_up_by_dispose }))
        else saving (on_token_network d (unlock_tx d du transfer_amount) r)

  pub punish_tx : Delegate → DelegatePunish → Tx
  punish_tx d dp =
      punish_obsolete_unlock (p.text_address d.token_address_str)
        (p.text_address d.delegator_address_str) (p.text_address d.partner_address_str)
        (p.text_hash dp.lock_hash_str) (p.text_hash dp.additional_hash_str) dp.signature

  pub do_punish : Delegate → DelegatePunish → M DelegateExecuteRecord
  unfolding saving on_token_network punish_tx
  do_punish d dp = do
    r ← new_delegate_execute_record d punish_type (of_punish dp)
    saving (on_token_network d (punish_tx d dp) r)
