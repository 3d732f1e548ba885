-- ===== src/Models/Receive.antt =====
-- models/service.go: ReceiveDelegate takes an app's request in, in one transaction: punishes and
-- disposes are appended, the delegate is created or updated, the delegator's needed fee follows.
pub mod Update
pub mod Need
pub mod Renewal
pub mod Invariant
use mathlib.Core.Option
use photon_monitoring.Base.{
  ℕ, ℤ, pos, Bool, ◌&&◌, not, Option, none, some, Text, ⊤, ltb_ℤ, eqb_ℤ, ◌+ℤ◌, ◌-ℤ◌, ◌==◌,
  if◌then◌else◌, List, [],
}
use photon_monitoring.Orm.{Fetch, found, not_found, failed}
use photon_monitoring.Platform.{Platform, settings}
use photon_monitoring.World.{
  M, World, ◌>>=◌, ◌>>◌, pure, panic, first, write, outer, in_tx, delegates, accounts,
}
use photon_monitoring.Models.Rows.{
  Message, empty_text, find_delegate_err, open_block_not_equal, only_newer_nonce,
  update_delegate_err, Delegate, DelegateStatus, init,
}
use photon_monitoring.Models.Dto.{ChannelFor3rd}
use photon_monitoring.Models.Account.{account_get_account, to_serialization, has_address}
use photon_monitoring.Models.Delegate.{
  build_delegate_key, set_update_balance_proof, set_unlocks, set_secrets, need_smt, is_error,
  has_key, update_balance_proof, calc_need_smt,
}
use photon_monitoring.Models.Monitor.{add_delegate_monitor}
use photon_monitoring.Models.BlockNumber.{get_latest_block_number}
use photon_monitoring.Models.Service.{
  Fallible, get_delegate_update_balance_proof, get_delegate_unlocks, get_delete_secrets,
  append_delegate_punish, append_delegate_announce_dispose, is_init,
}

module _ ⦃p : Platform⦄ where
  -- The delegate struct of the query, with its key alone.
  keyed : ℕ → Delegate
  keyed k = record {
    key = k;
    channel_identifier_str = [];
    open_block_number = pos 0;
    token_address_str = [];
    delegator_address_str = [];
    partner_address_str = [];
    settle_block_number = pos 0;
    delegate_timestamp = pos 0;
    delegate_block_number = pos 0;
    status = init;
    error = empty_text;
    need_smt_str = [];
    update_balance_proof_gob = none;
    unlocks_gob = none;
    secrets_gob = none;
  }

  -- The branch of updateDelegate for a first delegation.
  first_delegate : ChannelFor3rd → ℕ → ℤ → Delegate → M Delegate
  first_delegate c delegator last_block_number d = do
    time ← outer p.now
    let d = record d {
      channel_identifier_str = p.hash_text c.channel_identifier;
      open_block_number = c.open_block_number;
      token_address_str = p.address_text c.token_address;
      delegator_address_str = p.address_text delegator;
      partner_address_str = p.address_text c.partner_address;
      settle_block_number = c.settle_block_number;
      delegate_timestamp = time;
      delegate_block_number = last_block_number;
      status = init;
      error = empty_text;
    }
    us ← get_delegate_unlocks c.unlocks
    let d = set_unlocks (set_update_balance_proof d (get_delegate_update_balance_proof c)) us
    if ltb_ℤ (pos 0) c.settle_block_number then add_delegate_monitor d else pure tt
    pure d

  -- The test of the nonce, and the new balance proof and unlocks, while the status is init.
  renew_proofs : ChannelFor3rd → Delegate → Fallible Delegate
  renew_proofs c d = do
    old ← update_balance_proof d
    let renewed = (do
      us ← get_delegate_unlocks c.unlocks
      pure
          (none, set_unlocks (set_update_balance_proof d (get_delegate_update_balance_proof c)) us))
    if not settings.debug_mode && ltb_ℤ c.update_transfer.nonce old.nonce
        then pure (some (only_newer_nonce old.nonce c.update_transfer.nonce), d)
        else renewed

  stamp : ℤ → Option Message × Delegate → Fallible Delegate
  stamp last_block_number (some e, d) = pure (some e, d)
  stamp last_block_number (none, d) = do
    time ← outer p.now
    pure (none, record d { delegate_timestamp = time; delegate_block_number = last_block_number })

  -- The branch of updateDelegate for a delegate that is there.
  pub old_delegate : ChannelFor3rd → ℤ → Delegate → Fallible Delegate
  unfolding renew_proofs stamp
  old_delegate c last_block_number d =
      let renewed = (do
        r ← (if is_init d.status then renew_proofs c d else pure (none, d))
        stamp last_block_number r) in
      if not settings.debug_mode && not (eqb_ℤ c.open_block_number d.open_block_number)
      then pure (some (open_block_not_equal d.open_block_number c.open_block_number), d)
      else renewed

  -- From "2.5" on: the secrets, the fee, the save. `old` is oldNeedSMT.
  finish_update : ChannelFor3rd → ℤ → ℤ → Option Message × Delegate → Fallible (Delegate × ℤ)
  finish_update c smt4_punish old (some e, d) = pure (some e, (d, old))
  finish_update c smt4_punish old (none, d) = do
    keys ← get_delete_secrets c.secrets
    d ← calc_need_smt smt4_punish (set_secrets d keys)
    err ← write delegates (p.gorm.save (has_key d.key) d)
    pure (Option.map update_delegate_err err, (d, old))

  update_found : ChannelFor3rd → ℕ → ℤ → ℤ → ℕ → Fetch Delegate → Fallible (Delegate × ℤ)
  unfolding first_delegate old_delegate finish_update keyed
  update_found c delegator last smt4_punish k (found d) = do
    r ← old_delegate c last d
    finish_update c smt4_punish (need_smt d) r
  update_found c delegator last smt4_punish k not_found = do
    d ← first_delegate c delegator last (keyed k)
    finish_update c smt4_punish (pos 0) (none, d)
  update_found c delegator last smt4_punish k (failed e) =
      pure (some (find_delegate_err e), (keyed k, pos 0))

  pub update_delegate : ChannelFor3rd → ℕ → ℤ → ℤ → Fallible (Delegate × ℤ)
  unfolding update_found
  update_delegate c delegator last_block_number smt4_punish = do
    let k = build_delegate_key c.channel_identifier delegator
    r ← first delegates (has_key k)
    update_found c delegator last_block_number smt4_punish k r

  -- The needed fee of the account moves by the change of the delegate's; there is no sanity check.
  pub update_account_smt : ℕ → ℤ → ℤ → M ⊤
  update_account_smt delegator old new =
      let changed = (do
        a ← account_get_account delegator
        let a' = record a { need_smt = a.need_smt +ℤ new -ℤ old }
        e ← write accounts (p.gorm.save (has_address a'.address) (to_serialization a'))
        if is_error e then panic else pure tt) in
      if eqb_ℤ old new then pure tt else changed

  -- `if err != nil { return }`
  abbrev pub unless_err : Option Message → M (Option Message) → M (Option Message)
  unless_err none m = m
  unless_err (some e) m = pure (some e)

  -- The body of ReceiveDelegate, within its transaction.
  pub receive_steps : ChannelFor3rd → ℕ → ℤ → M (Option Message)
  receive_steps c delegator last_block_number = do
    let k = build_delegate_key c.channel_identifier delegator
    fee ← append_delegate_punish k c.punishes
    unless_err fee.0 (do
      e ← append_delegate_announce_dispose k c.annouce_disposed
      unless_err e (do
        r ← update_delegate c delegator last_block_number fee.1
        unless_err r.0 (do update_account_smt delegator r.1.1 (need_smt r.1.0); pure none)))

  pub receive_delegate : ChannelFor3rd → ℕ → M (Option Message)
  unfolding receive_steps
  receive_delegate c delegator = do
    last_block_number ← get_latest_block_number
    in_tx is_error (receive_steps c delegator last_block_number)
