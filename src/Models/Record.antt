-- ===== src/Models/Record.antt =====
-- models/delegate_execute_record.go: one record for each contract call, kept for queries.
pub mod Frame
pub mod Total
use photon_monitoring.Base.{
  ℕ, ℤ, pos, Bool, true, false, ◌&&◌, Option, none, some, [], Text, ⊤, text_eq, if◌then◌else◌,
}
use photon_monitoring.Orm.{Fetch, found, not_found, failed}
use photon_monitoring.Platform.{Platform}
use photon_monitoring.World.{M, World, ◌>>=◌, ◌>>◌, pure, panic, first, write, outer, records}
use photon_monitoring.Models.Rows.{
  Delegate, DelegateExecuteRecord, DelegateType, update_balance_proof_type, unlock_type,
  punish_type, register_secret_type, ExecuteStatus, not_execute, success_executed, error_executed,
  empty_text, GobParams,
}
use photon_monitoring.Models.Delegate.{is_error}

pub is_register_secret : DelegateType → Bool
is_register_secret register_secret_type = true
is_register_secret _ = false

unfoldable pub is_success : ExecuteStatus → Bool
is_success success_executed = true
is_success _ = false

-- The struct condition of HasSecretAlreadyRegister; none of its three fields is blank.
pub registers : Text → DelegateExecuteRecord → Bool
unfolding is_register_secret is_success
registers secret r = is_register_secret r.type && is_success r.status && text_eq r.secret secret

module _ ⦃p : Platform⦄ where
  pub new_delegate_execute_record : Delegate → DelegateType → GobParams → M DelegateExecuteRecord
  new_delegate_execute_record d type params = do
    address ← outer p.random_address
    time ← outer p.now
    pure (record {
      key = p.address_text address;
      channel_identifier_str = d.channel_identifier_str;
      open_block_number = d.open_block_number;
      delegator_str = d.delegator_address_str;
      type = type;
      status = not_execute;
      error = empty_text;
      execute_timestamp = time;
      tx_hash_str = [];
      tx_create_block_number = pos 0;
      tx_create_timestamp = pos 0;
      tx_pack_block_number = pos 0;
      tx_pack_timestamp = pos 0;
      gob_params = params;
      secret = [];
    })

  pub save_delegate_execute_record : DelegateExecuteRecord → M ⊤
  save_delegate_execute_record r = do
    e ← write records (p.gorm.save (λ x. text_eq x.key r.key) r)
    if is_error e then panic else pure tt

  was_found : {A : Type 0} → Fetch A → Bool
  was_found (found a) = true
  was_found not_found = false
  was_found (failed e) = false

  pub has_secret_already_register : ℕ → M Bool
  unfolding was_found
  has_secret_already_register secret = do
    r ← first records (registers (p.hash_text secret))
    pure (was_found r)
