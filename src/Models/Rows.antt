-- ===== src/Models/Rows.antt =====
-- The rows of the tables that models/db.go migrates: models/delegate*.go, account.go, transfer.go,
-- blocknumber.go. A hash, an address and a byte key are the numbers that their bytes spell; int64
-- and big.Int are integers. A column of gob bytes is the value encoded in it, `none` when empty.
-- The auto-increment IDs of punishes and disposes are the database's and are not modelled.
use photon_monitoring.Base.{ℕ, ℤ, Option, List, Text}

-- The error of a call and the column `Error`: a constructor for each format of a text.
pub data Message : Type 0 where
  empty_text : Message
  db_err : Text → Message
  balance_not_enough : ℤ → ℤ → Message
  need_smt_smaller : ℤ → ℤ → Message
  error_unlock_smt : ℤ → ℤ → Message
  smt_not_enough : Message → Message
  find_delegate_err : Text → Message
  open_block_not_equal : ℤ → ℤ → Message
  only_newer_nonce : ℤ → ℤ → Message
  update_delegate_err : Text → Message
  find_punish_err : Text → Message
  add_punish_err : Text → Message
  find_dispose_err : Text → Message
  add_dispose_err : Text → Message
  delegator_update : Message
  token_network_err : Text → Message
  create_tx_err : Text → Message
  wait_mined_err : Text → Message
  tx_execution_err : Message
  give_up_by_dispose : Message
  already_punish_success : Message
  unlock_partial_success : Message
  unlock_all_failed : Message
  punish_all_failed : Message
  call_err : Text → Message
  channel_info_err : Text → Message
  open_block_not_match : ℕ → ℤ → Message
  nonce_not_positive : Message
  participant_err : (closing partner delegator : ℕ) → Message
  non_closing_err : Message
  lock_err : Message
  unlock_signature_err : (signer delegator : ℕ) → Message
  punish_signature_err : (signer partner : ℕ) → Message
  annouce_disposed_err : Message
  secret_err : Message
  empty_delegate_err : Message
  empty_delegator_err : Message
  arg_err : Message
  query_err : Option Text → Message
  list_err : Text → Message

pub data DelegateStatus : Type 0 where
  init running success_finished partial_success success_finished_by_other : DelegateStatus
  status_failed cooperative_settled withdrawed : DelegateStatus

pub data ExecuteStatus : Type 0 where
  not_execute success_executed error_executed : ExecuteStatus

pub data DelegateType : Type 0 where
  update_balance_proof_type unlock_type punish_type register_secret_type : DelegateType

pub data MonitorType : Type 0 where
  unlock_and_update_balance_proof punish_monitor : MonitorType

pub record DelegateUpdateBalanceProof : Type 0 where
  pub nonce : ℤ
  pub transfer_amount_str : Text
  pub locksroot_str : Text
  pub extra_hash_str : Text
  pub closing_signature : List ℕ
  pub non_closing_signature : List ℕ

pub record DelegateUnlock : Type 0 where
  pub lock_secret_hash_str : Text
  pub amount_str : Text
  pub expiration : ℤ
  pub merkle_proof : List ℕ
  pub signature : List ℕ

pub record DelegateSecret : Type 0 where
  pub secret : Text
  pub register_block : ℤ

pub record Delegate : Type 0 where
  pub key : ℕ
  pub channel_identifier_str : Text
  pub open_block_number : ℤ
  pub token_address_str : Text
  pub delegator_address_str : Text
  pub partner_address_str : Text
  pub settle_block_number : ℤ
  pub delegate_timestamp : ℤ
  pub delegate_block_number : ℤ
  pub status : DelegateStatus
  pub error : Message
  pub need_smt_str : Text
  pub update_balance_proof_gob : Option DelegateUpdateBalanceProof
  pub unlocks_gob : Option (List DelegateUnlock)
  pub secrets_gob : Option (List DelegateSecret)

pub record DelegatePunish : Type 0 where
  pub lock_hash_str : Text
  pub delegate_key : ℕ
  pub additional_hash_str : Text
  pub signature : List ℕ

pub record DelegateAnnounceDispose : Type 0 where
  pub lock_secret_hash_str : Text
  pub delegate_key : ℕ

pub record DelegateMonitor : Type 0 where
  pub key : ℕ
  pub block_number : ℤ
  pub type : MonitorType
  pub delegate_key : ℕ

-- What `GobParams` encodes.
pub data GobParams : Type 0 where
  of_update : DelegateUpdateBalanceProof → GobParams
  of_unlock : DelegateUnlock → GobParams
  of_punish : DelegatePunish → GobParams
  of_secret : DelegateSecret → GobParams

pub record DelegateExecuteRecord : Type 0 where
  pub key : Text
  pub channel_identifier_str : Text
  pub open_block_number : ℤ
  pub delegator_str : Text
  pub type : DelegateType
  pub status : ExecuteStatus
  pub error : Message
  pub execute_timestamp : ℤ
  pub tx_hash_str : Text
  pub tx_create_block_number : ℤ
  pub tx_create_timestamp : ℤ
  pub tx_pack_block_number : ℤ
  pub tx_pack_timestamp : ℤ
  pub gob_params : GobParams
  pub secret : Text

pub record Account : Type 0 where
  pub address : ℕ
  pub total_received_smt : ℤ
  pub used_smt : ℤ
  pub locked_smt : ℤ
  pub need_smt : ℤ

-- `big.Int.Bytes` is the big-endian magnitude: the columns hold the number that it spells.
pub record AccountSerialization : Type 0 where
  pub address : ℕ
  pub total_received_smt_bytes : ℕ
  pub used_smt_bytes : ℕ
  pub locked_smt_bytes : ℕ
  pub need_smt_bytes : ℕ

pub record ReceivedTransfer : Type 0 where
  pub key : Text
  pub block_number : ℤ
  pub channel_identifier_str : Text
  pub open_block_number : ℤ
  pub token_address_str : Text
  pub from_address_str : Text
  pub nonce : ℤ
  pub amount_str : Text

pub record LastBlockNumber : Type 0 where
  pub key : Text
  pub block_number : ℤ
