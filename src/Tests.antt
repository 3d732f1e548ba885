-- ===== src/Tests.antt =====
-- A platform to run the model on, and sample data: the database is in memory, the chain accepts
-- the transactions at even times, and the texts of hashes and addresses are their one number.
pub mod Accounts
pub mod Requests
pub mod Deposits
pub mod Blocks
pub mod Verified
pub mod Whole
pub mod Started
use photon_monitoring.Base.{
  ℕ, suc, ◌+◌, ◌%◌, ℤ, pos, Bool, true, false, none, some, Option, List, [], ◌∷◌, Text, ◌==◌, abs,
  ltb, ◌^◌, if◌then◌else◌,
}
use photon_monitoring.Base.Bytes.{big_endian}
use photon_monitoring.Orm.Memory.{memory}
use photon_monitoring.Params.{Params}
use photon_monitoring.Platform.{Platform, Tx, Reply, reply, reply_err, ChannelInfo}
use photon_monitoring.World.{World, Db}
use photon_monitoring.Models.Rows.{
  AccountSerialization, Delegate, DelegatePunish, DelegateUpdateBalanceProof, DelegateUnlock,
  DelegateSecret, init, empty_text,
}

abbrev pub test_params : Params
test_params = record {
  smt_unlock = pos 3;
  smt_update_transfer = pos 5;
  smt_punish = pos 4;
  smt_secret = pos 2;
  smt_address = 1;
  debug_mode = false;
  reveal_timeout = pos 10;
}

abbrev one_number : Text → ℕ
one_number [] = 0
one_number (n ∷ _) = n

-- A signature is the address of its signer.
abbrev recovered : List ℕ → Reply ℕ
recovered [] = reply_err []
recovered (a ∷ _) = reply a

-- The 32 bytes of a number of at most 32 bytes; more, and nil, panic.
abbrev pub to_32_bytes : Option ℤ → Option (List ℕ)
to_32_bytes none = none
to_32_bytes (some x) = if ltb (abs x) (2 ^ 256) then some (big_endian 32 (abs x)) else none

-- The state outside is a clock.
instance abbrev pub test_platform : Platform
test_platform = record {
  gorm = memory;
  params = test_params;
  Outside = ℕ;
  now = λ t. (pos t, suc t);
  random_address = λ t. (t, suc t);
  token_network = λ token t. (none, suc t);
  channel_info = λ token channel t.
      (reply (record { settle_block_number = 90; open_block_number = 1 }), suc t);
  send = λ tx t. (reply t, suc t);
  wait_mined = λ hash t. (reply (hash % 2 == 0), suc t);
  hash_text = λ h. h ∷ [];
  text_hash = one_number;
  address_text = λ a. a ∷ [];
  text_address = one_number;
  sha3 = one_number;
  ecrecover = λ hash signature. recovered signature;
  big_int_to_32_bytes = to_32_bytes;
  chain_id = pos 8888;
  node_address = 9;
  signature_prefix = 25 ∷ [];
  balance_proof_length = 176 ∷ [];
  balance_proof_delegate_length = 144 ∷ [];
  unlock_delegate_proof_length = 188 ∷ [];
  disposed_proof_length = 136 ∷ [];
}

abbrev pub sample_proof : DelegateUpdateBalanceProof
sample_proof = record {
  nonce = pos 6;
  transfer_amount_str = b'4' ∷ [];
  locksroot_str = 11 ∷ [];
  extra_hash_str = 12 ∷ [];
  closing_signature = [];
  non_closing_signature = [];
}

abbrev pub sample_unlock : DelegateUnlock
sample_unlock = record {
  lock_secret_hash_str = 21 ∷ [];
  amount_str = b'2' ∷ [];
  expiration = pos 80;
  merkle_proof = [];
  signature = [];
}

abbrev pub sample_secret : DelegateSecret
sample_secret = record { secret = 31 ∷ []; register_block = pos 60 }

abbrev pub sample_delegate : Delegate
sample_delegate = record {
  key = 40;
  channel_identifier_str = 2 ∷ [];
  open_block_number = pos 1;
  token_address_str = 3 ∷ [];
  delegator_address_str = 7 ∷ [];
  partner_address_str = 8 ∷ [];
  settle_block_number = pos 90;
  delegate_timestamp = pos 0;
  delegate_block_number = pos 0;
  status = init;
  error = empty_text;
  need_smt_str = [];
  update_balance_proof_gob = some sample_proof;
  unlocks_gob = some (sample_unlock ∷ sample_unlock ∷ []);
  secrets_gob = some (sample_secret ∷ []);
}

abbrev pub sample_punish : DelegatePunish
sample_punish = record {
  lock_hash_str = 51 ∷ [];
  delegate_key = 40;
  additional_hash_str = 52 ∷ [];
  signature = [];
}

abbrev pub sample_account : AccountSerialization
sample_account = record {
  address = 7;
  total_received_smt_bytes = 100;
  used_smt_bytes = 10;
  locked_smt_bytes = 20;
  need_smt_bytes = 30;
}

abbrev pub sample_world : World
sample_world = record {
  db = record {
    delegates = sample_delegate ∷ [];
    punishes = sample_punish ∷ [];
    announce_disposes = [];
    accounts = sample_account ∷ [];
    monitors = [];
    transfers = [];
    last_block_numbers = [];
    records = [];
  };
  outside = 0;
  block_number = some (pos 50);
  jobs = [];
}
