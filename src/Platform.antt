-- ===== src/Platform.antt =====
-- What the core calls and does not implement, as one parameter of the model: the database layer,
-- the clock and the random source, the Ethereum client and the contracts, and the hexadecimal forms
-- of go-ethereum. `Outside` is the state of all that.
use photon_monitoring.Base.{ℕ, ℤ, Bool, Option, List, Text}
use photon_monitoring.Orm.{Gorm}
use photon_monitoring.Params.{Params}

-- A contract call that the service signs: what it passes to the contract binding.
pub data Tx : Type 0 where
  register_secret : ℕ → Tx
  update_balance_proof_delegate :
      (token partner participant : ℕ) (amount : ℤ) (locksroot : ℕ) (nonce : ℕ) (extra_hash : ℕ)
      (closing_signature non_closing_signature : List ℕ)
      → Tx
  unlock_delegate :
      (token partner participant : ℕ) (amount expiration lock_amount : ℤ) (lock_secret_hash : ℕ)
      (merkle_proof signature : List ℕ)
      → Tx
  punish_obsolete_unlock :
      (token beneficiary cheater lock_hash additional_hash : ℕ) (signature : List ℕ) → Tx

-- A Go result of a value and an error.
pub data Reply {ℓ} (A : Type ℓ) : Type ℓ where
  reply : A → Reply A
  reply_err : Text → Reply A

-- GetChannelInfoByChannelIdentifier: settleBlockNumber and openBlockNumber, which are uint64.
pub record ChannelInfo : Type 0 where
  pub settle_block_number : ℕ
  pub open_block_number : ℕ

pub record Platform : Type 1 where
  pub gorm : Gorm
  pub params : Params
  pub Outside : Type 0
  pub now : Outside → ℤ × Outside
  pub random_address : Outside → ℕ × Outside
  -- bcs.TokenNetwork(token)
  pub token_network : ℕ → Outside → Option Text × Outside
  pub channel_info : ℕ → ℕ → Outside → Reply ChannelInfo × Outside
  -- the contract binding makes and sends the transaction: its hash, or an error
  pub send : Tx → Outside → Reply ℕ × Outside
  -- bind.WaitMined: whether the receipt's status is successful, or an error
  pub wait_mined : ℕ → Outside → Reply Bool × Outside
  pub hash_text : ℕ → Text
  pub text_hash : Text → ℕ
  pub address_text : ℕ → Text
  pub text_address : Text → ℕ
  -- utils.Sha3 and utils.Ecrecover of Photon
  pub sha3 : List ℕ → ℕ
  pub ecrecover : ℕ → List ℕ → Reply ℕ
  -- utils.BigIntTo32Bytes of Photon: `none` where it panics, as on nil
  pub big_int_to_32_bytes : Option ℤ → Option (List ℕ)
  -- params.ChainID of Photon, and the address of this node
  pub chain_id : ℤ
  pub node_address : ℕ
  -- ContractSignaturePrefix of Photon, and the texts of the lengths of its four messages:
  -- ContractBalanceProofMessageLength, ContractBalanceProofDelegateMessageLength,
  -- ContractUnlockDelegateProofMessageLength, ContractDisposedProofMessageLength
  pub signature_prefix : List ℕ
  pub balance_proof_length : List ℕ
  pub balance_proof_delegate_length : List ℕ
  pub unlock_delegate_proof_length : List ℕ
  pub disposed_proof_length : List ℕ

module _ ⦃p : Platform⦄ where
  abbrev pub settings : Params
  settings = p.params
