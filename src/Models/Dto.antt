-- ===== src/Models/Dto.antt =====
-- models/dto.go: the request that an app posts. A pointer that the JSON may leave null is an
-- `Option`, an element of a list too. The Tx fields, which the service never reads, are left out.
use photon_monitoring.Base.{ℕ, ℤ, Option, List}

-- mtree.Lock
pub record Lock : Type 0 where
  pub expiration : ℤ
  pub amount : Option ℤ
  pub lock_secret_hash : ℕ

pub record UpdateTransfer : Type 0 where
  pub nonce : ℤ
  pub transfer_amount : Option ℤ
  pub locksroot : ℕ
  pub extra_hash : ℕ
  pub closing_signature : List ℕ
  pub non_closing_signature : List ℕ

pub record Unlock : Type 0 where
  pub lock : Option Lock
  pub merkle_proof : List ℕ
  pub signature : List ℕ

pub record Secret : Type 0 where
  pub secret : ℕ
  pub register_block : ℤ

pub record Punish : Type 0 where
  pub lock_hash : ℕ
  pub additional_hash : ℕ
  pub signature : List ℕ

pub record AnnouceDisposed : Type 0 where
  pub lock_secret_hash : ℕ

pub record ChannelFor3rd : Type 0 where
  pub channel_identifier : ℕ
  pub open_block_number : ℤ
  pub token_address : ℕ
  pub partner_address : ℕ
  pub update_transfer : UpdateTransfer
  pub unlocks : List (Option Unlock)
  pub punishes : List (Option Punish)
  pub annouce_disposed : List (Option AnnouceDisposed)
  pub secrets : List (Option Secret)
  pub settle_block_number : ℤ

unfoldable pub set_settle_block_number : ChannelFor3rd → ℤ → ChannelFor3rd
set_settle_block_number c n = record c { settle_block_number = n }
