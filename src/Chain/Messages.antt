-- ===== src/Chain/Messages.antt =====
-- chainservice/verifier.go: the bytes that the signatures of a request are about.
pub mod Injective
use photon_monitoring.Base.{ℕ, ℤ, List, [], ◌∷◌, ◌++◌}
use photon_monitoring.Base.Bytes.{big_endian, int64_bytes}
use photon_monitoring.Platform.{Platform}
use photon_monitoring.Models.Dto.{ChannelFor3rd, Lock, Punish}

module _ ⦃p : Platform⦄ where
  -- verifyClosingSignature, with the 32 bytes of the amount and of the chain's ID
  unfoldable pub closing_message : ChannelFor3rd → List ℕ → List ℕ → List ℕ
  closing_message c amount chain =
      p.signature_prefix
      ++ (p.balance_proof_length
          ++ (amount
              ++ (big_endian 32 c.update_transfer.locksroot
                  ++ (int64_bytes c.update_transfer.nonce
                      ++ (big_endian 32 c.update_transfer.extra_hash
                          ++ (big_endian 32 c.channel_identifier
                              ++ (int64_bytes c.open_block_number ++ chain)))))))

  -- verifyNonClosingSignature
  unfoldable pub non_closing_message : ChannelFor3rd → List ℕ → List ℕ → List ℕ
  non_closing_message c amount chain =
      p.signature_prefix
      ++ (p.balance_proof_delegate_length
          ++ (amount
              ++ (big_endian 32 c.update_transfer.locksroot
                  ++ (int64_bytes c.update_transfer.nonce
                      ++ (big_endian 32 c.channel_identifier
                          ++ (int64_bytes c.open_block_number ++ chain))))))

  -- verifyUnlockSignature, with the 32 bytes of the expiration, of the amount and of the chain's ID
  unfoldable pub unlock_message : ChannelFor3rd → Lock → List ℕ → List ℕ → List ℕ → List ℕ
  unlock_message c l expiration amount chain =
      p.signature_prefix
      ++ (p.unlock_delegate_proof_length
          ++ (big_endian 20 p.node_address
              ++ (expiration
                  ++ (amount
                      ++ (big_endian 32 l.lock_secret_hash
                          ++ (big_endian 32 c.channel_identifier
                              ++ (int64_bytes c.open_block_number ++ chain)))))))

  -- verifyPunishSignature
  unfoldable pub punish_message : ChannelFor3rd → Punish → List ℕ → List ℕ
  punish_message c x chain =
      p.signature_prefix
      ++ (p.disposed_proof_length
          ++ (big_endian 32 x.lock_hash
              ++ (big_endian 32 c.channel_identifier
                  ++ (int64_bytes c.open_block_number
                      ++ (chain ++ big_endian 32 x.additional_hash)))))
