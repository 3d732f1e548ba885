-- ===== src/Chain/Signatures/Spec.antt =====
-- What a request has to be for its checks to pass, said of its parts.
use photon_monitoring.Base.{
  ℕ, ℤ, pos, ◌≡◌, ◌≢◌, ◌⊎◌, Option, none, some, List, [], ◌∷◌, ltb_ℤ, true,
}
use photon_monitoring.Platform.{Platform, reply}
use photon_monitoring.Models.Dto.{ChannelFor3rd, Lock, Unlock, Punish}
use photon_monitoring.Chain.Messages.{
  closing_message, non_closing_message, unlock_message, punish_message,
}
use photon_monitoring.Chain.Signatures.{recover, chain_bytes}

-- No pointer is nil, and what it points to has a property.
abbrev pub Each : {A : Type 0} → (A → Type 0) → List (Option A) → Type 0
Each P [] = Unit {0}
Each P (none ∷ xs) = ⊥
Each P (some x ∷ xs) = P x × Each P xs

module _ ⦃p : Platform⦄ where
  -- The signature recovers to `who`, on the message's hash.
  abbrev pub SignedBy : ℕ → List ℕ → List ℕ → Type 0
  SignedBy who message signature = recover message signature ≡ reply who

  -- The partner has signed the balance proof, and is not the delegator, who has signed it over.
  pub record ProofSigned (c : ChannelFor3rd) (delegator : ℕ) : Type 0 where
    pub amount : List ℕ
    pub chain : List ℕ
    pub amount_bytes : p.big_int_to_32_bytes c.update_transfer.transfer_amount ≡ some amount
    pub chain_id_bytes : chain_bytes ≡ some chain
    pub closing :
        SignedBy c.partner_address
          (closing_message c amount chain)
          c.update_transfer.closing_signature
    pub other : c.partner_address ≢ delegator
    pub non_closing :
        SignedBy delegator
          (non_closing_message c amount chain)
          c.update_transfer.non_closing_signature

  -- An unlock has a lock with an amount, and the delegator has signed it.
  pub record UnlockSigned (c : ChannelFor3rd) (delegator : ℕ) (u : Unlock) : Type 0 where
    pub lock : Lock
    pub value : ℤ
    pub expiration : List ℕ
    pub amount : List ℕ
    pub chain : List ℕ
    pub has_lock : u.lock ≡ some lock
    pub has_amount : lock.amount ≡ some value
    pub expiration_bytes : p.big_int_to_32_bytes (some lock.expiration) ≡ some expiration
    pub amount_bytes : p.big_int_to_32_bytes (some value) ≡ some amount
    pub chain_id_bytes : chain_bytes ≡ some chain
    pub signed : SignedBy delegator (unlock_message c lock expiration amount chain) u.signature

  -- The partner has signed that it gives the lock up.
  pub record PunishSigned (c : ChannelFor3rd) (x : Punish) : Type 0 where
    pub chain : List ℕ
    pub chain_id_bytes : chain_bytes ≡ some chain
    pub signed : SignedBy c.partner_address (punish_message c x chain) x.signature

  -- A part of the request that is not empty.
  abbrev pub HasParts : ChannelFor3rd → Type 0
  HasParts c =
      (ltb_ℤ (pos 0) c.update_transfer.nonce ≡ true)
      ⊎ (c.punishes ≢ [])
      ⊎ (c.annouce_disposed ≢ [])
      ⊎ (c.secrets ≢ [])

  pub record IsAcceptable (c : ChannelFor3rd) (delegator : ℕ) : Type 0 where
    pub proof : ltb_ℤ (pos 0) c.update_transfer.nonce ≡ true → ProofSigned c delegator
    pub unlocks :
        ltb_ℤ (pos 0) c.update_transfer.nonce ≡ true
        → Each (λ u. UnlockSigned c delegator u) c.unlocks
    pub punishes : Each (λ x. PunishSigned c x) c.punishes
    pub disposes : Each (λ x. x.lock_secret_hash ≢ 0) c.annouce_disposed
    pub secrets : Each (λ x. x.secret ≢ 0) c.secrets
    pub not_empty : HasParts c
