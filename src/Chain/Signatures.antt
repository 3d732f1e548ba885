-- ===== src/Chain/Signatures.antt =====
-- chainservice/verifier.go: the checks of the parts of a request. A check returns an error or none,
-- or panics; it neither reads nor writes the state.
pub mod Spec
pub mod Sound
pub mod Complete
pub mod Unread
use photon_monitoring.Base.{
  ℕ, ℤ, pos, Bool, true, false, not, ◌||◌, ◌&&◌, Option, none, some, List, [], ◌∷◌, ◌==◌, leb_ℤ,
  if◌then◌else◌,
}
use photon_monitoring.Platform.{Platform, Reply, reply, reply_err}
use photon_monitoring.World.{Outcome, ret, panicked}
use photon_monitoring.Models.Rows.{
  Message, call_err, nonce_not_positive, participant_err, non_closing_err, lock_err,
  unlock_signature_err, punish_signature_err, annouce_disposed_err, secret_err,
}
use photon_monitoring.Models.Dto.{ChannelFor3rd, Lock, Unlock, Punish, AnnouceDisposed, Secret}
use photon_monitoring.Chain.Messages.{
  closing_message, non_closing_message, unlock_message, punish_message,
}

infixl 5 ◌>>=◌
abbrev pub ◌>>=◌ {ℓ κ} : {A : Type ℓ} {B : Type κ} → Outcome A → (A → Outcome B) → Outcome B
ret a >>= f = f a
panicked >>= f = panicked

-- `if err != nil { return err }`
abbrev pub check : Outcome (Option Message) → Outcome (Option Message) → Outcome (Option Message)
check m k = m >>= λ e. elim e [ none ↦ k | some x ↦ ret (some x) ]

-- A nil pointer, or the bytes of a number that has no 32.
abbrev pub need {ℓ} : {A : Type ℓ} → Option A → Outcome A
need none = panicked
need (some a) = ret a

-- A signer, or the error of its recovery.
abbrev pub on_signer : Reply ℕ → (ℕ → Outcome (Option Message)) → Outcome (Option Message)
on_signer (reply_err e) f = ret (some (call_err e))
on_signer (reply a) f = f a

module _ ⦃p : Platform⦄ where
  abbrev pub recover : List ℕ → List ℕ → Reply ℕ
  recover message signature = p.ecrecover (p.sha3 message) signature

  abbrev pub chain_bytes : Option (List ℕ)
  chain_bytes = p.big_int_to_32_bytes (some p.chain_id)

  -- verifyNonClosingSignature
  verify_non_closing_signature : ChannelFor3rd → ℕ → Outcome Bool
  verify_non_closing_signature c delegator = do
    amount ← need (p.big_int_to_32_bytes c.update_transfer.transfer_amount)
    chain ← need chain_bytes
    ret
        (elim (recover (non_closing_message c amount chain)
          c.update_transfer.non_closing_signature) [
            | reply signer ↦ signer == delegator
            | reply_err e ↦ false
          ])

  -- verifyUnlockSignature and the rest of a round of verifyUnlocks, for a lock with an amount
  verify_lock : ChannelFor3rd → ℕ → Unlock → Lock → ℤ → Outcome (Option Message)
  verify_lock c delegator u l amount = do
    expiration ← need (p.big_int_to_32_bytes (some l.expiration))
    amount ← need (p.big_int_to_32_bytes (some amount))
    chain ← need chain_bytes
    on_signer (recover (unlock_message c l expiration amount chain) u.signature) (λ signer.
        if signer == delegator
        then ret none
        else ret (some (unlock_signature_err signer delegator)))

  -- One round of verifyUnlocks, and the loop.
  verify_unlock : ChannelFor3rd → ℕ → Unlock → Outcome (Option Message)
  unfolding verify_lock
  verify_unlock c delegator u = elim u.lock [
    | none ↦ ret (some lock_err)
    | some l ↦ elim l.amount [
      | none ↦ ret (some lock_err)
      | some amount ↦ verify_lock c delegator u l amount
    ]
  ]

  pub verify_unlocks : ChannelFor3rd → ℕ → List (Option Unlock) → Outcome (Option Message)
  unfolding verify_unlock
  verify_unlocks c delegator [] = ret none
  verify_unlocks c delegator (none ∷ us) = panicked
  verify_unlocks c delegator (some u ∷ us) =
      check (verify_unlock c delegator u) (verify_unlocks c delegator us)

  -- verifyPunishSignature and the rest of a round of verifyPunishes, and the loop
  verify_punish : ChannelFor3rd → Punish → Outcome (Option Message)
  verify_punish c x = do
    chain ← need chain_bytes
    on_signer (recover (punish_message c x chain) x.signature) (λ signer.
        if signer == c.partner_address
        then ret none
        else ret (some (punish_signature_err signer c.partner_address)))

  pub verify_punishes : ChannelFor3rd → List (Option Punish) → Outcome (Option Message)
  unfolding verify_punish
  verify_punishes c [] = ret none
  verify_punishes c (none ∷ xs) = panicked
  verify_punishes c (some x ∷ xs) = check (verify_punish c x) (verify_punishes c xs)

  -- verifyClosingSignature, and what VerifyDelegate asks of the signer
  verify_closing_signature : ChannelFor3rd → Outcome (Reply ℕ)
  verify_closing_signature c = do
    amount ← need (p.big_int_to_32_bytes c.update_transfer.transfer_amount)
    chain ← need chain_bytes
    ret (recover (closing_message c amount chain) c.update_transfer.closing_signature)

  verify_closing : ChannelFor3rd → ℕ → Outcome (Option Message)
  unfolding verify_closing_signature
  verify_closing c delegator =
      if leb_ℤ c.update_transfer.nonce (pos 0) then ret (some nonce_not_positive) else (do
        r ← verify_closing_signature c
        on_signer r (λ closing.
            if not (closing == c.partner_address) || closing == delegator
            then ret (some (participant_err closing c.partner_address delegator))
            else ret none))

  -- What VerifyDelegate asks of a balance proof.
  pub verify_update_transfer : ChannelFor3rd → ℕ → Outcome (Option Message)
  unfolding verify_closing verify_non_closing_signature verify_unlocks
  verify_update_transfer c delegator = check (verify_closing c delegator) (do
    ok ← verify_non_closing_signature c delegator
    if ok then verify_unlocks c delegator c.unlocks else ret (some non_closing_err))

-- The loops over AnnouceDisposed and Secrets; utils.EmptyHash is 0.
pub verify_annouce_disposed : List (Option AnnouceDisposed) → Option Message
verify_annouce_disposed [] = none
verify_annouce_disposed (none ∷ xs) = some annouce_disposed_err
verify_annouce_disposed (some x ∷ xs) =
    if x.lock_secret_hash == 0 then some annouce_disposed_err else verify_annouce_disposed xs

pub verify_secrets : List (Option Secret) → Option Message
verify_secrets [] = none
verify_secrets (none ∷ xs) = some secret_err
verify_secrets (some x ∷ xs) = if x.secret == 0 then some secret_err else verify_secrets xs
