-- ===== src/Chain/Signatures/Complete.antt =====
-- A part of the request that is signed as it should be passes its check.
use photon_monitoring.Base.{
  ℕ, pos, ◌≡◌, ◌≢◌, refl, Option, none, some, List, [], ◌∷◌, arith, leb_ℤ, ltb_ℤ, true, false, ◌==◌,
  ap, ◌∙◌,
}
use photon_monitoring.Platform.{Platform}
use photon_monitoring.World.{Outcome, ret}
use photon_monitoring.Models.Rows.{Message}
use photon_monitoring.Models.Dto.{ChannelFor3rd, Unlock, Punish, AnnouceDisposed, Secret}
use photon_monitoring.Chain.Signatures.{
  check, verify_non_closing_signature, verify_lock, verify_unlock, verify_unlocks, verify_punish,
  verify_punishes, verify_closing_signature, verify_closing, verify_update_transfer,
  verify_annouce_disposed, verify_secrets,
}
use photon_monitoring.Chain.Signatures.Spec.{ProofSigned, UnlockSigned, PunishSigned, Each}

==-self : (a : ℕ) → (a == a) ≡ true
==-self a = ground arith

pub check-both :
    (m k : Outcome (Option Message)) → m ≡ ret none → k ≡ ret none → check m k ≡ ret none
check-both m k e h = ap (λ x. check x k) e ∙ h

module _ ⦃p : Platform⦄ where
  verify_unlock_complete :
      (c : ChannelFor3rd) (delegator : ℕ) (u : Unlock)
      → UnlockSigned c delegator u
      → verify_unlock c delegator u ≡ ret none
  unfolding verify_unlock verify_lock
  verify_unlock_complete c delegator u s =
      rw
        (
          s.has_lock,
          s.has_amount,
          s.expiration_bytes,
          s.amount_bytes,
          s.chain_id_bytes,
          s.signed,
          ==-self delegator,
        )
        refl

  pub verify_unlocks_complete :
      (c : ChannelFor3rd) (delegator : ℕ) (us : List (Option Unlock))
      → Each (λ u. UnlockSigned c delegator u) us
      → verify_unlocks c delegator us ≡ ret none
  unfolding verify_unlocks
  verify_unlocks_complete c delegator [] s = refl
  verify_unlocks_complete c delegator (none ∷ us) s = absurd s
  verify_unlocks_complete c delegator (some u ∷ us) s =
      check-both (verify_unlock c delegator u) _ (verify_unlock_complete c delegator u s.0)
        (verify_unlocks_complete c delegator us s.1)

  verify_punish_complete :
      (c : ChannelFor3rd) (x : Punish) → PunishSigned c x → verify_punish c x ≡ ret none
  unfolding verify_punish
  verify_punish_complete c x s = rw (s.chain_id_bytes, s.signed, ==-self c.partner_address) refl

  pub verify_punishes_complete :
      (c : ChannelFor3rd) (xs : List (Option Punish))
      → Each (λ x. PunishSigned c x) xs
      → verify_punishes c xs ≡ ret none
  unfolding verify_punishes
  verify_punishes_complete c [] s = refl
  verify_punishes_complete c (none ∷ xs) s = absurd s
  verify_punishes_complete c (some x ∷ xs) s =
      check-both (verify_punish c x) _ (verify_punish_complete c x s.0)
        (verify_punishes_complete c xs s.1)

  verify_closing_complete :
      (c : ChannelFor3rd) (delegator : ℕ)
      → ltb_ℤ (pos 0) c.update_transfer.nonce ≡ true
      → ProofSigned c delegator
      → verify_closing c delegator ≡ ret none
  unfolding verify_closing verify_closing_signature
  verify_closing_complete c delegator h s =
      let above : leb_ℤ c.update_transfer.nonce (pos 0) ≡ false = ground arith in
      let other : (c.partner_address == delegator) ≡ false = ground (arith, s.other) in
      rw (above, s.amount_bytes, s.chain_id_bytes, s.closing, ==-self c.partner_address, other) refl

  pub verify_update_transfer_complete :
      (c : ChannelFor3rd) (delegator : ℕ)
      → ltb_ℤ (pos 0) c.update_transfer.nonce ≡ true
      → ProofSigned c delegator
      → Each (λ u. UnlockSigned c delegator u) c.unlocks
      → verify_update_transfer c delegator ≡ ret none
  unfolding verify_update_transfer verify_non_closing_signature
  verify_update_transfer_complete c delegator h s us =
      check-both (verify_closing c delegator) _ (verify_closing_complete c delegator h s) (
        rw (s.amount_bytes, s.chain_id_bytes, s.non_closing, ==-self delegator)
          (verify_unlocks_complete c delegator c.unlocks us))

pub verify_annouce_disposed_complete :
    (xs : List (Option AnnouceDisposed))
    → Each (λ x. x.lock_secret_hash ≢ 0) xs
    → verify_annouce_disposed xs ≡ none
unfolding verify_annouce_disposed
verify_annouce_disposed_complete [] s = refl
verify_annouce_disposed_complete (none ∷ xs) s = absurd s
verify_annouce_disposed_complete (some x ∷ xs) s =
    ground (arith, s.0, verify_annouce_disposed_complete xs s.1)

pub verify_secrets_complete :
    (xs : List (Option Secret)) → Each (λ x. x.secret ≢ 0) xs → verify_secrets xs ≡ none
unfolding verify_secrets
verify_secrets_complete [] s = refl
verify_secrets_complete (none ∷ xs) s = absurd s
verify_secrets_complete (some x ∷ xs) s = ground (arith, s.0, verify_secrets_complete xs s.1)
