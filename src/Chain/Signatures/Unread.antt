-- ===== src/Chain/Signatures/Unread.antt =====
-- The checks of punishes do not read the unlocks of the request, and no check reads the Merkle proof
-- of an unlock.
use photon_monitoring.Base.{ℕ, ◌≡◌, refl, Option, none, some, List, [], ◌∷◌, Text, if◌then◌else◌}
use photon_monitoring.Platform.{Platform}
use photon_monitoring.World.{ret}
use photon_monitoring.Models.Rows.{non_closing_err}
use photon_monitoring.Models.Dto.{ChannelFor3rd, Unlock, Punish}
use photon_monitoring.Chain.Messages.{
  punish_message, unlock_message, closing_message, non_closing_message,
}
use photon_monitoring.Chain.Signatures.{
  check, verify_punish, verify_punishes, verify_lock, verify_unlock, verify_unlocks,
  verify_closing_signature, verify_closing, verify_non_closing_signature, verify_update_transfer,
  ◌>>=◌,
}

abbrev pub with_unlocks : List (Option Unlock) → ChannelFor3rd → ChannelFor3rd
with_unlocks us c = record c { unlocks = us }

module _ ⦃p : Platform⦄ (us : List (Option Unlock)) (c : ChannelFor3rd) where
  verify_punish-with_unlocks :
      (x : Punish) → verify_punish (with_unlocks us c) x ≡ verify_punish c x
  unfolding verify_punish punish_message
  verify_punish-with_unlocks x = refl

  pub verify_punishes-with_unlocks :
      (xs : List (Option Punish)) → verify_punishes (with_unlocks us c) xs ≡ verify_punishes c xs
  unfolding verify_punishes
  verify_punishes-with_unlocks [] = refl
  verify_punishes-with_unlocks (none ∷ xs) = refl
  verify_punishes-with_unlocks (some x ∷ xs) =
      λ i. check (verify_punish-with_unlocks x i) (verify_punishes-with_unlocks xs i)

-- The unlocks with other Merkle proofs.
abbrev pub with_proofs : (Unlock → Text) → List (Option Unlock) → List (Option Unlock)
with_proofs f [] = []
with_proofs f (none ∷ us) = none ∷ with_proofs f us
with_proofs f (some u ∷ us) = some (record u { merkle_proof = f u }) ∷ with_proofs f us

abbrev pub reproved : (Unlock → Text) → ChannelFor3rd → ChannelFor3rd
reproved f c = with_unlocks (with_proofs f c.unlocks) c

module _ ⦃p : Platform⦄ (f : Unlock → Text) (c : ChannelFor3rd) (delegator : ℕ) where
  verify_unlock-reproved :
      (u : Unlock)
      → verify_unlock (reproved f c) delegator (record u { merkle_proof = f u })
        ≡ verify_unlock c delegator u
  unfolding verify_unlock verify_lock unlock_message
  verify_unlock-reproved u = refl

  verify_unlocks-reproved :
      (us : List (Option Unlock))
      → verify_unlocks (reproved f c) delegator (with_proofs f us) ≡ verify_unlocks c delegator us
  unfolding verify_unlocks
  verify_unlocks-reproved [] = refl
  verify_unlocks-reproved (none ∷ us) = refl
  verify_unlocks-reproved (some u ∷ us) =
      λ i. check (verify_unlock-reproved u i) (verify_unlocks-reproved us i)

  verify_closing-reproved : verify_closing (reproved f c) delegator ≡ verify_closing c delegator
  unfolding verify_closing verify_closing_signature closing_message
  verify_closing-reproved = refl

  verify_non_closing-reproved :
      verify_non_closing_signature (reproved f c) delegator
      ≡ verify_non_closing_signature c delegator
  unfolding verify_non_closing_signature non_closing_message
  verify_non_closing-reproved = refl

  pub verify_update_transfer-reproved :
      verify_update_transfer (reproved f c) delegator ≡ verify_update_transfer c delegator
  unfolding verify_update_transfer
  verify_update_transfer-reproved = λ i. check (verify_closing-reproved i) (
      verify_non_closing-reproved i >>= λ ok.
      if ok then verify_unlocks-reproved c.unlocks i else ret (some non_closing_err))
