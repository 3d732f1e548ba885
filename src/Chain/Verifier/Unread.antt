-- ===== src/Chain/Verifier/Unread.antt =====
-- What VerifyDelegate does not read.
use photon_monitoring.Base.{
  ℕ, pos, ◌≡◌, ap, Option, none, some, List, Text, ltb_ℤ, false, if◌then◌else◌,
}
use photon_monitoring.Platform.{Platform}
use photon_monitoring.World.{World, ret}
use photon_monitoring.Models.Rows.{empty_delegate_err}
use photon_monitoring.Models.Dto.{ChannelFor3rd, Unlock, set_settle_block_number}
use photon_monitoring.Chain.Signatures.{check, verify_annouce_disposed, verify_secrets}
use photon_monitoring.Chain.Signatures.Unread.{
  with_unlocks, verify_punishes-with_unlocks, with_proofs, reproved,
  verify_update_transfer-reproved,
}
use photon_monitoring.Chain.Verifier.{is_empty_delegate, verify_parts, verify_delegate}
use photon_monitoring.Chain.Verifier.Accepted.{
  verify_parts_sound, verify_parts_complete, verify_delegate-Accepted,
}

module _ ⦃p : Platform⦄ (us : List (Option Unlock)) (c : ChannelFor3rd) where
  verify_parts-with_unlocks :
      (delegator : ℕ)
      → ltb_ℤ (pos 0) c.update_transfer.nonce ≡ false
      → verify_parts (with_unlocks us c) delegator ≡ verify_parts c delegator
  unfolding verify_parts is_empty_delegate
  verify_parts-with_unlocks delegator h = rw h (λ i.
      check (verify_punishes-with_unlocks us c c.punishes i) (
        check (ret (verify_annouce_disposed c.annouce_disposed)) (
          check (ret (verify_secrets c.secrets))
            (ret (if is_empty_delegate c then some empty_delegate_err else none)))))

  -- The parts of a request with other unlocks, where they are as acceptable.
  Accepted-with_unlocks :
      (delegator : ℕ) (w : World) (c' : ChannelFor3rd) (v : World)
      → verify_parts (with_unlocks us c) delegator ≡ verify_parts c delegator
      → verify_delegate c delegator w ≡ (ret (none, c'), v)
      → verify_delegate (with_unlocks us c) delegator w ≡ (ret (none, with_unlocks us c'), v)
  unfolding set_settle_block_number
  Accepted-with_unlocks delegator w c' v same e =
      let s = (verify_delegate-Accepted c delegator w c' v).0 e in
      (verify_delegate-Accepted (with_unlocks us c) delegator w (with_unlocks us c') v).1 (record {
        info = s.info;
        has_network = s.has_network;
        has_channel = s.has_channel;
        is_open = s.is_open;
        same_opening = s.same_opening;
        parts =
            verify_parts_sound (with_unlocks us c) delegator
              (rw same (verify_parts_complete c delegator s.parts));
        settle = ap (with_unlocks us) s.settle;
        outside_only = s.outside_only;
      })

  -- A request without a balance proof, of nonce 0 or below, that VerifyDelegate accepts is accepted
  -- with any other unlocks as well, unsigned ones and null included.
  pub verify_delegate-unlocks_unread :
      (delegator : ℕ) (w : World) (c' : ChannelFor3rd) (v : World)
      → ltb_ℤ (pos 0) c.update_transfer.nonce ≡ false
      → verify_delegate c delegator w ≡ (ret (none, c'), v)
      → verify_delegate (with_unlocks us c) delegator w ≡ (ret (none, with_unlocks us c'), v)
  verify_delegate-unlocks_unread delegator w c' v h e =
      Accepted-with_unlocks delegator w c' v (verify_parts-with_unlocks delegator h) e

module _ ⦃p : Platform⦄ (f : Unlock → Text) (c : ChannelFor3rd) where
  verify_parts-reproved :
      (delegator : ℕ) → verify_parts (reproved f c) delegator ≡ verify_parts c delegator
  unfolding verify_parts is_empty_delegate
  verify_parts-reproved delegator = λ i.
      check
        (if ltb_ℤ (pos 0) c.update_transfer.nonce
          then verify_update_transfer-reproved f c delegator i
          else ret none)
        (check (verify_punishes-with_unlocks (with_proofs f c.unlocks) c c.punishes i) (
          check (ret (verify_annouce_disposed c.annouce_disposed)) (
            check (ret (verify_secrets c.secrets))
              (ret (if is_empty_delegate c then some empty_delegate_err else none)))))

  -- A request that VerifyDelegate accepts is accepted with any other Merkle proofs in its unlocks:
  -- whether a lock is under the locks root of the balance proof is not checked.
  pub verify_delegate-proofs_unread :
      (delegator : ℕ) (w : World) (c' : ChannelFor3rd) (v : World)
      → verify_delegate c delegator w ≡ (ret (none, c'), v)
      → verify_delegate (reproved f c) delegator w
        ≡ (ret (none, with_unlocks (with_proofs f c.unlocks) c'), v)
  verify_delegate-proofs_unread delegator w c' v e =
      Accepted-with_unlocks (with_proofs f c.unlocks) c delegator w c' v
        (verify_parts-reproved delegator) e
