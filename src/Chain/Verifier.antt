-- ===== src/Chain/Verifier.antt =====
-- chainservice/verifier.go: VerifyDelegate, which says whether a request is taken in.
pub mod Frame
pub mod Accepted
pub mod Unread
use photon_monitoring.Base.{
  ℕ, ℤ, pos, Bool, true, false, not, ◌||◌, Option, none, some, List, [], ◌∷◌, Text, ◌==◌, ltb_ℤ,
  eqb_ℤ, if◌then◌else◌,
}
use photon_monitoring.Platform.{Platform, ChannelInfo, Reply, reply, reply_err}
use photon_monitoring.World.{World, M, Outcome, ret, ◌>>=◌, pure, outer}
use photon_monitoring.Models.Rows.{
  Message, call_err, channel_info_err, open_block_not_match, empty_delegate_err,
}
use photon_monitoring.Models.Dto.{ChannelFor3rd, set_settle_block_number}
use photon_monitoring.Models.Monitor.{wrap64}
use photon_monitoring.Chain.Signatures.{
  check, verify_update_transfer, verify_punishes, verify_annouce_disposed, verify_secrets,
}

abbrev is_empty {ℓ} : {A : Type ℓ} → List A → Bool
is_empty [] = true
is_empty (x ∷ xs) = false

-- Not `haveValidData`.
pub is_empty_delegate : ChannelFor3rd → Bool
is_empty_delegate c =
    if ltb_ℤ (pos 0) c.update_transfer.nonce
    then false
    else if not (is_empty c.punishes)
    then false
    else if not (is_empty c.annouce_disposed)
    then false
    else is_empty c.secrets

module _ ⦃p : Platform⦄ where
  -- VerifyDelegate from its test of the nonce on.
  pub verify_parts : ChannelFor3rd → ℕ → Outcome (Option Message)
  unfolding is_empty_delegate
  verify_parts c delegator =
      check
        (if ltb_ℤ (pos 0) c.update_transfer.nonce
          then verify_update_transfer c delegator
          else ret none)
        (check (verify_punishes c c.punishes) (
          check (ret (verify_annouce_disposed c.annouce_disposed)) (
            check (ret (verify_secrets c.secrets))
              (ret (if is_empty_delegate c then some empty_delegate_err else none)))))

  abbrev lift : {A : Type 0} → Outcome A → M A
  lift r w = (r, w)

  abbrev accept : ChannelFor3rd → ℤ → Option Message → M (Option Message × ChannelFor3rd)
  accept c settle none = pure (none, set_settle_block_number c settle)
  accept c settle (some e) = pure (some e, c)

  on_channel : ChannelFor3rd → ℕ → Reply ChannelInfo → M (Option Message × ChannelFor3rd)
  unfolding verify_parts
  on_channel c delegator (reply_err e) = pure (some (channel_info_err e), c)
  on_channel c delegator (reply i) =
      if i.open_block_number == 0
        || not (eqb_ℤ c.open_block_number (wrap64 (pos i.open_block_number)))
      then pure (some (open_block_not_match i.open_block_number c.open_block_number), c)
      else (do e ← lift (verify_parts c delegator); accept c (wrap64 (pos i.settle_block_number)) e)

  on_network : ChannelFor3rd → ℕ → Option Text → M (Option Message × ChannelFor3rd)
  unfolding on_channel
  on_network c delegator (some e) = pure (some (call_err e), c)
  on_network c delegator none = do
    r ← outer (p.channel_info c.token_address c.channel_identifier)
    on_channel c delegator r

  -- The error, and the request as the call leaves it.
  pub verify_delegate : ChannelFor3rd → ℕ → M (Option Message × ChannelFor3rd)
  unfolding on_network
  verify_delegate c delegator = do
    e ← outer (p.token_network c.token_address)
    on_network c delegator e
