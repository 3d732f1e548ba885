-- ===== src/Models/Delegate/Fees.antt =====
-- The key of a delegate, and its fee.
use photon_monitoring.Base.{
  ℕ, ◌^◌, ◌<◌, ℤ, pos, ◌≡◌, refl, ap, ◌∙◌, some, List, arith, int_laws, ltb_ℤ, ◌+ℤ◌, ◌*ℤ◌, length,
  if◌then◌else◌,
}
use photon_monitoring.Platform.{Platform, settings}
use photon_monitoring.Utils.{big_int_to_string}
use photon_monitoring.Utils.RoundTrip.{string_to_big_int-big_int_to_string}
use photon_monitoring.World.{World}
use photon_monitoring.World.Total.{Returns}
use photon_monitoring.Models.Rows.{
  Delegate, DelegateUpdateBalanceProof, DelegateUnlock, DelegateSecret,
}
use photon_monitoring.Models.Delegate.{build_delegate_key, calc_need_smt, need_smt, fees}
use photon_monitoring.Models.Delegate.Saving.{update_balance_proof-has, unlocks-has, secrets-has}

-- The keys of two delegators, of addresses of 20 bytes, are the same only if they are the same
-- delegator in the same channel.
pub build_delegate_key-injective :
    (c c' a a' : ℕ)
    → a < 2 ^ 160
    → a' < 2 ^ 160
    → build_delegate_key c a ≡ build_delegate_key c' a'
    → (c ≡ c') × (a ≡ a')
unfolding build_delegate_key
build_delegate_key-injective c c' a a' h h' e = (omega arith, omega arith)

module _ ⦃p : Platform⦄ where
  update_fee :
      (proof : DelegateUpdateBalanceProof)
      → (if ltb_ℤ (pos 0) proof.nonce then pos 0 +ℤ settings.smt_update_transfer else pos 0)
        ≡ (if ltb_ℤ (pos 0) proof.nonce then settings.smt_update_transfer else pos 0)
  update_fee proof = ap (λ x. if ltb_ℤ (pos 0) proof.nonce then x else pos 0) (grind int_laws)

  -- CalcNeedSMT, on a delegate that has its three columns, returns it with a text from which
  -- NeedSMT reads one fee for the balance proof if there is one, a fee for each lock and each
  -- secret, and what is asked for the punishes; the rest of it is as it was.
  pub need_smt-calc_need_smt :
      (smt4_punish : ℤ) (d : Delegate) (proof : DelegateUpdateBalanceProof)
      (locks : List DelegateUnlock) (keys : List DelegateSecret) (w : World)
      → d.update_balance_proof_gob ≡ some proof
      → d.unlocks_gob ≡ some locks
      → d.secrets_gob ≡ some keys
      → Returns (calc_need_smt smt4_punish d) w (λ d' v.
        (v ≡ w)
        × (d' ≡ record d { need_smt_str = d'.need_smt_str })
        × (need_smt d'
            ≡ (if ltb_ℤ (pos 0) proof.nonce then settings.smt_update_transfer else pos 0)
              +ℤ pos (length locks) *ℤ settings.smt_unlock
              +ℤ pos (length keys) *ℤ settings.smt_secret
              +ℤ smt4_punish))
  unfolding calc_need_smt fees need_smt
  need_smt-calc_need_smt smt4_punish d proof locks keys w e e' e'' =
      let text = big_int_to_string (some (fees proof locks keys smt4_punish)) in
      (
        record d { need_smt_str = text },
        w,
        rw
            (
              update_balance_proof-has d proof w e,
              unlocks-has d locks w e',
              secrets-has d keys w e'',
            )
            refl,
        (
          refl,
          refl,
          string_to_big_int-big_int_to_string (fees proof locks keys smt4_punish)
              ∙ ap
                  (λ x.
                    x
                    +ℤ pos (length locks) *ℤ settings.smt_unlock
                    +ℤ pos (length keys) *ℤ settings.smt_secret
                    +ℤ smt4_punish)
                  (update_fee proof),
        ),
      )
