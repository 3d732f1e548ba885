-- ===== src/Chain/BalanceProof/Outcomes.antt =====
-- How an update of a balance proof can end.
use photon_monitoring.Base.{ℤ, pos, ◌≡◌, ◌≤ℤ◌, ◌+ℤ◌, true, false, upsert}
use photon_monitoring.Platform.{Platform}
use photon_monitoring.World.{World}
use photon_monitoring.Models.Rows.{Delegate, DelegateUpdateBalanceProof, Message, smt_not_enough}
use photon_monitoring.Models.Account.Fee.{spent, returned, IsPayable, IsRefused}
use photon_monitoring.Models.Account.Rules.{account_of, OnlyAccount}
use photon_monitoring.Models.Delegate.{has_key}
use photon_monitoring.Chain.Execute.{update_tx}
use photon_monitoring.Chain.Execute.Answer.{called}
use photon_monitoring.Chain.BalanceProof.{failed_with}

infix 50 ◌<ℤ◌
abbrev pub ◌<ℤ◌ : ℤ → ℤ → Type 0
a <ℤ b = a +ℤ pos 1 ≤ℤ b

-- How an update of the balance proof `du` ends, from `w` in `v`, with the delegate `d'` in memory.
pub data Updated ⦃p : Platform⦄ (d : Delegate) (du : DelegateUpdateBalanceProof) (fee : ℤ)
    (w : World) (d' : Delegate) (v : World) : Type 0 where
  -- there is no balance proof, and nothing changes
  without_proof : du.nonce ≤ℤ pos 0 → d' ≡ d → v ≡ w → Updated d du fee w d' v
  -- the fee is not available, or not needed: no account changes, and the delegate has failed
  unpaid :
      (e : Message)
      → pos 0 <ℤ du.nonce
      → IsRefused fee (account_of w (p.text_address d.delegator_address_str)) e
      → d' ≡ failed_with (smt_not_enough e) d
      → v.db.accounts ≡ w.db.accounts
      → p.gorm.rows v.db.delegates
        ≡ upsert (has_key d.key) (failed_with (smt_not_enough e) d) (p.gorm.rows w.db.delegates)
      → Updated d du fee w d' v
  -- the fee was there, and the chain answers the transaction of the proof with a success: the fee
  -- is used, and the delegate is as it was
  succeeded :
      pos 0 <ℤ du.nonce
      → IsPayable fee (account_of w (p.text_address d.delegator_address_str))
      → (called d (update_tx d du) w.outside).0 ≡ true
      → d' ≡ d
      → OnlyAccount w
          (p.text_address d.delegator_address_str)
          (spent fee (account_of w (p.text_address d.delegator_address_str)))
          v
      → p.gorm.rows v.db.delegates ≡ p.gorm.rows w.db.delegates
      → Updated d du fee w d' v
  -- the fee was there, and the chain does not: the fee is given back, and the delegate has failed
  failed_by :
      (e : Message)
      → pos 0 <ℤ du.nonce
      → IsPayable fee (account_of w (p.text_address d.delegator_address_str))
      → (called d (update_tx d du) w.outside).0 ≡ false
      → d' ≡ failed_with e d
      → OnlyAccount w
          (p.text_address d.delegator_address_str)
          (returned fee (account_of w (p.text_address d.delegator_address_str)))
          v
      → p.gorm.rows v.db.delegates
        ≡ upsert (has_key d.key) (failed_with e d) (p.gorm.rows w.db.delegates)
      → Updated d du fee w d' v
