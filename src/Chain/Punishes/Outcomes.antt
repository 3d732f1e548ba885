-- ===== src/Chain/Punishes/Outcomes.antt =====
-- How the punishes of a delegate can end.
use photon_monitoring.Base.{ℤ, ◌≡◌, true, false, List, [], ◌==◌, upsert, select}
use photon_monitoring.Platform.{Platform}
use photon_monitoring.World.{World}
use photon_monitoring.Models.Rows.{
  Delegate, DelegatePunish, Message, smt_not_enough, punish_all_failed,
}
use photon_monitoring.Models.Account.Fee.{spent, returned, IsPayable, IsRefused}
use photon_monitoring.Models.Account.Rules.{account_of, OnlyAccount}
use photon_monitoring.Models.Delegate.{has_key}
use photon_monitoring.Chain.BalanceProof.{failed_with}
use photon_monitoring.Chain.Punishes.Answers.{some_punished}

module _ ⦃p : Platform⦄ where
  -- The punishes of a delegate, as the table has them.
  abbrev pub punishes_of : Delegate → World → List DelegatePunish
  punishes_of d w = select (λ x. x.delegate_key == d.key) (p.gorm.rows w.db.punishes)

-- How the punishes of `d` end, from `w` in `v`.
pub data Punished ⦃p : Platform⦄ (d : Delegate) (fee : ℤ) (w v : World) : Type 0 where
  -- there are none, and nothing changes
  without_punishes : punishes_of d w ≡ [] → v ≡ w → Punished d fee w v
  -- there are some, and the fee is not available, or not needed: no account changes, and the
  -- delegate has failed
  unpaid :
      (e : Message)
      → ¬ (punishes_of d w ≡ [])
      → IsRefused fee (account_of w (p.text_address d.delegator_address_str)) e
      → v.db.accounts ≡ w.db.accounts
      → p.gorm.rows v.db.delegates
        ≡ upsert (has_key d.key) (failed_with (smt_not_enough e) d) (p.gorm.rows w.db.delegates)
      → Punished d fee w v
  -- the fee was there, and the chain answers one with a success: one fee is used, and the delegate
  -- is as it was
  punished :
      IsPayable fee (account_of w (p.text_address d.delegator_address_str))
      → some_punished d (punishes_of d w) w.outside ≡ true
      → OnlyAccount w
          (p.text_address d.delegator_address_str)
          (spent fee (account_of w (p.text_address d.delegator_address_str)))
          v
      → p.gorm.rows v.db.delegates ≡ p.gorm.rows w.db.delegates
      → Punished d fee w v
  -- there are some and the fee was there, and the chain answers none with a success: the fee is
  -- given back, and the delegate has failed
  all_failed :
      ¬ (punishes_of d w ≡ [])
      → IsPayable fee (account_of w (p.text_address d.delegator_address_str))
      → some_punished d (punishes_of d w) w.outside ≡ false
      → OnlyAccount w
          (p.text_address d.delegator_address_str)
          (returned fee (account_of w (p.text_address d.delegator_address_str)))
          v
      → p.gorm.rows v.db.delegates
        ≡ upsert (has_key d.key) (failed_with punish_all_failed d) (p.gorm.rows w.db.delegates)
      → Punished d fee w v
