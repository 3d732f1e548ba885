-- ===== src/Chain/Secrets/Outcomes.antt =====
-- How one secret of a delegate can end.
use photon_monitoring.Base.{ℤ, ◌≡◌, true, false, none, some, Option, ltb_ℤ, find?}
use photon_monitoring.Platform.{Platform}
use photon_monitoring.World.{World}
use photon_monitoring.Models.Rows.{Delegate, DelegateSecret, DelegateExecuteRecord, Message}
use photon_monitoring.Models.Account.Fee.{spent, returned, IsPayable, IsRefused}
use photon_monitoring.Models.Account.Rules.{account_of, OnlyAccount}
use photon_monitoring.Models.Record.{registers}
use photon_monitoring.Chain.Execute.Answer.{registering}

module _ ⦃p : Platform⦄ where
  -- The record of a registration of the secret that has succeeded.
  abbrev pub registration : DelegateSecret → World → Option DelegateExecuteRecord
  registration s w =
      find? (registers (p.hash_text (p.text_hash s.secret))) (p.gorm.rows w.db.records)

-- How the secret `s` of `d` ends, from `w` in `v`, when `last` is the last block.
pub data Registered ⦃p : Platform⦄ (last : ℤ) (d : Delegate) (s : DelegateSecret) (fee : ℤ)
    (w v : World) : Type 0 where
  -- it is not due, and nothing changes
  not_due : ltb_ℤ last s.register_block ≡ true → v ≡ w → Registered last d s fee w v
  -- it is due and was registered before, and nothing changes
  already :
      (r : DelegateExecuteRecord)
      → ltb_ℤ last s.register_block ≡ false
      → registration s w ≡ some r
      → v ≡ w
      → Registered last d s fee w v
  -- it is due and new; the fee is not available, or not needed, and nothing changes
  unpaid :
      (e : Message)
      → ltb_ℤ last s.register_block ≡ false
      → registration s w ≡ none
      → IsRefused fee (account_of w (p.text_address d.delegator_address_str)) e
      → v ≡ w
      → Registered last d s fee w v
  -- it is due and new, and the fee was there; the chain answers the registration with a success:
  -- the fee is used
  registered :
      ltb_ℤ last s.register_block ≡ false
      → registration s w ≡ none
      → IsPayable fee (account_of w (p.text_address d.delegator_address_str))
      → (registering s w.outside).0 ≡ true
      → OnlyAccount w
          (p.text_address d.delegator_address_str)
          (spent fee (account_of w (p.text_address d.delegator_address_str)))
          v
      → Registered last d s fee w v
  -- it is due and new, and the fee was there; the chain does not: the fee is given back
  not_registered :
      ltb_ℤ last s.register_block ≡ false
      → registration s w ≡ none
      → IsPayable fee (account_of w (p.text_address d.delegator_address_str))
      → (registering s w.outside).0 ≡ false
      → OnlyAccount w
          (p.text_address d.delegator_address_str)
          (returned fee (account_of w (p.text_address d.delegator_address_str)))
          v
      → Registered last d s fee w v
