-- ===== src/Chain/Unlocks/Frame.antt =====
-- The loop of doDelegateUnlocks writes the accounts and the records alone.
use photon_monitoring.Base.{ℕ, ℤ, List, [], ◌∷◌, Option, Text}
use photon_monitoring.Platform.{Platform}
use photon_monitoring.World.{World, ◌>>=◌, outer, write, records, accounts}
use photon_monitoring.World.Frame.{Keeps, Keeps-bind, keeps_rules}
use photon_monitoring.Models.Rows.{
  Delegate, DelegateUnlock, DelegateAnnounceDispose, DelegateExecuteRecord, AccountSerialization,
}
use photon_monitoring.Models.Account.Frame.{account_unlock_smt-Keeps, account_use_smt-Keeps}
use photon_monitoring.Chain.Execute.{do_unlock}
use photon_monitoring.Chain.Execute.Frame.{do_unlock-Keeps}
use photon_monitoring.Chain.Unlocks.{Tally, settle_unlock, unlock_each}

module _ ⦃p : Platform⦄ {B : Type 0} {f : World → B}
    (ko : (A : Type 0) (h : p.Outside → A × p.Outside) → Keeps f (outer h))
    (kr : (g : p.gorm.Table DelegateExecuteRecord
        → Option Text × p.gorm.Table DelegateExecuteRecord)
      → Keeps f (write records g))
    (ka : (h : p.gorm.Table AccountSerialization → Option Text × p.gorm.Table AccountSerialization)
      → Keeps f (write accounts h)) where
  settle_unlock-Keeps :
      (a : ℕ) (t : Tally) (r : DelegateExecuteRecord) → Keeps f (settle_unlock a t r)
  unfolding settle_unlock
  settle_unlock-Keeps a t r =
      search (keeps_rules, account_use_smt-Keeps ka, account_unlock_smt-Keeps ka)

  pub unlock_each-Keeps :
      (d : Delegate) (x : ℤ) (das : List DelegateAnnounceDispose) (t : Tally)
      (dus : List DelegateUnlock)
      → Keeps f (unlock_each d x das t dus)
  unfolding unlock_each
  unlock_each-Keeps d x das t [] = search keeps_rules
  unlock_each-Keeps d x das t (du ∷ dus) =
      let settle =
        λ (r : DelegateExecuteRecord). settle_unlock (p.text_address d.delegator_address_str) t r in
      Keeps-bind (do_unlock d du x das) (λ r. settle r >>= λ t'. unlock_each d x das t' dus)
        (do_unlock-Keeps ko kr d du x das)
        (λ r.
          Keeps-bind (settle r) (λ t'. unlock_each d x das t' dus)
            (settle_unlock-Keeps (p.text_address d.delegator_address_str) t r)
            (λ t'. unlock_each-Keeps d x das t' dus))
