-- ===== src/Chain/Secrets/Frame.antt =====
-- Registering secrets writes the accounts and the records alone.
use photon_monitoring.Base.{ℕ, ℤ, Option, none, some, List, [], ◌∷◌, Text, Bool}
use photon_monitoring.Platform.{Platform}
use photon_monitoring.World.{World, ◌>>◌, outer, write, records, accounts}
use photon_monitoring.World.Frame.{Keeps, Keeps-bind, Keeps-then, keeps_rules}
use photon_monitoring.Models.Rows.{
  Delegate, DelegateExecuteRecord, DelegateSecret, AccountSerialization, Message,
}
use photon_monitoring.Models.Delegate.{secrets}
use photon_monitoring.Models.Delegate.Frame.{secrets-Keeps, get_all_delegate-Keeps}
use photon_monitoring.Models.Record.Frame.{has_secret-Keeps}
use photon_monitoring.Models.Account.Frame.{
  account_lock_smt-Keeps, account_unlock_smt-Keeps, account_use_smt-Keeps,
}
use photon_monitoring.Chain.Execute.Frame.{do_register_secret-Keeps}
use photon_monitoring.Chain.Secrets.{
  settle_secret, register_locked, register_unless, do_secret, do_secrets, for_delegates,
  do_delegate_secrets,
}

module _ ⦃p : Platform⦄ {B : Type 0} {f : World → B}
    (ko : (A : Type 0) (h : p.Outside → A × p.Outside) → Keeps f (outer h))
    (kr : (g : p.gorm.Table DelegateExecuteRecord
        → Option Text × p.gorm.Table DelegateExecuteRecord)
      → Keeps f (write records g))
    (ka : (h : p.gorm.Table AccountSerialization → Option Text × p.gorm.Table AccountSerialization)
      → Keeps f (write accounts h)) where
  settle_secret-Keeps : (a : ℕ) (r : DelegateExecuteRecord) → Keeps f (settle_secret a r)
  unfolding settle_secret
  settle_secret-Keeps a r =
      search (keeps_rules, account_use_smt-Keeps ka, account_unlock_smt-Keeps ka)

  register_locked-Keeps :
      (d : Delegate) (s : DelegateSecret) (e : Option Message) → Keeps f (register_locked d s e)
  unfolding register_locked
  register_locked-Keeps d s none =
      search (keeps_rules, do_register_secret-Keeps ko kr, settle_secret-Keeps)
  register_locked-Keeps d s (some e) = search keeps_rules

  register_unless-Keeps :
      (d : Delegate) (s : DelegateSecret) (b : Bool) → Keeps f (register_unless d s b)
  unfolding register_unless
  register_unless-Keeps d s b =
      search (keeps_rules, account_lock_smt-Keeps ka, register_locked-Keeps)

  do_secret-Keeps : (n : ℤ) (d : Delegate) (s : DelegateSecret) → Keeps f (do_secret n d s)
  unfolding do_secret
  do_secret-Keeps n d s = search (keeps_rules, has_secret-Keeps, register_unless-Keeps)

  do_secrets-Keeps : (n : ℤ) (d : Delegate) (ss : List DelegateSecret) → Keeps f (do_secrets n d ss)
  unfolding do_secrets
  do_secrets-Keeps n d [] = search keeps_rules
  do_secrets-Keeps n d (s ∷ ss) =
      Keeps-then (do_secret n d s) (do_secrets n d ss) (do_secret-Keeps n d s)
        (do_secrets-Keeps n d ss)

  for_delegates-Keeps : (n : ℤ) (ds : List Delegate) → Keeps f (for_delegates n ds)
  unfolding for_delegates
  for_delegates-Keeps n [] = search keeps_rules
  for_delegates-Keeps n (d ∷ ds) =
      Keeps-bind (secrets d) (λ ss. do_secrets n d ss >> for_delegates n ds) (secrets-Keeps d)
        (λ ss.
          Keeps-then (do_secrets n d ss) (for_delegates n ds) (do_secrets-Keeps n d ss)
            (for_delegates-Keeps n ds))

  pub do_delegate_secrets-Keeps : (n : ℤ) → Keeps f (do_delegate_secrets n)
  unfolding do_delegate_secrets
  do_delegate_secrets-Keeps n = search (keeps_rules, get_all_delegate-Keeps, for_delegates-Keeps)
