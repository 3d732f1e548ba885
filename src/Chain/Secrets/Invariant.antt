-- ===== src/Chain/Secrets/Invariant.antt =====
-- doDelegateSecrets keeps every account solvent.
use photon_monitoring.Base.{ℕ, ℤ, pos, ◌≤ℤ◌, List, [], ◌∷◌, Option, none, some, Bool}
use photon_monitoring.Orm.{IsDocumented}
use photon_monitoring.Platform.{Platform, settings}
use photon_monitoring.World.{◌>>◌}
use photon_monitoring.World.Preserve.{Preserves, Preserves-bind, Preserves-then, preserve_rules}
use photon_monitoring.Models.Rows.{Delegate, DelegateSecret, DelegateExecuteRecord, Message}
use photon_monitoring.Models.Account.Invariant.{
  AllSolvent, Preserves-kept, outer-kept, records-kept, account_lock_smt-Preserves,
  account_unlock_smt-Preserves, account_use_smt-Preserves,
}
use photon_monitoring.Models.Delegate.{secrets}
use photon_monitoring.Models.Delegate.Invariant.{delegate_rules, secrets-Preserves}
use photon_monitoring.Models.Record.{has_secret_already_register}
use photon_monitoring.Models.Record.Frame.{has_secret-Keeps}
use photon_monitoring.Chain.Execute.{do_register_secret}
use photon_monitoring.Chain.Execute.Frame.{do_register_secret-Keeps}
use photon_monitoring.Chain.Secrets.{
  settle_secret, register_locked, register_unless, do_secret, do_secrets, for_delegates,
  do_delegate_secrets,
}

module _ ⦃p : Platform⦄ (g : IsDocumented p.gorm) (nonneg : pos 0 ≤ℤ settings.smt_secret) where
  has_secret-Preserves : (secret : ℕ) → Preserves AllSolvent (has_secret_already_register secret)
  has_secret-Preserves secret =
      Preserves-kept (has_secret_already_register secret) (has_secret-Keeps secret)

  do_register_secret-Preserves :
      (d : Delegate) (s : DelegateSecret) → Preserves AllSolvent (do_register_secret d s)
  do_register_secret-Preserves d s =
      Preserves-kept (do_register_secret d s) (do_register_secret-Keeps outer-kept records-kept d s)

  settle_secret-Preserves :
      (a : ℕ) (r : DelegateExecuteRecord) → Preserves AllSolvent (settle_secret a r)
  unfolding settle_secret
  settle_secret-Preserves a r = search (
    preserve_rules,
    account_use_smt-Preserves g settings.smt_secret nonneg,
    account_unlock_smt-Preserves g settings.smt_secret nonneg,
  )

  register_locked-Preserves :
      (d : Delegate) (s : DelegateSecret) (e : Option Message)
      → Preserves AllSolvent (register_locked d s e)
  unfolding register_locked
  register_locked-Preserves d s none =
      search (preserve_rules, do_register_secret-Preserves, settle_secret-Preserves)
  register_locked-Preserves d s (some e) = search preserve_rules

  register_unless-Preserves :
      (d : Delegate) (s : DelegateSecret) (b : Bool) → Preserves AllSolvent (register_unless d s b)
  unfolding register_unless
  register_unless-Preserves d s b = search (
    preserve_rules,
    register_locked-Preserves,
    account_lock_smt-Preserves g settings.smt_secret nonneg,
  )

  do_secret-Preserves :
      (n : ℤ) (d : Delegate) (s : DelegateSecret) → Preserves AllSolvent (do_secret n d s)
  unfolding do_secret
  do_secret-Preserves n d s =
      search (preserve_rules, has_secret-Preserves, register_unless-Preserves)

  do_secrets-Preserves :
      (n : ℤ) (d : Delegate) (ss : List DelegateSecret) → Preserves AllSolvent (do_secrets n d ss)
  unfolding do_secrets
  do_secrets-Preserves n d [] = search preserve_rules
  do_secrets-Preserves n d (s ∷ ss) =
      Preserves-then (do_secret n d s) (do_secrets n d ss) (do_secret-Preserves n d s)
        (do_secrets-Preserves n d ss)

  for_delegates-Preserves : (n : ℤ) (ds : List Delegate) → Preserves AllSolvent (for_delegates n ds)
  unfolding for_delegates
  for_delegates-Preserves n [] = search preserve_rules
  for_delegates-Preserves n (d ∷ ds) =
      Preserves-bind (secrets d) (λ ss. do_secrets n d ss >> for_delegates n ds)
        (secrets-Preserves d)
        (λ ss.
          Preserves-then (do_secrets n d ss) (for_delegates n ds) (do_secrets-Preserves n d ss)
            (for_delegates-Preserves n ds))

  pub do_delegate_secrets-Preserves : (n : ℤ) → Preserves AllSolvent (do_delegate_secrets n)
  unfolding do_delegate_secrets
  do_delegate_secrets-Preserves n = search (preserve_rules, delegate_rules, for_delegates-Preserves)
