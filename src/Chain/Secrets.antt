-- ===== src/Chain/Secrets.antt =====
-- chainservice/events.go: doDelegateSecrets registers the secrets that are due, at a fee each.
pub mod Frame
pub mod Outcomes
pub mod Charges
pub mod Invariant
use photon_monitoring.Base.{ℕ, ℤ, Option, none, some, List, [], ◌∷◌, ⊤, ltb_ℤ, Bool, if◌then◌else◌}
use photon_monitoring.Platform.{Platform, settings}
use photon_monitoring.World.{M, World, ◌>>=◌, ◌>>◌, pure, skip}
use photon_monitoring.Models.Rows.{Delegate, DelegateSecret, DelegateExecuteRecord, Message}
use photon_monitoring.Models.Account.{account_lock_smt, account_unlock_smt, account_use_smt}
use photon_monitoring.Models.Delegate.{get_all_delegate, secrets, is_error}
use photon_monitoring.Models.Record.{has_secret_already_register, is_success}
use photon_monitoring.Chain.Execute.{do_register_secret}

module _ ⦃p : Platform⦄ where
  -- The fee is used when the registration has succeeded, and otherwise returned.
  settle_secret : ℕ → DelegateExecuteRecord → M ⊤
  settle_secret delegator r =
      if is_success r.status
      then (do e ← account_use_smt delegator settings.smt_secret; skip)
      else (do e ← account_unlock_smt delegator settings.smt_secret; skip)

  register_locked : Delegate → DelegateSecret → Option Message → M ⊤
  unfolding settle_secret
  register_locked d s (some e) = skip
  register_locked d s none = do
    r ← do_register_secret d s
    settle_secret (p.text_address d.delegator_address_str) r

  register_unless : Delegate → DelegateSecret → Bool → M ⊤
  unfolding register_locked
  register_unless d s registered = if registered then skip else (do
    e ← account_lock_smt (p.text_address d.delegator_address_str) settings.smt_secret
    register_locked d s e)

  -- The body of the inner loop.
  pub do_secret : ℤ → Delegate → DelegateSecret → M ⊤
  unfolding register_unless
  do_secret last_block_number d s = if ltb_ℤ last_block_number s.register_block then skip else (do
    registered ← has_secret_already_register (p.text_hash s.secret)
    register_unless d s registered)

  do_secrets : ℤ → Delegate → List DelegateSecret → M ⊤
  do_secrets last_block_number d [] = skip
  do_secrets last_block_number d (s ∷ ss) = do
    do_secret last_block_number d s
    do_secrets last_block_number d ss

  for_delegates : ℤ → List Delegate → M ⊤
  for_delegates last_block_number [] = skip
  for_delegates last_block_number (d ∷ ds) = do
    ss ← secrets d
    do_secrets last_block_number d ss
    for_delegates last_block_number ds

  pub do_delegate_secrets : ℤ → M ⊤
  unfolding for_delegates do_secrets
  do_delegate_secrets last_block_number = do
    ds ← get_all_delegate
    for_delegates last_block_number ds
