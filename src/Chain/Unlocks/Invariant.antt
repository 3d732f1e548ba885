-- ===== src/Chain/Unlocks/Invariant.antt =====
-- doDelegateUnlocks keeps every account solvent.
use photon_monitoring.Base.{ℕ, ℤ, pos, ◌≤ℤ◌, ◌*ℤ◌, List, [], ◌∷◌, Option, none, some, length, arith}
use photon_monitoring.Orm.{IsDocumented}
use photon_monitoring.Platform.{Platform, settings, Reply, reply, reply_err}
use photon_monitoring.World.{◌>>=◌}
use photon_monitoring.World.Preserve.{Preserves, Preserves-bind, preserve_rules}
use photon_monitoring.Models.Rows.{
  Delegate, DelegateUnlock, DelegateAnnounceDispose, DelegateExecuteRecord, Message,
}
use photon_monitoring.Models.Account.{account_lock_smt}
use photon_monitoring.Models.Account.Invariant.{
  AllSolvent, Preserves-kept, outer-kept, records-kept, account_lock_smt-Preserves,
  account_unlock_smt-Preserves, account_use_smt-Preserves,
}
use photon_monitoring.Models.Delegate.Invariant.{delegate_rules}
use photon_monitoring.Chain.BalanceProof.Invariant.{fail_delegate-Preserves}
use photon_monitoring.Chain.Execute.{do_unlock}
use photon_monitoring.Chain.Execute.Frame.{do_unlock-Keeps}
use photon_monitoring.Chain.Unlocks.{
  Tally, settle_unlock, unlock_each, or_panic, unlock_locked, unlock_cost, unlock_all,
  do_delegate_unlocks,
}

*ℤ-nonneg : (a : ℤ) (n : ℕ) → pos 0 ≤ℤ a → pos 0 ≤ℤ a *ℤ pos n
unfolding ◌*ℤ◌
*ℤ-nonneg a n h = ground arith

module _ ⦃p : Platform⦄ (g : IsDocumented p.gorm) (nonneg : pos 0 ≤ℤ settings.smt_unlock) where
  do_unlock-Preserves :
      (d : Delegate) (du : DelegateUnlock) (x : ℤ) (das : List DelegateAnnounceDispose)
      → Preserves AllSolvent (do_unlock d du x das)
  do_unlock-Preserves d du x das =
      Preserves-kept (do_unlock d du x das) (do_unlock-Keeps outer-kept records-kept d du x das)

  settle_unlock-Preserves :
      (a : ℕ) (t : Tally) (r : DelegateExecuteRecord) → Preserves AllSolvent (settle_unlock a t r)
  unfolding settle_unlock
  settle_unlock-Preserves a t r = search (
    preserve_rules,
    account_use_smt-Preserves g settings.smt_unlock nonneg,
    account_unlock_smt-Preserves g settings.smt_unlock nonneg,
  )

  unlock_each-Preserves :
      (d : Delegate) (x : ℤ) (das : List DelegateAnnounceDispose) (t : Tally)
      (dus : List DelegateUnlock)
      → Preserves AllSolvent (unlock_each d x das t dus)
  unfolding unlock_each
  unlock_each-Preserves d x das t [] = search preserve_rules
  unlock_each-Preserves d x das t (du ∷ dus) =
      let settle =
        λ (r : DelegateExecuteRecord). settle_unlock (p.text_address d.delegator_address_str) t r in
      Preserves-bind (do_unlock d du x das) (λ r. settle r >>= λ t'. unlock_each d x das t' dus)
        (do_unlock-Preserves d du x das)
        (λ r.
          Preserves-bind (settle r) (λ t'. unlock_each d x das t' dus)
            (settle_unlock-Preserves (p.text_address d.delegator_address_str) t r)
            (λ t'. unlock_each-Preserves d x das t' dus))

  or_panic-Preserves : {A : Type 0} (r : Reply A) → Preserves AllSolvent (or_panic r)
  unfolding or_panic
  or_panic-Preserves (reply a) = search preserve_rules
  or_panic-Preserves (reply_err e) = search preserve_rules

  unlock_locked-Preserves :
      (d : Delegate) (x : ℤ) (das : List DelegateAnnounceDispose) (dus : List DelegateUnlock)
      (e : Option Message)
      → Preserves AllSolvent (unlock_locked d x das dus e)
  unfolding unlock_locked
  unlock_locked-Preserves d x das dus (some e) = search (preserve_rules, fail_delegate-Preserves)
  unlock_locked-Preserves d x das dus none =
      search (preserve_rules, delegate_rules, unlock_each-Preserves)

  lock_cost-Preserves :
      (a : ℕ) (dus : List DelegateUnlock)
      → Preserves AllSolvent (account_lock_smt a (unlock_cost dus))
  unfolding unlock_cost
  lock_cost-Preserves a dus =
      account_lock_smt-Preserves g (settings.smt_unlock *ℤ pos (length dus))
        (*ℤ-nonneg settings.smt_unlock (length dus) nonneg) a

  unlock_all-Preserves :
      (d : Delegate) (x : ℤ) (dus : List DelegateUnlock) → Preserves AllSolvent (unlock_all d x dus)
  unfolding unlock_all
  unlock_all-Preserves d x [] = search preserve_rules
  unlock_all-Preserves d x (du ∷ dus) = search (
    preserve_rules, delegate_rules, or_panic-Preserves, lock_cost-Preserves,
    unlock_locked-Preserves,
  )

  pub do_delegate_unlocks-Preserves : (d : Delegate) → Preserves AllSolvent (do_delegate_unlocks d)
  unfolding do_delegate_unlocks
  do_delegate_unlocks-Preserves d = search (preserve_rules, delegate_rules, unlock_all-Preserves)
