-- ===== src/Chain/Punishes/Invariant.antt =====
-- doDelegatePunishes keeps every account solvent.
use photon_monitoring.Base.{pos, ◌≤ℤ◌, List, [], ◌∷◌, Option, none, some, Bool}
use photon_monitoring.Orm.{IsDocumented}
use photon_monitoring.Platform.{Platform, settings, Reply, reply, reply_err}
use photon_monitoring.World.Preserve.{Preserves, preserve_rules}
use photon_monitoring.Models.Rows.{Delegate, DelegatePunish, Message}
use photon_monitoring.Models.Account.Invariant.{
  AllSolvent, Preserves-kept, outer-kept, records-kept, account_lock_smt-Preserves,
  account_unlock_smt-Preserves, account_use_smt-Preserves,
}
use photon_monitoring.Models.Delegate.Invariant.{delegate_rules}
use photon_monitoring.Chain.BalanceProof.Invariant.{fail_delegate-Preserves}
use photon_monitoring.Chain.Punishes.{
  punish_each, settle_punish, punish_locked, punish_listed, do_delegate_punishes,
}
use photon_monitoring.Chain.Punishes.Frame.{punish_each-Keeps}

module _ ⦃p : Platform⦄ (g : IsDocumented p.gorm) (nonneg : pos 0 ≤ℤ settings.smt_punish) where
  punish_each-Preserves :
      (d : Delegate) (b : Bool) (dps : List DelegatePunish)
      → Preserves AllSolvent (punish_each d b dps)
  punish_each-Preserves d b dps =
      Preserves-kept (punish_each d b dps) (punish_each-Keeps outer-kept records-kept d b dps)

  settle_punish-Preserves : (d : Delegate) (b : Bool) → Preserves AllSolvent (settle_punish d b)
  unfolding settle_punish
  settle_punish-Preserves d b = search (
    preserve_rules,
    account_use_smt-Preserves g settings.smt_punish nonneg,
    account_unlock_smt-Preserves g settings.smt_punish nonneg,
    fail_delegate-Preserves,
  )

  punish_locked-Preserves :
      (d : Delegate) (dps : List DelegatePunish) (e : Option Message)
      → Preserves AllSolvent (punish_locked d dps e)
  unfolding punish_locked
  punish_locked-Preserves d dps (some e) = search (preserve_rules, fail_delegate-Preserves)
  punish_locked-Preserves d dps none =
      search (preserve_rules, punish_each-Preserves, settle_punish-Preserves)

  punish_listed-Preserves :
      (d : Delegate) (r : Reply (List DelegatePunish)) → Preserves AllSolvent (punish_listed d r)
  unfolding punish_listed
  punish_listed-Preserves d (reply_err e) = search preserve_rules
  punish_listed-Preserves d (reply []) = search preserve_rules
  punish_listed-Preserves d (reply (dp ∷ dps)) = search (
    preserve_rules,
    punish_locked-Preserves,
    account_lock_smt-Preserves g settings.smt_punish nonneg,
  )

  pub do_delegate_punishes-Preserves :
      (d : Delegate) → Preserves AllSolvent (do_delegate_punishes d)
  unfolding do_delegate_punishes
  do_delegate_punishes-Preserves d =
      search (preserve_rules, delegate_rules, punish_listed-Preserves)
