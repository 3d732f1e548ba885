-- ===== src/Models/Receive/Update.antt =====
-- ReceiveDelegate as a transaction, and what it makes of an account.
use photon_monitoring.Base.{
  ℕ, ℤ, pos, ◌≡◌, refl, Option, none, some, Bool, true, false, if◌then◌else◌,
}
use photon_monitoring.Orm.{IsDocumented, Fetch, found, not_found, failed}
use photon_monitoring.Platform.{Platform}
use photon_monitoring.World.{World, end_tx, commit_db, rollback_db, M, Outcome, ret, panicked}
use photon_monitoring.World.Total.{IsHealthy}
use photon_monitoring.World.Health.{IsSafe, safe_rules, IsSafe-save_delegate, IsSafe-save_account}
use photon_monitoring.Models.Rows.{Delegate, Message}
use photon_monitoring.Models.Dto.{ChannelFor3rd}
use photon_monitoring.Models.Monitor.Schedule.{add_delegate_monitor-IsSafe}
use photon_monitoring.Models.Delegate.{is_error}
use photon_monitoring.Models.Delegate.Health.{update_balance_proof-IsSafe, calc_need_smt-IsSafe}
use photon_monitoring.Models.BlockNumber.{get_latest_block_number-eq}
use photon_monitoring.Models.Account.Health.{account_get_account-IsSafe}
use photon_monitoring.Models.Service.Health.{
  get_delegate_unlocks-IsSafe, get_delete_secrets-IsSafe, append_delegate_punish-IsSafe,
  append_delegate_announce_dispose-IsSafe,
}
use photon_monitoring.Models.Receive.{
  first_delegate, renew_proofs, stamp, old_delegate, finish_update, update_found, update_delegate,
  update_account_smt, receive_steps, receive_delegate, unless_err,
}

module _ ⦃p : Platform⦄ (g : IsDocumented p.gorm) where
  first_delegate-IsSafe :
      (c : ChannelFor3rd) (a : ℕ) (n : ℤ) (d : Delegate) → IsSafe (first_delegate c a n d)
  unfolding first_delegate
  first_delegate-IsSafe c a n d =
      search (safe_rules, get_delegate_unlocks-IsSafe g, add_delegate_monitor-IsSafe g)

  renew_proofs-IsSafe : (c : ChannelFor3rd) (d : Delegate) → IsSafe (renew_proofs c d)
  unfolding renew_proofs
  renew_proofs-IsSafe c d =
      search (safe_rules, update_balance_proof-IsSafe, get_delegate_unlocks-IsSafe g)

  stamp-IsSafe : (n : ℤ) (r : Option Message × Delegate) → IsSafe (stamp n r)
  unfolding stamp
  stamp-IsSafe n (none, d) = search safe_rules
  stamp-IsSafe n (some e, d) = search safe_rules

  old_delegate-IsSafe : (c : ChannelFor3rd) (n : ℤ) (d : Delegate) → IsSafe (old_delegate c n d)
  unfolding old_delegate
  old_delegate-IsSafe c n d = search (safe_rules, renew_proofs-IsSafe, stamp-IsSafe)

  finish_update-IsSafe :
      (c : ChannelFor3rd) (x old : ℤ) (r : Option Message × Delegate)
      → IsSafe (finish_update c x old r)
  unfolding finish_update
  finish_update-IsSafe c x old (some e, d) = search safe_rules
  finish_update-IsSafe c x old (none, d) =
      search (safe_rules, get_delete_secrets-IsSafe g, calc_need_smt-IsSafe, IsSafe-save_delegate g)

  update_found-IsSafe :
      (c : ChannelFor3rd) (a : ℕ) (n x : ℤ) (k : ℕ) (r : Fetch Delegate)
      → IsSafe (update_found c a n x k r)
  unfolding update_found
  update_found-IsSafe c a n x k (found d) =
      search (safe_rules, old_delegate-IsSafe, finish_update-IsSafe)
  update_found-IsSafe c a n x k not_found =
      search (safe_rules, first_delegate-IsSafe, finish_update-IsSafe)
  update_found-IsSafe c a n x k (failed e) = search safe_rules

  update_delegate-IsSafe : (c : ChannelFor3rd) (a : ℕ) (n x : ℤ) → IsSafe (update_delegate c a n x)
  unfolding update_delegate
  update_delegate-IsSafe c a n x = search (safe_rules, update_found-IsSafe)

  update_account_smt-IsSafe : (a : ℕ) (old new : ℤ) → IsSafe (update_account_smt a old new)
  unfolding update_account_smt
  update_account_smt-IsSafe a old new =
      search (safe_rules, account_get_account-IsSafe, IsSafe-save_account g)

  unless_err-IsSafe :
      (e : Option Message) (m : M (Option Message)) → IsSafe m → IsSafe (unless_err e m)
  unless_err-IsSafe none m k = k
  unless_err-IsSafe (some e) m k = search safe_rules

  receive_steps-IsSafe : (c : ChannelFor3rd) (a : ℕ) (n : ℤ) → IsSafe (receive_steps c a n)
  unfolding receive_steps
  receive_steps-IsSafe c a n =
      search
        (
          safe_rules,
          unless_err-IsSafe,
          append_delegate_punish-IsSafe g,
          append_delegate_announce_dispose-IsSafe g,
          update_delegate-IsSafe,
          update_account_smt-IsSafe,
        )
        depth 12

-- The tables that ReceiveDelegate writes have the same rows.
pub record SameRows ⦃p : Platform⦄ (w v : World) : Type 0 where
  pub delegates : p.gorm.rows v.db.delegates ≡ p.gorm.rows w.db.delegates
  pub punishes : p.gorm.rows v.db.punishes ≡ p.gorm.rows w.db.punishes
  pub announce_disposes : p.gorm.rows v.db.announce_disposes ≡ p.gorm.rows w.db.announce_disposes
  pub accounts : p.gorm.rows v.db.accounts ≡ p.gorm.rows w.db.accounts
  pub monitors : p.gorm.rows v.db.monitors ≡ p.gorm.rows w.db.monitors

-- The call has returned an error.
abbrev pub ends_in_error : Outcome (Option Message) → Bool
ends_in_error (ret none) = false
ends_in_error (ret (some e)) = true
ends_in_error panicked = false

module _ ⦃p : Platform⦄ (g : IsDocumented p.gorm) where
  committed : (w u : World) → IsHealthy u → SameRows u (record u { db = commit_db w.db u.db })
  committed w u h = record {
    delegates = (g.commit_up w.db.delegates u.db.delegates h.delegates_up).0;
    punishes = (g.commit_up w.db.punishes u.db.punishes h.punishes_up).0;
    announce_disposes = (g.commit_up w.db.announce_disposes u.db.announce_disposes h.disposes_up).0;
    accounts = (g.commit_up w.db.accounts u.db.accounts h.accounts_up).0;
    monitors = (g.commit_up w.db.monitors u.db.monitors h.monitors_up).0;
  }

  undone : (w u : World) → IsHealthy u → SameRows w (record u { db = rollback_db w.db u.db })
  undone w u h = record {
    delegates = (g.rollback_up w.db.delegates u.db.delegates h.delegates_up).0;
    punishes = (g.rollback_up w.db.punishes u.db.punishes h.punishes_up).0;
    announce_disposes =
        (g.rollback_up w.db.announce_disposes u.db.announce_disposes h.disposes_up).0;
    accounts = (g.rollback_up w.db.accounts u.db.accounts h.accounts_up).0;
    monitors = (g.rollback_up w.db.monitors u.db.monitors h.monitors_up).0;
  }

  end_tx-ends :
      (r : Outcome (Option Message)) (w u : World)
      → IsHealthy u
      → let (r', v) = end_tx is_error r w u in
        (r' ≡ r) × SameRows (if ends_in_error r then w else u) v
  end_tx-ends (ret none) w u h = (refl, committed w u h)
  end_tx-ends (ret (some e)) w u h = (refl, undone w u h)
  end_tx-ends panicked w u h = (refl, committed w u h)

  -- ReceiveDelegate, on a healthy database, ends as its steps end, in all their ways. If they
  -- return an error, every table that they write is as it was before; if they return none, the
  -- tables are as the steps left them; and if they panic, too, so that a part of a request is kept.
  pub receive_delegate-ends :
      (c : ChannelFor3rd) (delegator : ℕ) (w : World)
      → IsHealthy w
      → let (r, u) = receive_steps c delegator (pos 0) w in
        let (r', v) = receive_delegate c delegator w in
        (r' ≡ r) × SameRows (if ends_in_error r then w else u) v
  unfolding receive_delegate
  receive_delegate-ends c delegator w h =
      let (r, u) = receive_steps c delegator (pos 0) w in
      rw (get_latest_block_number-eq w)
        (end_tx-ends r w u ((receive_steps-IsSafe g c delegator (pos 0)).at w h))
