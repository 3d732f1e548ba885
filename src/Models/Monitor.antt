-- ===== src/Models/Monitor.antt =====
-- models/delegatemonitor.go: at which blocks a delegate is worked on.
pub mod Schedule
pub mod Invariant
pub mod Scheduled
use photon_monitoring.Base.{
  ℕ, ◌+◌, ◌-◌, ◌*◌, ◌%◌, ◌^◌, ◌<◌, ℤ, pos, negsuc, Option, none, some, List, [], Text, ⊤, ◌==◌, ltb,
  leb_ℤ, eqb_ℤ, ltb_ℤ, ◌-ℤ◌, ◌+ℤ◌, if◌then◌else◌,
}
use photon_monitoring.Orm.{Fetch, found, not_found, failed, unless_blank}
use photon_monitoring.Platform.{Platform, settings, Reply, reply, reply_err}
use photon_monitoring.World.{M, World, ◌>>=◌, ◌>>◌, pure, panic, find, write, outer, monitors}
use photon_monitoring.Models.Rows.{
  Delegate, DelegateMonitor, MonitorType, unlock_and_update_balance_proof, punish_monitor,
}
use photon_monitoring.Models.Delegate.{listed, is_error}

-- The int64 with the same low 64 bits.
unfoldable pub wrap64 : ℤ → ℤ
wrap64 x =
    if ltb_ℤ x (pos 0 -ℤ pos (2 ^ 63))
    then x +ℤ pos (2 ^ 64)
    else if leb_ℤ (pos (2 ^ 63)) x
    then x -ℤ pos (2 ^ 64)
    else x

module _ ⦃p : Platform⦄ where
  -- A struct condition on block 0 is blank, and then finds every monitor.
  pub get_delegate_monitor_list : ℤ → M (Reply (List DelegateMonitor))
  get_delegate_monitor_list n = do
    r ← find monitors (unless_blank (eqb_ℤ n (pos 0)) (λ m. eqb_ℤ m.block_number n))
    pure (listed r)

  add_monitor : ℤ → MonitorType → ℕ → M ⊤
  add_monitor block type delegate_key = do
    key ← outer p.random_address
    e ← write monitors (
        p.gorm.save (λ m. m.key == key)
          (record { key = key; block_number = block; type = type; delegate_key = delegate_key }))
    if is_error e then panic else pure tt

  update_balance_proof_time : Delegate → ℤ
  unfolding wrap64
  update_balance_proof_time d = wrap64 (d.settle_block_number -ℤ settings.reveal_timeout)

  pub add_delegate_monitor : Delegate → M ⊤
  unfolding add_monitor update_balance_proof_time
  add_delegate_monitor d = do
    add_monitor (update_balance_proof_time d) unlock_and_update_balance_proof d.key
    add_monitor d.settle_block_number punish_monitor d.key
