-- ===== src/Models/Monitor/Invariant.antt =====
-- The schedule of a delegate leaves the accounts solvent.
use photon_monitoring.Base.{ℤ}
use photon_monitoring.Platform.{Platform}
use photon_monitoring.World.Preserve.{Preserves, preserve_rules}
use photon_monitoring.Models.Rows.{Delegate}
use photon_monitoring.Models.Account.Invariant.{AllSolvent, solvent_rules}
use photon_monitoring.Models.Monitor.{add_monitor, add_delegate_monitor, get_delegate_monitor_list}

module _ ⦃p : Platform⦄ where
  pub add_delegate_monitor-Preserves :
      (d : Delegate) → Preserves AllSolvent (add_delegate_monitor d)
  unfolding add_delegate_monitor add_monitor
  add_delegate_monitor-Preserves d = search solvent_rules

  pub get_delegate_monitor_list-Preserves :
      (n : ℤ) → Preserves AllSolvent (get_delegate_monitor_list n)
  unfolding get_delegate_monitor_list
  get_delegate_monitor_list-Preserves n = search preserve_rules
