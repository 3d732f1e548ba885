-- ===== src/Models/Monitor/Schedule.antt =====
-- At which blocks a delegate is worked on.
use photon_monitoring.Base.{ℕ, ℤ}
use photon_monitoring.Platform.{Platform}
use photon_monitoring.World.{World}
use photon_monitoring.World.Frame.{Keeps, keeps_rules}
use photon_monitoring.World.Health.{IsSafe, safe_rules, IsSafe-save_monitor}
use photon_monitoring.Orm.{IsDocumented}
use photon_monitoring.Models.Rows.{Delegate, MonitorType}
use photon_monitoring.Models.Monitor.{get_delegate_monitor_list, add_monitor, add_delegate_monitor}

module _ ⦃p : Platform⦄ where
  pub get_delegate_monitor_list-Keeps :
      {B : Type 0} {f : World → B} (n : ℤ) → Keeps f (get_delegate_monitor_list n)
  unfolding get_delegate_monitor_list
  get_delegate_monitor_list-Keeps n = search keeps_rules

module _ ⦃p : Platform⦄ (g : IsDocumented p.gorm) where
  add_monitor-IsSafe : (n : ℤ) (t : MonitorType) (k : ℕ) → IsSafe (add_monitor n t k)
  unfolding add_monitor
  add_monitor-IsSafe n t k = search (safe_rules, IsSafe-save_monitor g)

  pub add_delegate_monitor-IsSafe : (d : Delegate) → IsSafe (add_delegate_monitor d)
  unfolding add_delegate_monitor
  add_delegate_monitor-IsSafe d = search (safe_rules, add_monitor-IsSafe)
