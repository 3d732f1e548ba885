-- ===== src/Chain/BalanceProof/Failing.antt =====
-- A delegate that has failed is saved with its error.
use photon_monitoring.Base.{arith}
use photon_monitoring.Orm.{IsDocumented}
use photon_monitoring.Platform.{Platform}
use photon_monitoring.World.{World}
use photon_monitoring.World.Total.{IsHealthy, Returns}
use photon_monitoring.Models.Rows.{Delegate, Message}
use photon_monitoring.Models.Delegate.Saving.{SavesDelegate, update_object-saves}
use photon_monitoring.Chain.BalanceProof.{failed_with, fail_delegate}

module _ ⦃p : Platform⦄ where
  pub fail_delegate-saves :
      (g : IsDocumented p.gorm) (e : Message) (d : Delegate) (w : World)
      → IsHealthy w
      → Returns (fail_delegate e d) w (λ _ v. SavesDelegate w (failed_with e d) v × IsHealthy v)
  unfolding fail_delegate
  fail_delegate-saves g e d w h =
      let (_, v, run, q) = update_object-saves g (failed_with e d) w h in
      (failed_with e d, v, ground (arith, run), q)
