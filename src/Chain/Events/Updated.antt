-- ===== src/Chain/Events/Updated.antt =====
-- What becomes of a delegate whose delegator has updated the balance proof itself.
use photon_monitoring.Base.{ℕ, ◌≡◌, true, some, find?, arith, ◌==◌}
use photon_monitoring.Orm.{IsDocumented}
use photon_monitoring.Platform.{Platform}
use photon_monitoring.World.{World}
use photon_monitoring.World.Total.{IsHealthy, Returns}
use photon_monitoring.Models.Rows.{Delegate}
use photon_monitoring.Models.Delegate.{has_key, build_delegate_key}
use photon_monitoring.Models.Delegate.Saving.{
  SavesDelegate, get_delegate_by_key-found, update_object-saves,
}
use photon_monitoring.Models.Service.{is_init}
use photon_monitoring.Chain.Events.{finished_by_other, updated_by, handle_balance_proof_updated}

module _ ⦃p : Platform⦄ (g : IsDocumented p.gorm) where
  pub handle_balance_proof_updated-saves :
      (channel participant : ℕ) (d : Delegate) (w : World)
      → IsHealthy w
      → find? (has_key (build_delegate_key channel participant)) (p.gorm.rows w.db.delegates)
        ≡ some d
      → is_init d.status ≡ true
      → p.text_address d.delegator_address_str ≡ participant
      → Returns
          (handle_balance_proof_updated channel participant)
          w
          (λ _ v. SavesDelegate w (finished_by_other d) v × IsHealthy v)
  unfolding handle_balance_proof_updated updated_by
  handle_balance_proof_updated-saves channel participant d w h at i who =
      let asked = get_delegate_by_key-found g w h (build_delegate_key channel participant) in
      let same : (p.text_address d.delegator_address_str == participant) ≡ true =
        ground (arith, who) in
      let (x, v, run, q) = update_object-saves g (finished_by_other d) w h in
      (x, v, rw (asked, at, i, same) run, q)
