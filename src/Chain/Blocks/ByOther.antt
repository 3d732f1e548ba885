-- ===== src/Chain/Blocks/ByOther.antt =====
-- A delegator that has updated the balance proof itself still has its locks unlocked, and only that.
use photon_monitoring.Base.{
  ℕ, ℤ, ◌≡◌, refl, ap, subst, ◌∙◌, true, some, [], ◌∷◌, ◌++◌, find?, find?-sound, find?-upsert_self,
  arith, ==_iff,
}
use photon_monitoring.Orm.{IsDocumented}
use photon_monitoring.Platform.{Platform}
use photon_monitoring.World.{World, ret, ◌>>◌, unlocks_job}
use photon_monitoring.World.Total.{IsHealthy, Returns}
use photon_monitoring.Models.Rows.{Delegate, DelegateMonitor, init, unlock_and_update_balance_proof}
use photon_monitoring.Models.Delegate.{has_key, build_delegate_key}
use photon_monitoring.Models.Delegate.Saving.{get_delegate_by_key-found}
use photon_monitoring.Models.Service.{is_init}
use photon_monitoring.Chain.Events.{finished_by_other}
use photon_monitoring.Chain.Events.Updated.{handle_balance_proof_updated-saves}
use photon_monitoring.Chain.Blocks.{
  balance_proof_updated, handle_state_change, is_by_other, start_unlock, start_monitor,
  monitor_round, do_monitors,
}

-- A monitor of the update of a delegate.
abbrev pub scheduled : ℕ → ℤ → ℕ → DelegateMonitor
scheduled key n k = record {
  key = key;
  block_number = n;
  type = unlock_and_update_balance_proof;
  delegate_key = k;
}

module _ ⦃p : Platform⦄ (g : IsDocumented p.gorm) where
  -- The monitor of a delegate that was finished by other.
  do_monitors-finished_by_other :
      (k : ℕ) (n : ℤ) (d : Delegate) (key : ℕ) (w : World)
      → IsHealthy w
      → find? (has_key k) (p.gorm.rows w.db.delegates) ≡ some (finished_by_other d)
      → do_monitors (scheduled key n k ∷ []) w
        ≡ (ret true, record w { jobs = w.jobs ++ unlocks_job (finished_by_other d) ∷ [] })
  unfolding do_monitors monitor_round start_monitor start_unlock is_by_other
  do_monitors-finished_by_other k n d key w h at = rw (get_delegate_by_key-found g w h k, at) refl

  -- On a healthy database, when the delegator of a delegate in status Init has updated the balance
  -- proof itself and a monitor then comes to the update of that delegate, the loop over the monitors
  -- starts the unlocks of the delegate, which was finished by other, and nothing else.
  pub balance_proof_updated-unlocks_only :
      (channel participant : ℕ) (d : Delegate) (key : ℕ) (n : ℤ) (w : World)
      → IsHealthy w
      → let k = build_delegate_key channel participant in
        find? (has_key k) (p.gorm.rows w.db.delegates) ≡ some d
        → d.status ≡ init
        → p.text_address d.delegator_address_str ≡ participant
        → Returns
            (handle_state_change (balance_proof_updated channel participant)
              >> do_monitors (scheduled key n k ∷ []))
            w
            (λ done v. (done ≡ true) × (v.jobs ≡ w.jobs ++ unlocks_job (finished_by_other d) ∷ []))
  unfolding handle_state_change
  balance_proof_updated-unlocks_only channel participant d key n w h at st who =
      let k = build_delegate_key channel participant in
      let f = finished_by_other d in
      let i : is_init d.status ≡ true = rw st (unfold is_init in refl) in
      let (x, u, run, ((rows', same), hu)) =
        handle_balance_proof_updated-saves g channel participant d w h at i who in
      let of_key : d.key ≡ k = (==_iff _ _).0 (find?-sound (has_key k) _ at) in
      let self : has_key d.key f ≡ true = ground arith in
      let there : find? (has_key k) (p.gorm.rows u.db.delegates) ≡ some f =
        subst (λ z. find? (has_key z) (p.gorm.rows u.db.delegates) ≡ some f) of_key
          (ap (find? (has_key d.key)) rows' ∙ find?-upsert_self (has_key d.key) f _ self) in
      (
        true,
        record u { jobs = u.jobs ++ unlocks_job f ∷ [] },
        rw run (do_monitors-finished_by_other k n d key u hu there),
        (refl, ap (λ (z : World). z.jobs ++ unlocks_job f ∷ []) same),
      )
