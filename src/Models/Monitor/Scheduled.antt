-- ===== src/Models/Monitor/Scheduled.antt =====
-- What AddDelegateMonitor has scheduled is what GetDelegateMonitorList finds at its block.
use mathlib.Core.List.{append_assoc}
use photon_monitoring.Base.{
  ℕ, ℤ, pos, ◌≡◌, ◌≢◌, refl, ap, ◌∙◌, Bool, false, none, List, [], ◌∷◌, ◌++◌, ◌==◌, eqb_ℤ, find?,
  select, upsert, upsert-new, select-++, arith, Bool-cases, inl, inr, ◌-ℤ◌,
}
use photon_monitoring.Orm.{IsDocumented}
use photon_monitoring.Platform.{Platform, settings, reply}
use photon_monitoring.World.{World, ret}
use photon_monitoring.World.Total.{IsHealthy, Returns}
use photon_monitoring.Models.Rows.{
  Delegate, DelegateMonitor, MonitorType, unlock_and_update_balance_proof, punish_monitor,
}
use photon_monitoring.Models.Delegate.{listed}
use photon_monitoring.Models.Monitor.{
  wrap64, add_monitor, add_delegate_monitor, get_delegate_monitor_list, update_balance_proof_time,
}

module _ ⦃p : Platform⦄ where
  abbrev monitors_of : World → List DelegateMonitor
  monitors_of w = p.gorm.rows w.db.monitors

  abbrev at_block : ℤ → DelegateMonitor → Bool
  at_block n m = eqb_ℤ m.block_number n

  -- No monitor has the key yet.
  abbrev pub IsNew : ℕ → List DelegateMonitor → Type 0
  IsNew k ms = find? (λ m. m.key == k) ms ≡ none

  abbrev monitor_of : ℕ → ℤ → MonitorType → ℕ → DelegateMonitor
  monitor_of key n t k = record { key = key; block_number = n; type = t; delegate_key = k }

  IsNew-append :
      (k : ℕ) (m : DelegateMonitor) (ms : List DelegateMonitor)
      → IsNew k ms
      → m.key ≢ k
      → IsNew k (ms ++ m ∷ [])
  unfolding find?
  IsNew-append k m [] h ne = let e : (m.key == k) ≡ false = ground arith in rw e refl
  IsNew-append k m (x ∷ ms) h ne = elim (Bool-cases (x.key == k)) [
    | inl t ↦ ground (arith, rw t at h)
    | inr t ↦ rw t (IsNew-append k m ms (rw t at h) ne)
  ]

module _ ⦃p : Platform⦄ (g : IsDocumented p.gorm) where
  add_monitor-saves :
      (n : ℤ) (t : MonitorType) (k key : ℕ) (o : p.Outside) (w : World)
      → IsHealthy w
      → p.random_address w.outside ≡ (key, o)
      → Returns (add_monitor n t k) w (λ _ v.
        (monitors_of v ≡ upsert (λ x. x.key == key) (monitor_of key n t k) (monitors_of w))
        × (v ≡ record w { db = record w.db { monitors = v.db.monitors }; outside = o })
        × IsHealthy v)
  unfolding add_monitor
  add_monitor-saves n t k key o w h drawn =
      let m = monitor_of key n t k in
      let (e, rows', up') = g.save_up (λ m. m.key == key) m w.db.monitors h.monitors_up in
      let tb = (p.gorm.save (λ m. m.key == key) m w.db.monitors).1 in
      (
        tt,
        record w { db = record w.db { monitors = tb }; outside = o },
        rw (drawn, e) refl,
        (
          rows',
          refl,
          record {
            delegates_up = h.delegates_up;
            punishes_up = h.punishes_up;
            disposes_up = h.disposes_up;
            accounts_up = h.accounts_up;
            monitors_up = up';
            records_up = h.records_up;
            block_seen = h.block_seen;
          },
        ),
      )

  add_monitor-rows :
      (n : ℤ) (t : MonitorType) (k key : ℕ) (o : p.Outside) (w : World)
      → IsHealthy w
      → p.random_address w.outside ≡ (key, o)
      → IsNew key (monitors_of w)
      → Returns (add_monitor n t k) w (λ _ v.
        (monitors_of v ≡ monitors_of w ++ monitor_of key n t k ∷ [])
        × (v.outside ≡ o)
        × IsHealthy v)
  add_monitor-rows n t k key o w h drawn new =
      let (x, v, run, (rows', same, hv)) = add_monitor-saves n t k key o w h drawn in
      (
        x,
        v,
        run,
        (
          rows' ∙ upsert-new (λ x. x.key == key) (monitor_of key n t k) (monitors_of w) new,
          ap (λ z. z.outside) same,
          hv,
        ),
      )

  -- The schedule of a delegate is written, whatever the random keys, and no delegate is.
  pub add_delegate_monitor-returns :
      (d : Delegate) (w : World)
      → IsHealthy w
      → Returns (add_delegate_monitor d) w (λ _ v. (v.db.delegates ≡ w.db.delegates) × IsHealthy v)
  unfolding add_delegate_monitor
  add_delegate_monitor-returns d w h =
      let (k, o) = p.random_address w.outside in
      let (x, u, run, (_, same, hu)) =
        add_monitor-saves (update_balance_proof_time d) unlock_and_update_balance_proof d.key k o w
          h refl in
      let (k', o') = p.random_address u.outside in
      let (y, v, run', (_, same', hv)) =
        add_monitor-saves d.settle_block_number punish_monitor d.key k' o' u hu refl in
      (y, v, rw run run', (ap (λ z. z.db.delegates) same' ∙ ap (λ z. z.db.delegates) same, hv))

  monitor_list-found :
      (n : ℤ) (w : World)
      → IsHealthy w
      → n ≢ pos 0
      → get_delegate_monitor_list n w ≡ (ret (reply (select (at_block n) (monitors_of w))), w)
  unfolding get_delegate_monitor_list
  monitor_list-found n w h ne =
      let e : eqb_ℤ n (pos 0) ≡ false = ground arith in
      rw e (ap (λ r. (ret (listed r), w)) (g.find_up (at_block n) w.db.monitors h.monitors_up))

  -- On a healthy database, when the two random keys are new and differ, AddDelegateMonitor returns,
  -- and for any block but 0 GetDelegateMonitorList then returns the monitors that it returned
  -- before, followed by those of two new ones that are at the block: the update of the balance
  -- proof, the reveal timeout before the settle block, and the punish, at the settle block.
  pub add_delegate_monitor-Scheduled :
      (d : Delegate) (n : ℤ) (w : World)
      → IsHealthy w
      → n ≢ pos 0
      → let (k, o) = p.random_address w.outside in
        let (k', _) = p.random_address o in
        let update : DelegateMonitor = record {
          key = k;
          block_number = wrap64 (d.settle_block_number -ℤ settings.reveal_timeout);
          type = unlock_and_update_balance_proof;
          delegate_key = d.key;
        } in
        let punish : DelegateMonitor = record {
          key = k';
          block_number = d.settle_block_number;
          type = punish_monitor;
          delegate_key = d.key;
        } in
        IsNew k (monitors_of w)
        → IsNew k' (monitors_of w)
        → k ≢ k'
        → Returns (add_delegate_monitor d) w (λ _ v. get_delegate_monitor_list n v ≡ (
          ret (
              reply (
                select (at_block n) (monitors_of w) ++ select (at_block n) (update ∷ punish ∷ []))),
          v,
        ))
  unfolding add_delegate_monitor update_balance_proof_time
  add_delegate_monitor-Scheduled d n w h ne new new' differ =
      let (k, o) = p.random_address w.outside in
      let (k', o') = p.random_address o in
      let block = update_balance_proof_time d in
      let m = monitor_of k block unlock_and_update_balance_proof d.key in
      let m' = monitor_of k' d.settle_block_number punish_monitor d.key in
      let (x, u, run, (rows', out, hu)) =
        add_monitor-rows block unlock_and_update_balance_proof d.key k o w h refl new in
      let (y, v, run', (rows'', _, hv)) =
        add_monitor-rows d.settle_block_number punish_monitor d.key k' o' u hu
          (ap p.random_address out) (rw rows' (IsNew-append k' m (monitors_of w) new' differ)) in
      (
        y,
        v,
        rw run run',
        monitor_list-found n v hv ne
            ∙ ap (λ z. (ret (reply z), v))
                (ap (select (at_block n)) (
                    rows''
                    ∙ ap (λ z. z ++ m' ∷ []) rows'
                    ∙ append_assoc (monitors_of w) (m ∷ []) (m' ∷ []))
                  ∙ select-++ (at_block n) (monitors_of w) (m ∷ m' ∷ [])),
      )
