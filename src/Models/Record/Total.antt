-- ===== src/Models/Record/Total.antt =====
-- Making and saving a record of an execution returns.
use photon_monitoring.Base.{
  ℕ, ◌≡◌, refl, arith, text_eq, Option, none, some, Bool, true, false, find?, Option-cases, inl,
  inr,
}
use photon_monitoring.Orm.{IsDocumented}
use photon_monitoring.Platform.{Platform}
use photon_monitoring.World.{World, ret}
use photon_monitoring.World.Total.{IsHealthy, Returns, IsTotal, total_rules}
use photon_monitoring.Models.Rows.{Delegate, DelegateExecuteRecord, DelegateType, GobParams}
use photon_monitoring.Models.Record.{
  new_delegate_execute_record, save_delegate_execute_record, has_secret_already_register, registers,
  is_success, was_found,
}

abbrev pub is_some {ℓ} : {A : Type ℓ} → Option A → Bool
is_some none = false
is_some (some a) = true

-- The state outside after a record was made: a key was drawn, and the clock read.
module _ ⦃p : Platform⦄ where
  abbrev pub drawn : p.Outside → p.Outside
  drawn o = (p.now (p.random_address o).1).1

module _ ⦃p : Platform⦄ (g : IsDocumented p.gorm) where
  pub new_record-IsTotal :
      (d : Delegate) (t : DelegateType) (x : GobParams)
      → IsTotal (new_delegate_execute_record d t x)
  unfolding new_delegate_execute_record
  new_record-IsTotal d t x = search total_rules

  -- A record that was just made is of no success yet.
  pub new_record-drawn :
      (d : Delegate) (t : DelegateType) (x : GobParams) (w : World)
      → IsHealthy w
      → Returns
          (new_delegate_execute_record d t x)
          w
          (λ r v. (is_success r.status ≡ false) × (v.outside ≡ drawn w.outside) × IsHealthy v)
  unfolding new_delegate_execute_record is_success
  new_record-drawn d t x w h = (
    _,
    record w { outside = drawn w.outside },
    refl,
    (
      refl,
      refl,
      record {
        delegates_up = h.delegates_up;
        punishes_up = h.punishes_up;
        disposes_up = h.disposes_up;
        accounts_up = h.accounts_up;
        monitors_up = h.monitors_up;
        records_up = h.records_up;
        block_seen = h.block_seen;
      },
    ),
  )

  pub save_record-saves :
      (r : DelegateExecuteRecord) (w : World)
      → IsHealthy w
      → Returns (save_delegate_execute_record r) w (λ _ v. (v.outside ≡ w.outside) × IsHealthy v)
  unfolding save_delegate_execute_record
  save_record-saves r w h =
      let (e, rows', up') = g.save_up (λ x. text_eq x.key r.key) r w.db.records h.records_up in
      let t = (p.gorm.save (λ x. text_eq x.key r.key) r w.db.records).1 in
      (
        tt,
        record w { db = record w.db { records = t } },
        ground (arith, e),
        (
          refl,
          record {
            delegates_up = h.delegates_up;
            punishes_up = h.punishes_up;
            disposes_up = h.disposes_up;
            accounts_up = h.accounts_up;
            monitors_up = h.monitors_up;
            records_up = up';
            block_seen = h.block_seen;
          },
        ),
      )

  pub save_record-IsTotal : (r : DelegateExecuteRecord) → IsTotal (save_delegate_execute_record r)
  save_record-IsTotal r = record {
    at = λ w h. let (x, v, run, (_, hv)) = save_record-saves r w h in (x, v, run, hv);
  }

  pub has_secret-found :
      (secret : ℕ) (w : World)
      → IsHealthy w
      → has_secret_already_register secret w
        ≡ (ret (is_some (find? (registers (p.hash_text secret)) (p.gorm.rows w.db.records))), w)
  unfolding has_secret_already_register was_found
  has_secret-found secret w h =
      elim (Option-cases (find? (registers (p.hash_text secret)) (p.gorm.rows w.db.records))) [
        | inl e ↦ rw (g.first_up (registers (p.hash_text secret)) w.db.records h.records_up, e) refl
        | inr (r, e) ↦
            rw (g.first_up (registers (p.hash_text secret)) w.db.records h.records_up, e) refl
      ]
