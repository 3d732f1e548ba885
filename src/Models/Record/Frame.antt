-- ===== src/Models/Record/Frame.antt =====
-- The records of executions: their calls write no other table.
use photon_monitoring.Base.{ℕ, Option, Text}
use photon_monitoring.Platform.{Platform}
use photon_monitoring.World.{World, outer, write, records}
use photon_monitoring.World.Frame.{Keeps, keeps_rules}
use photon_monitoring.Models.Rows.{Delegate, DelegateExecuteRecord, DelegateType, GobParams}
use photon_monitoring.Models.Record.{
  new_delegate_execute_record, save_delegate_execute_record, has_secret_already_register,
}

module _ ⦃p : Platform⦄ {B : Type 0} {f : World → B}
    (ko : (A : Type 0) (h : p.Outside → A × p.Outside) → Keeps f (outer h))
    (kr : (g : p.gorm.Table DelegateExecuteRecord
        → Option Text × p.gorm.Table DelegateExecuteRecord)
      → Keeps f (write records g)) where
  pub new_record-Keeps :
      (d : Delegate) (t : DelegateType) (x : GobParams)
      → Keeps f (new_delegate_execute_record d t x)
  unfolding new_delegate_execute_record
  new_record-Keeps d t x = search keeps_rules

  pub save_record-Keeps : (r : DelegateExecuteRecord) → Keeps f (save_delegate_execute_record r)
  unfolding save_delegate_execute_record
  save_record-Keeps r = search keeps_rules

module _ ⦃p : Platform⦄ {B : Type 0} {f : World → B} where
  pub has_secret-Keeps : (secret : ℕ) → Keeps f (has_secret_already_register secret)
  unfolding has_secret_already_register
  has_secret-Keeps secret = search keeps_rules
