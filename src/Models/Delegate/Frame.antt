-- ===== src/Models/Delegate/Frame.antt =====
-- The getters and the queries of delegates write nothing.
use photon_monitoring.Base.{ℕ, Option, none, some, List, Text}
use photon_monitoring.Orm.{Fetch, found, not_found, failed}
use photon_monitoring.Platform.{Platform}
use photon_monitoring.World.{World, write, delegates}
use photon_monitoring.World.Frame.{Keeps, keeps_rules}
use photon_monitoring.Models.Rows.{Delegate, DelegateStatus}
use photon_monitoring.Models.Delegate.{
  decode, secrets, all_or_panic, get_all_delegate, get_delegate_by_key, update_delegate_status,
}

module _ ⦃p : Platform⦄ {B : Type 0} {f : World → B} where
  decode-Keeps : {A : Type 0} (x : Option A) → Keeps f (decode x)
  unfolding decode
  decode-Keeps none = search keeps_rules
  decode-Keeps (some x) = search keeps_rules

  pub secrets-Keeps : (d : Delegate) → Keeps f (secrets d)
  unfolding secrets
  secrets-Keeps d = decode-Keeps d.secrets_gob

  pub get_delegate_by_key-Keeps : (k : ℕ) → Keeps f (get_delegate_by_key k)
  unfolding get_delegate_by_key
  get_delegate_by_key-Keeps k = search keeps_rules

  all_or_panic-Keeps : (x : Fetch (List Delegate)) → Keeps f (all_or_panic x)
  unfolding all_or_panic
  all_or_panic-Keeps (found ds) = search keeps_rules
  all_or_panic-Keeps not_found = search keeps_rules
  all_or_panic-Keeps (failed e) = search keeps_rules

  pub get_all_delegate-Keeps : Keeps f get_all_delegate
  unfolding get_all_delegate
  get_all_delegate-Keeps = search (keeps_rules, all_or_panic-Keeps)

module _ ⦃p : Platform⦄ {B : Type 0} {f : World → B}
    (kd : (h : p.gorm.Table Delegate → Option Text × p.gorm.Table Delegate)
      → Keeps f (write delegates h)) where
  pub update_delegate_status-Keeps :
      (d : Delegate) (s : DelegateStatus) → Keeps f (update_delegate_status d s)
  unfolding update_delegate_status
  update_delegate_status-Keeps d s = search keeps_rules
