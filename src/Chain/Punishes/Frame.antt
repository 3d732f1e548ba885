-- ===== src/Chain/Punishes/Frame.antt =====
-- The loop of doDelegatePunishes writes the records alone, and always ends.
use photon_monitoring.Base.{List, [], ◌∷◌, Bool, true, false, Option, Text}
use photon_monitoring.Orm.{IsDocumented}
use photon_monitoring.Platform.{Platform}
use photon_monitoring.World.{World, outer, write, records}
use photon_monitoring.World.Frame.{Keeps, Keeps-bind, keeps_rules}
use photon_monitoring.World.Total.{IsTotal, IsTotal-bind, total_rules}
use photon_monitoring.Models.Rows.{Delegate, DelegatePunish, DelegateExecuteRecord}
use photon_monitoring.Models.Record.Frame.{new_record-Keeps, save_record-Keeps}
use photon_monitoring.Models.Record.Total.{new_record-IsTotal, save_record-IsTotal}
use photon_monitoring.Chain.Execute.Frame.{do_punish-Keeps}
use photon_monitoring.Chain.Execute.Total.{do_punish-IsTotal}
use photon_monitoring.Chain.Punishes.{skip_punish, punish_one, punish_each}

module _ ⦃p : Platform⦄ {B : Type 0} {f : World → B}
    (ko : (A : Type 0) (h : p.Outside → A × p.Outside) → Keeps f (outer h))
    (kr : (g : p.gorm.Table DelegateExecuteRecord
        → Option Text × p.gorm.Table DelegateExecuteRecord)
      → Keeps f (write records g)) where
  skip_punish-Keeps : (d : Delegate) (dp : DelegatePunish) → Keeps f (skip_punish d dp)
  unfolding skip_punish
  skip_punish-Keeps d dp = search (keeps_rules, new_record-Keeps ko kr, save_record-Keeps ko kr)

  punish_one-Keeps : (d : Delegate) (b : Bool) (dp : DelegatePunish) → Keeps f (punish_one d b dp)
  unfolding punish_one
  punish_one-Keeps d true dp = search (keeps_rules, skip_punish-Keeps)
  punish_one-Keeps d false dp = search (keeps_rules, do_punish-Keeps ko kr)

  pub punish_each-Keeps :
      (d : Delegate) (b : Bool) (dps : List DelegatePunish) → Keeps f (punish_each d b dps)
  unfolding punish_each
  punish_each-Keeps d b [] = search keeps_rules
  punish_each-Keeps d b (dp ∷ dps) =
      Keeps-bind (punish_one d b dp) (λ c. punish_each d c dps) (punish_one-Keeps d b dp)
        (λ c. punish_each-Keeps d c dps)

module _ ⦃p : Platform⦄ (g : IsDocumented p.gorm) where
  pub skip_punish-IsTotal : (d : Delegate) (dp : DelegatePunish) → IsTotal (skip_punish d dp)
  unfolding skip_punish
  skip_punish-IsTotal d dp = search (total_rules, new_record-IsTotal g, save_record-IsTotal g)

  punish_one-IsTotal : (d : Delegate) (b : Bool) (dp : DelegatePunish) → IsTotal (punish_one d b dp)
  unfolding punish_one
  punish_one-IsTotal d true dp = search (total_rules, skip_punish-IsTotal)
  punish_one-IsTotal d false dp = search (total_rules, do_punish-IsTotal g)

  pub punish_each-IsTotal :
      (d : Delegate) (b : Bool) (dps : List DelegatePunish) → IsTotal (punish_each d b dps)
  unfolding punish_each
  punish_each-IsTotal d b [] = search total_rules
  punish_each-IsTotal d b (dp ∷ dps) =
      IsTotal-bind (punish_one d b dp) (λ c. punish_each d c dps) (punish_one-IsTotal d b dp)
        (λ c. punish_each-IsTotal d c dps)
