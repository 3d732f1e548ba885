-- ===== src/World/Health.antt =====
-- Actions that leave a healthy database healthy, whether they return or panic.
use photon_monitoring.Base.{◌≡◌, true, false, Bool, Option, Text, if◌then◌else◌}
use photon_monitoring.Orm.{IsDocumented}
use photon_monitoring.Platform.{Platform}
use photon_monitoring.World.{
  World, M, Outcome, ret, panicked, resume, ◌>>=◌, ◌>>◌, pure, panic, skip, outer, first, find,
  write, Column, delegates, punishes, announce_disposes, accounts, monitors,
}
use photon_monitoring.World.Total.{IsHealthy}
use photon_monitoring.Models.Rows.{
  Delegate, DelegatePunish, DelegateAnnounceDispose, AccountSerialization, DelegateMonitor,
}

pub record IsSafe ⦃p : Platform⦄ {A : Type 0} (m : M A) : Type 0 where
  pub at : (w : World) → IsHealthy w → IsHealthy (m w).1

module _ ⦃p : Platform⦄ where
  pub IsSafe-pure : {A : Type 0} (a : A) → IsSafe (pure a)
  IsSafe-pure a = record { at = λ w h. h }

  pub IsSafe-panic : {A : Type 0} → IsSafe (panic {A = A})
  IsSafe-panic = record { at = λ w h. h }

  pub IsSafe-skip : IsSafe skip
  IsSafe-skip = record { at = λ w h. h }

  pub IsSafe-first : {R : Type 0} (c : Column R) (q : R → Bool) → IsSafe (first c q)
  IsSafe-first c q = record { at = λ w h. h }

  pub IsSafe-find : {R : Type 0} (c : Column R) (q : R → Bool) → IsSafe (find c q)
  IsSafe-find c q = record { at = λ w h. h }

  pub IsSafe-outer : {A : Type 0} (f : p.Outside → A × p.Outside) → IsSafe (outer f)
  IsSafe-outer f = record {
    at = λ w h. record {
      delegates_up = h.delegates_up;
      punishes_up = h.punishes_up;
      disposes_up = h.disposes_up;
      accounts_up = h.accounts_up;
      monitors_up = h.monitors_up;
      records_up = h.records_up;
      block_seen = h.block_seen;
    };
  }

  pub IsSafe-if :
      {A : Type 0} (b : Bool) (m n : M A) → IsSafe m → IsSafe n → IsSafe (if b then m else n)
  IsSafe-if true m n km kn = km
  IsSafe-if false m n km kn = kn

  IsSafe-resume :
      {A C : Type 0} (r : Outcome A) (k : A → M C) → ((a : A) → IsSafe (k a)) → IsSafe (resume r k)
  IsSafe-resume (ret a) k kk = kk a
  IsSafe-resume panicked k kk = record { at = λ w h. h }

  pub IsSafe-bind :
      {A C : Type 0} (m : M A) (k : A → M C)
      → IsSafe m
      → ((a : A) → IsSafe (k a))
      → IsSafe (m >>= k)
  IsSafe-bind m k km kk = record { at = λ w h. (IsSafe-resume (m w).0 k kk).at (m w).1 (km.at w h) }

  pub IsSafe-then : {A C : Type 0} (m : M A) (k : M C) → IsSafe m → IsSafe k → IsSafe (m >> k)
  IsSafe-then m k km kk = IsSafe-bind m (λ _. k) km (λ _. kk)

  -- A call on a table that stays up keeps the database healthy.
  abbrev Steady : {R : Type 0} → (p.gorm.Table R → Option Text × p.gorm.Table R) → Type 0
  Steady {R} f = (t : p.gorm.Table R) → p.gorm.up t ≡ true → p.gorm.up (f t).1 ≡ true

  IsSafe-delegates :
      (f : p.gorm.Table Delegate → Option Text × p.gorm.Table Delegate)
      → Steady f
      → IsSafe (write delegates f)
  IsSafe-delegates f s = record {
    at = λ w h. record {
      delegates_up = s w.db.delegates h.delegates_up;
      punishes_up = h.punishes_up;
      disposes_up = h.disposes_up;
      accounts_up = h.accounts_up;
      monitors_up = h.monitors_up;
      records_up = h.records_up;
      block_seen = h.block_seen;
    };
  }

  IsSafe-punishes :
      (f : p.gorm.Table DelegatePunish → Option Text × p.gorm.Table DelegatePunish)
      → Steady f
      → IsSafe (write punishes f)
  IsSafe-punishes f s = record {
    at = λ w h. record {
      delegates_up = h.delegates_up;
      punishes_up = s w.db.punishes h.punishes_up;
      disposes_up = h.disposes_up;
      accounts_up = h.accounts_up;
      monitors_up = h.monitors_up;
      records_up = h.records_up;
      block_seen = h.block_seen;
    };
  }

  IsSafe-announce_disposes :
      (f : p.gorm.Table DelegateAnnounceDispose
        → Option Text × p.gorm.Table DelegateAnnounceDispose)
      → Steady f
      → IsSafe (write announce_disposes f)
  IsSafe-announce_disposes f s = record {
    at = λ w h. record {
      delegates_up = h.delegates_up;
      punishes_up = h.punishes_up;
      disposes_up = s w.db.announce_disposes h.disposes_up;
      accounts_up = h.accounts_up;
      monitors_up = h.monitors_up;
      records_up = h.records_up;
      block_seen = h.block_seen;
    };
  }

  IsSafe-accounts :
      (f : p.gorm.Table AccountSerialization → Option Text × p.gorm.Table AccountSerialization)
      → Steady f
      → IsSafe (write accounts f)
  IsSafe-accounts f s = record {
    at = λ w h. record {
      delegates_up = h.delegates_up;
      punishes_up = h.punishes_up;
      disposes_up = h.disposes_up;
      accounts_up = s w.db.accounts h.accounts_up;
      monitors_up = h.monitors_up;
      records_up = h.records_up;
      block_seen = h.block_seen;
    };
  }

  IsSafe-monitors :
      (f : p.gorm.Table DelegateMonitor → Option Text × p.gorm.Table DelegateMonitor)
      → Steady f
      → IsSafe (write monitors f)
  IsSafe-monitors f s = record {
    at = λ w h. record {
      delegates_up = h.delegates_up;
      punishes_up = h.punishes_up;
      disposes_up = h.disposes_up;
      accounts_up = h.accounts_up;
      monitors_up = s w.db.monitors h.monitors_up;
      records_up = h.records_up;
      block_seen = h.block_seen;
    };
  }

-- The writes of the models.
module _ ⦃p : Platform⦄ (g : IsDocumented p.gorm) where
  pub IsSafe-save_delegate :
      (q : Delegate → Bool) (d : Delegate) → IsSafe (write delegates (p.gorm.save q d))
  IsSafe-save_delegate q d = IsSafe-delegates (p.gorm.save q d) (λ t u. (g.save_up q d t u).2)

  pub IsSafe-create_punish : (x : DelegatePunish) → IsSafe (write punishes (p.gorm.create x))
  IsSafe-create_punish x = IsSafe-punishes (p.gorm.create x) (λ t u. (g.create_up x t u).2)

  pub IsSafe-create_dispose :
      (x : DelegateAnnounceDispose) → IsSafe (write announce_disposes (p.gorm.create x))
  IsSafe-create_dispose x =
      IsSafe-announce_disposes (p.gorm.create x) (λ t u. (g.create_up x t u).2)

  pub IsSafe-save_account :
      (q : AccountSerialization → Bool) (a : AccountSerialization)
      → IsSafe (write accounts (p.gorm.save q a))
  IsSafe-save_account q a = IsSafe-accounts (p.gorm.save q a) (λ t u. (g.save_up q a t u).2)

  pub IsSafe-save_monitor :
      (q : DelegateMonitor → Bool) (x : DelegateMonitor) → IsSafe (write monitors (p.gorm.save q x))
  IsSafe-save_monitor q x = IsSafe-monitors (p.gorm.save q x) (λ t u. (g.save_up q x t u).2)

pub ruleset safe_rules = (
  IsSafe-pure, IsSafe-panic, IsSafe-skip, IsSafe-first, IsSafe-find, IsSafe-outer, IsSafe-if,
  IsSafe-bind, IsSafe-then,
)
