-- ===== src/Models/Service/Append.antt =====
-- Which punishes a request adds to those that are stored, and what they cost.
use photon_monitoring.Base.{ℕ, ◌≡◌, not, none, Option, List, ◌++◌, map, ◌==◌, select, Text}
use photon_monitoring.Orm.{IsDocumented}
use photon_monitoring.Platform.{Platform}
use photon_monitoring.World.{World}
use photon_monitoring.World.Total.{IsHealthy}
use photon_monitoring.Models.Rows.{DelegatePunish, Message}
use photon_monitoring.Models.Dto.{Punish}
use photon_monitoring.Models.Service.{exists_text, punish_row}

module _ ⦃p : Platform⦄ where
  -- The punishes of a request whose hash is not among the stored ones.
  pub new_punishes : List Text → List Punish → List Punish
  new_punishes old xs = select (λ x. not (exists_text (p.hash_text x.lock_hash) old)) xs

module _ ⦃p : Platform⦄ (g : IsDocumented p.gorm) (k : ℕ) (old : List Text) where
  abbrev Adds : List Punish → World → Option Message → World → Type 0
  Adds xs w e v =
      (e ≡ none)
      × IsHealthy v
      × (p.gorm.rows v.db.punishes
          ≡ p.gorm.rows w.db.punishes ++ map (punish_row k) (new_punishes old xs))

module _ ⦃p : Platform⦄ (g : IsDocumented p.gorm) (k : ℕ) (xs : List Punish) (w : World) where
  abbrev stored : List DelegatePunish
  stored = select (λ x. x.delegate_key == k) (p.gorm.rows w.db.punishes)
