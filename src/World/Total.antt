-- ===== src/World/Total.antt =====
-- Actions that return, from a state in which the database answers and a block has been seen.
use photon_monitoring.Base.{ℤ, ◌≡◌, refl, ap, ◌∙◌, true, Bool, some, false, if◌then◌else◌}
use photon_monitoring.Platform.{Platform}
use photon_monitoring.World.{
  World, M, ret, resume, ◌>>=◌, ◌>>◌, pure, skip, outer, first, find, Column,
}

module _ ⦃p : Platform⦄ where
  -- Every table answers, and the block number is set.
  pub record IsHealthy (w : World) : Type 0 where
    pub delegates_up : p.gorm.up w.db.delegates ≡ true
    pub punishes_up : p.gorm.up w.db.punishes ≡ true
    pub disposes_up : p.gorm.up w.db.announce_disposes ≡ true
    pub accounts_up : p.gorm.up w.db.accounts ≡ true
    pub monitors_up : p.gorm.up w.db.monitors ≡ true
    pub records_up : p.gorm.up w.db.records ≡ true
    pub block_seen : (b : ℤ) × (w.block_number ≡ some b)

  -- `m` returns from `w`, with a result and a state of which `Q` holds.
  abbrev pub Returns : {A : Type 0} → M A → World → (A → World → Type 0) → Type 0
  Returns {A} m w Q = (a : A) × (w' : World) × (m w ≡ (ret a, w')) × Q a w'

  pub Returns-bind :
      {A C : Type 0} (m : M A) (k : A → M C) (w : World) (Q : A → World → Type 0)
      (R : C → World → Type 0)
      → Returns m w Q
      → ((a : A) (v : World) → Q a v → Returns (k a) v R)
      → Returns (m >>= k) w R
  Returns-bind m k w Q R (a, v, e, q) next =
      let (c, u, e', r) = next a v q in (c, u, ap (λ x. resume x.0 k x.1) e ∙ e', r)

  -- `m` returns from every healthy state, to a healthy one.
  pub record IsTotal {A : Type 0} (m : M A) : Type 0 where
    pub at : (w : World) → IsHealthy w → Returns m w (λ a v. IsHealthy v)

  pub IsTotal-pure : {A : Type 0} (a : A) → IsTotal (pure a)
  IsTotal-pure a = record { at = λ w h. (a, w, refl, h) }

  pub IsTotal-skip : IsTotal skip
  IsTotal-skip = record { at = λ w h. (tt, w, refl, h) }

  pub IsTotal-outer : {A : Type 0} (f : p.Outside → A × p.Outside) → IsTotal (outer f)
  IsTotal-outer f = record {
    at = λ w h.
        let (a, o) = f w.outside in
        (
          a,
          record w { outside = o },
          refl,
          record {
            delegates_up = h.delegates_up;
            punishes_up = h.punishes_up;
            disposes_up = h.disposes_up;
            accounts_up = h.accounts_up;
            monitors_up = h.monitors_up;
            records_up = h.records_up;
            block_seen = h.block_seen;
          },
        );
  }

  pub IsTotal-first : {R : Type 0} (c : Column R) (q : R → Bool) → IsTotal (first c q)
  IsTotal-first c q = record { at = λ w h. (p.gorm.first q (c.get w.db), w, refl, h) }

  pub IsTotal-find : {R : Type 0} (c : Column R) (q : R → Bool) → IsTotal (find c q)
  IsTotal-find c q = record { at = λ w h. (p.gorm.find q (c.get w.db), w, refl, h) }

  pub IsTotal-if :
      {A : Type 0} (b : Bool) (m n : M A) → IsTotal m → IsTotal n → IsTotal (if b then m else n)
  IsTotal-if true m n km kn = km
  IsTotal-if false m n km kn = kn

  pub IsTotal-bind :
      {A C : Type 0} (m : M A) (k : A → M C)
      → IsTotal m
      → ((a : A) → IsTotal (k a))
      → IsTotal (m >>= k)
  IsTotal-bind m k km kk = record {
    at = λ w h.
        Returns-bind m k w (λ a v. IsHealthy v) (λ c v. IsHealthy v) (km.at w h)
          (λ a v hv. (kk a).at v hv);
  }

  pub IsTotal-then : {A C : Type 0} (m : M A) (k : M C) → IsTotal m → IsTotal k → IsTotal (m >> k)
  IsTotal-then m k km kk = IsTotal-bind m (λ _. k) km (λ _. kk)

pub ruleset total_rules = (
  IsTotal-pure, IsTotal-skip, IsTotal-outer, IsTotal-first, IsTotal-find, IsTotal-if, IsTotal-bind,
  IsTotal-then,
)
