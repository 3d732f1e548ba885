-- ===== src/World/Preserve.antt =====
-- Actions after which an invariant of the state holds again, whether they return or panic.
use photon_monitoring.Base.{Bool, true, false, if◌then◌else◌}
use photon_monitoring.Platform.{Platform}
use photon_monitoring.World.{
  World, M, ret, panicked, Outcome, resume, ◌>>=◌, ◌>>◌, pure, panic, skip, gets, first, find,
  Column,
}

pub record Preserves ⦃p : Platform⦄ {A : Type 0} (I : World → Type 0) (m : M A) : Type 0 where
  pub at : (w : World) → I w → I (m w).1

module _ ⦃p : Platform⦄ {I : World → Type 0} where
  pub Preserves-pure : {A : Type 0} (a : A) → Preserves I (pure a)
  Preserves-pure a = record { at = λ w h. h }

  pub Preserves-panic : {A : Type 0} → Preserves I (panic {A = A})
  Preserves-panic = record { at = λ w h. h }

  pub Preserves-skip : Preserves I skip
  Preserves-skip = record { at = λ w h. h }

  pub Preserves-gets : {A : Type 0} (f : World → A) → Preserves I (gets f)
  Preserves-gets f = record { at = λ w h. h }

  pub Preserves-first : {R : Type 0} (c : Column R) (q : R → Bool) → Preserves I (first c q)
  Preserves-first c q = record { at = λ w h. h }

  pub Preserves-find : {R : Type 0} (c : Column R) (q : R → Bool) → Preserves I (find c q)
  Preserves-find c q = record { at = λ w h. h }

  pub Preserves-if :
      {A : Type 0} (b : Bool) (m n : M A)
      → Preserves I m
      → Preserves I n
      → Preserves I (if b then m else n)
  Preserves-if true m n km kn = km
  Preserves-if false m n km kn = kn

  Preserves-resume :
      {A C : Type 0} (r : Outcome A) (k : A → M C)
      → ((a : A) → Preserves I (k a))
      → Preserves I (resume r k)
  Preserves-resume (ret a) k kk = kk a
  Preserves-resume panicked k kk = record { at = λ w h. h }

  pub Preserves-bind :
      {A C : Type 0} (m : M A) (k : A → M C)
      → Preserves I m
      → ((a : A) → Preserves I (k a))
      → Preserves I (m >>= k)
  Preserves-bind m k km kk = record {
    at = λ w h. (Preserves-resume (m w).0 k kk).at (m w).1 (km.at w h);
  }

  pub Preserves-then :
      {A C : Type 0} (m : M A) (k : M C) → Preserves I m → Preserves I k → Preserves I (m >> k)
  Preserves-then m k km kk = Preserves-bind m (λ _. k) km (λ _. kk)

pub ruleset preserve_rules = (
  Preserves-pure, Preserves-panic, Preserves-skip, Preserves-gets, Preserves-first, Preserves-find,
  Preserves-if, Preserves-bind, Preserves-then,
)
