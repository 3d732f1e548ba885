-- ===== src/World/Frame.antt =====
-- What an action leaves as it was: a part of the state that no step of it writes.
use photon_monitoring.Base.{◌≡◌, refl, ◌∙◌, Bool, true, false, if◌then◌else◌}
use photon_monitoring.Platform.{Platform}
use photon_monitoring.World.{
  World, M, ret, panicked, Outcome, resume, ◌>>=◌, ◌>>◌, pure, panic, skip, gets, first, find,
  Column,
}

-- Whether `m` returns or panics, `f` of the state is what it was.
pub record Keeps ⦃p : Platform⦄ {A B : Type 0} (f : World → B) (m : M A) : Type 0 where
  pub at : (w : World) → f (m w).1 ≡ f w

module _ ⦃p : Platform⦄ {B : Type 0} {f : World → B} where
  pub Keeps-pure : {A : Type 0} (a : A) → Keeps f (pure a)
  Keeps-pure a = record { at = λ w. refl }

  pub Keeps-panic : {A : Type 0} → Keeps f (panic {A = A})
  Keeps-panic = record { at = λ w. refl }

  pub Keeps-skip : Keeps f skip
  Keeps-skip = record { at = λ w. refl }

  pub Keeps-gets : {A : Type 0} (h : World → A) → Keeps f (gets h)
  Keeps-gets h = record { at = λ w. refl }

  pub Keeps-first : {R : Type 0} (c : Column R) (q : R → Bool) → Keeps f (first c q)
  Keeps-first c q = record { at = λ w. refl }

  pub Keeps-find : {R : Type 0} (c : Column R) (q : R → Bool) → Keeps f (find c q)
  Keeps-find c q = record { at = λ w. refl }

  pub Keeps-if :
      {A : Type 0} (b : Bool) (m n : M A) → Keeps f m → Keeps f n → Keeps f (if b then m else n)
  Keeps-if true m n km kn = km
  Keeps-if false m n km kn = kn

  Keeps-resume :
      {A C : Type 0} (r : Outcome A) (k : A → M C)
      → ((a : A) → Keeps f (k a))
      → Keeps f (resume r k)
  Keeps-resume (ret a) k kk = kk a
  Keeps-resume panicked k kk = record { at = λ w. refl }

  pub Keeps-bind :
      {A C : Type 0} (m : M A) (k : A → M C)
      → Keeps f m
      → ((a : A) → Keeps f (k a))
      → Keeps f (m >>= k)
  Keeps-bind m k km kk = record { at = λ w. (Keeps-resume (m w).0 k kk).at (m w).1 ∙ km.at w }

  pub Keeps-then : {A C : Type 0} (m : M A) (k : M C) → Keeps f m → Keeps f k → Keeps f (m >> k)
  Keeps-then m k km kk = Keeps-bind m (λ _. k) km (λ _. kk)

pub ruleset keeps_rules = (
  Keeps-pure, Keeps-panic, Keeps-skip, Keeps-gets, Keeps-first, Keeps-find, Keeps-if, Keeps-bind,
  Keeps-then,
)
