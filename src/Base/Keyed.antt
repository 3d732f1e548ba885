-- ===== src/Base/Keyed.antt =====
-- Rows that are looked up and replaced by a numeric key.
use mathlib.Core.Option
use photon_monitoring.Base.{
  ℕ, ◌≡◌, some, List, [], ◌∷◌, arith, ◌==◌, if◌then◌else◌, find?, upsert, adjust,
}

module _ {ℓ} {A : Type ℓ} (k : A → ℕ) where
  pub find?-upsert :
      (a b : ℕ) (v : A) (xs : List A)
      → k v ≡ b
      → find? (λ r. k r == a) (upsert (λ r. k r == b) v xs)
        ≡ (if b == a then some v else find? (λ r. k r == a) xs)
  unfolding find? upsert
  find?-upsert a b v [] e = ground arith
  find?-upsert a b v (x ∷ xs) e = ground (arith, find?-upsert a b v xs e)

  pub find?-adjust :
      (a b : ℕ) (f : A → A) (xs : List A)
      → ((x : A) → k (f x) ≡ k x)
      → find? (λ r. k r == a) (adjust (λ r. k r == b) f xs)
        ≡ (if b == a then Option.map f (find? (λ r. k r == a) xs) else find? (λ r. k r == a) xs)
  unfolding find? adjust
  find?-adjust a b f [] e = ground arith
  find?-adjust a b f (x ∷ xs) e = ground (arith, e x, find?-adjust a b f xs e)
