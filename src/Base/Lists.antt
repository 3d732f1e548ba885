-- ===== src/Base/Lists.antt =====
-- Lists over the native numbers: length, first match, selection, replacement by key.
use Prim.Native.Nat.{ℕ, suc}
use mathlib.Core.Path.{◌≡◌, refl, sym, ap, subst}
use mathlib.Core.Logic.{inl, inr}
use mathlib.Core.Bool.{Bool, true}
use mathlib.Core.Option.{Option, none, some, some-injective, none-ne-some}
use mathlib.Core.List.{List, [], ◌∷◌, ◌++◌}
use photon_monitoring.Base.Tests.{Bool-cases, if◌then◌else◌}

module _ {ℓ} {A : Type ℓ} where
  abbrev pub length : List A → ℕ
  length [] = 0
  length (x ∷ xs) = suc (length xs)

  -- The first element that passes a test.
  unfoldable pub find? : (A → Bool) → List A → Option A
  find? q [] = none
  find? q (x ∷ xs) = if q x then some x else find? q xs

  -- The elements that pass a test, in their order.
  unfoldable pub select : (A → Bool) → List A → List A
  select q [] = []
  select q (x ∷ xs) = let rest = select q xs in if q x then x ∷ rest else rest

  -- The first element that passes the test is replaced; if there is none, the new one is added.
  unfoldable pub upsert : (A → Bool) → A → List A → List A
  upsert q v [] = v ∷ []
  upsert q v (x ∷ xs) = if q x then v ∷ xs else x ∷ upsert q v xs

  -- Each element that passes the test is changed.
  unfoldable pub adjust : (A → Bool) → (A → A) → List A → List A
  adjust q f [] = []
  adjust q f (x ∷ xs) = (if q x then f x else x) ∷ adjust q f xs

-- Every element has a property.
abbrev pub All {ℓ κ} : {A : Type ℓ} → (A → Type κ) → List A → Type κ
All P [] = Unit
All P (x ∷ xs) = P x × All P xs

pub find?-sound {ℓ} :
    {A : Type ℓ} (q : A → Bool) (xs : List A) {x : A} → find? q xs ≡ some x → q x ≡ true
unfolding find?
find?-sound q [] e = absurd (none-ne-some _ e)
find?-sound q (y ∷ xs) {x} e = elim (Bool-cases (q y)) [
  | inl t ↦ subst (λ z. q z ≡ true) (some-injective y x (rw t at e)) t
  | inr t ↦ find?-sound q xs (rw t at e)
]

pub find?-upsert_self {ℓ} :
    {A : Type ℓ} (q : A → Bool) (v : A) (xs : List A)
    → q v ≡ true
    → find? q (upsert q v xs) ≡ some v
unfolding find? upsert
find?-upsert_self q v [] h = rw h refl
find?-upsert_self q v (x ∷ xs) h = elim (Bool-cases (q x)) [
  | inl t ↦ rw t (rw h refl)
  | inr t ↦ rw t (rw t (find?-upsert_self q v xs h))
]

pub upsert-new {ℓ} :
    {A : Type ℓ} (q : A → Bool) (v : A) (xs : List A)
    → find? q xs ≡ none
    → upsert q v xs ≡ xs ++ v ∷ []
unfolding find? upsert
upsert-new q v [] e = refl
upsert-new q v (x ∷ xs) e = elim (Bool-cases (q x)) [
  | inl t ↦ absurd (none-ne-some x (sym (rw t at e)))
  | inr t ↦ rw t (ap (λ z. x ∷ z) (upsert-new q v xs (rw t at e)))
]

pub select-++ {ℓ} :
    {A : Type ℓ} (q : A → Bool) (xs ys : List A) → select q (xs ++ ys) ≡ select q xs ++ select q ys
unfolding select
select-++ q [] ys = refl
select-++ q (x ∷ xs) ys = elim (Bool-cases (q x)) [
  | inl t ↦ rw t (ap (λ z. x ∷ z) (select-++ q xs ys))
  | inr t ↦ rw t (select-++ q xs ys)
]
