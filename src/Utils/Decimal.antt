-- ===== src/Utils/Decimal.antt =====
-- Which texts SetString reads.
use mathlib.Core.Option
use photon_monitoring.Base.{
  ℕ, ◌+◌, ◌-◌, ◌*◌, ◌≤◌, ℤ, pos, ◌-ℤ◌, ◌≡◌, refl, ◌⊎◌, inl, inr, ◌&&◌, ◌||◌, none, some, [], ◌∷◌,
  Text, All, arith, leb, ◌==◌, Bool-cases, if◌then◌else◌,
}
use photon_monitoring.Utils.{read_digits, read_number, set_string}

abbrev pub IsDigit : ℕ → Type 0
IsDigit c = (48 ≤ c) × (c ≤ 57)

-- At least one digit, and nothing else.
abbrev pub IsNumber : Text → Type 0
IsNumber [] = ⊥
IsNumber (c ∷ s) = IsDigit c × All IsDigit s

-- The text without its sign.
unfoldable pub unsigned : Text → Text
unsigned [] = []
unsigned (c ∷ s) = if c == b'-' || c == b'+' then s else c ∷ s

-- An optional sign and a number.
abbrev pub IsDecimal : Text → Type 0
IsDecimal s = IsNumber (unsigned s)

read_digits-cases :
    (n : ℕ) (s : Text)
    → (All IsDigit s × (m : ℕ) × (read_digits n s ≡ some m))
      ⊎ (¬ All IsDigit s × (read_digits n s ≡ none))
unfolding read_digits
read_digits-cases n [] = inl (tt, n, refl)
read_digits-cases n (c ∷ s) = elim (Bool-cases (leb 48 c && leb c 57)) [
  | inl t ↦ elim (read_digits-cases (n * 10 + (c - 48)) s) [
    | inl (d, m, e) ↦ inl ((ground arith, d), m, rw t e)
    | inr (short, e) ↦ inr (λ h. short h.1, rw t e)
  ]
  | inr t ↦ inr (λ h. let digit = h.0 in ground arith, rw t refl)
]

read_number-cases :
    (s : Text)
    → (IsNumber s × (m : ℕ) × (read_number s ≡ some m)) ⊎ (¬ IsNumber s × (read_number s ≡ none))
unfolding read_number
read_number-cases [] = inr (λ h. h, refl)
read_number-cases (c ∷ s) = read_digits-cases 0 (c ∷ s)

signed-cases :
    (f : ℕ → ℤ) (s : Text)
    → (IsNumber s × (b : ℤ) × (Option.map f (read_number s) ≡ some b))
      ⊎ (¬ IsNumber s × (Option.map f (read_number s) ≡ none))
signed-cases f s = elim (read_number-cases s) [
  | inl (d, m, e) ↦ inl (d, f m, rw e refl)
  | inr (short, e) ↦ inr (short, rw e refl)
]

-- SetString reads a text exactly if it is an optional sign and a number.
pub set_string-cases :
    (s : Text)
    → (IsDecimal s × (b : ℤ) × (set_string s ≡ some b)) ⊎ (¬ IsDecimal s × (set_string s ≡ none))
unfolding set_string unsigned
set_string-cases [] = inr (λ h. h, refl)
set_string-cases (c ∷ s) = elim (Bool-cases (c == b'-')) [
  | inl t ↦ rw t (signed-cases (λ n. pos 0 -ℤ pos n) s)
  | inr t ↦ elim (Bool-cases (c == b'+')) [
    | inl t' ↦ rw (t, t') (signed-cases pos s)
    | inr t' ↦ rw (t, t') (signed-cases pos (c ∷ s))
  ]
]
