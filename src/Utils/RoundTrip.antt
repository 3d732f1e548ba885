-- ===== src/Utils/RoundTrip.antt =====
-- Reading back the text of a big integer.
use photon_monitoring.Base.{
  ℕ, zero, suc, ◌+◌, ◌/◌, ◌%◌, ◌≤◌, ◌<◌, ℤ, pos, negsuc, ◌≡◌, refl, ◌∙◌, some, [], ◌∷◌, Text, arith,
  ◌==◌, ◌-ℤ◌, Bool-cases, inl, inr,
}
use photon_monitoring.Utils.{
  digits, decimal, big_int_to_string, read_digits, read_number, set_string, or_zero,
  string_to_big_int,
}

-- Reading the digits of a number that the fuel covers comes to that number.
read_digits-digits :
    (fuel n : ℕ) (rest : Text) → n < fuel → read_digits 0 (digits fuel n rest) ≡ read_digits n rest
unfolding digits read_digits
read_digits-digits zero n rest h = elim h [ ]
read_digits-digits (suc fuel) n rest h = elim (Bool-cases (n / 10 == 0)) [
  | inl last ↦ rw last (ground arith)
  | inr more ↦
      rw more
        (read_digits-digits fuel (n / 10) ((48 + n % 10) ∷ rest) (ground arith) ∙ ground arith)
]

-- The text begins with a digit, so with no sign.
digits-first :
    (fuel n : ℕ) (rest : Text)
    → (c : ℕ) × (s : Text) × (digits (suc fuel) n rest ≡ c ∷ s) × (48 ≤ c)
unfolding digits
digits-first zero n rest = elim (Bool-cases (n / 10 == 0)) [
  | inl last ↦ (48 + n % 10, rest, rw last, omega arith)
  | inr more ↦ (48 + n % 10, rest, rw more, omega arith)
]
digits-first (suc fuel) n rest = elim (Bool-cases (n / 10 == 0)) [
  | inl last ↦ (48 + n % 10, rest, rw last, omega arith)
  | inr more ↦ rw more (digits-first fuel (n / 10) ((48 + n % 10) ∷ rest))
]

read_number-digits : (n : ℕ) → read_number (digits (suc n) n []) ≡ some n
unfolding read_number
read_number-digits n =
    let (c, s, e, d) = digits-first n n [] in
    let r = read_digits-digits (suc n) n [] (omega arith) in
    rw e ((rw e at r) ∙ unfold read_digits in refl)

set_string-digits : (n : ℕ) → set_string (digits (suc n) n []) ≡ some (pos n)
unfolding set_string
set_string-digits n =
    let (c, s, e, d) = digits-first n n [] in
    let r : read_number (c ∷ s) ≡ some n = rw e at (read_number-digits n) in
    rw e (ground (arith, r))

-- SetString reads back what BigIntToString prints, of either sign.
pub set_string-big_int_to_string : (b : ℤ) → set_string (big_int_to_string (some b)) ≡ some b
unfolding big_int_to_string decimal
set_string-big_int_to_string (pos n) = set_string-digits n
set_string-big_int_to_string (negsuc n) =
    unfold set_string ◌-ℤ◌ in ground (arith, read_number-digits (suc n))

-- StringToBigInt after BigIntToString gives the integer back, of either sign.
pub string_to_big_int-big_int_to_string :
    (b : ℤ) → string_to_big_int (big_int_to_string (some b)) ≡ b
unfolding string_to_big_int or_zero
string_to_big_int-big_int_to_string b = rw (set_string-big_int_to_string b)
