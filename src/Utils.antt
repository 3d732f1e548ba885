-- ===== src/Utils.antt =====
-- utils/utils.go: big integers as decimal texts, the form that the database keeps.
pub mod RoundTrip
pub mod Decimal
use mathlib.Core.Option
use photon_monitoring.Base.{
  ℕ, zero, suc, ◌+◌, ◌-◌, ◌*◌, ◌/◌, ◌%◌, ℤ, pos, negsuc, Bool, ◌&&◌, Option, none, some, List, [],
  ◌∷◌, Text, leb, ◌==◌, ◌-ℤ◌, if◌then◌else◌,
}

-- The decimal digits of `n` in front of a text, with fuel for one digit a round.
digits : ℕ → ℕ → Text → Text
digits zero n rest = rest
digits (suc fuel) n rest =
    let more = digits fuel (n / 10) ((48 + n % 10) ∷ rest) in
    if n / 10 == 0 then (48 + n % 10) ∷ rest else more

-- big.Int.String
decimal : ℤ → Text
decimal (pos n) = digits (suc n) n []
decimal (negsuc n) = b'-' ∷ digits (suc (suc n)) (suc n) []

pub big_int_to_string : Option ℤ → Text
big_int_to_string none = b'0' ∷ []
big_int_to_string (some b) = decimal b

read_digits : ℕ → Text → Option ℕ
read_digits n [] = some n
read_digits n (c ∷ s) = if leb 48 c && leb c 57 then read_digits (n * 10 + (c - 48)) s else none

-- At least one digit, and nothing after the digits.
read_number : Text → Option ℕ
read_number [] = none
read_number (c ∷ s) = read_digits 0 (c ∷ s)

-- big.Int.SetString in base 10: an optional sign and a number.
pub set_string : Text → Option ℤ
set_string [] = none
set_string (c ∷ s) =
    if c == b'-'
    then Option.map (λ n. pos 0 -ℤ pos n) (read_number s)
    else if c == b'+'
    then Option.map pos (read_number s)
    else Option.map pos (read_number (c ∷ s))

or_zero : Option ℤ → ℤ
or_zero none = pos 0
or_zero (some b) = b

pub string_to_big_int : Text → ℤ
string_to_big_int s = or_zero (set_string s)
