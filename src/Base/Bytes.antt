-- ===== src/Base/Bytes.antt =====
-- Byte strings: numbers in big-endian form, and what determines the parts of a concatenation.
use photon_monitoring.Base.{
  ℕ, zero, suc, ◌+◌, ◌-◌, ◌/◌, ◌%◌, ◌^◌, ◌≤◌, ◌<◌, ℤ, pos, negsuc, pos_part, neg_part, ◌≡◌, refl,
  ap, ◌∙◌, sym, List, [], ◌∷◌, ◌++◌, arith, length,
}

-- `width` bytes, the most significant one first: the last bytes of a number that is too large.
unfoldable pub big_endian : ℕ → ℕ → List ℕ
big_endian zero n = []
big_endian (suc width) n = big_endian width (n / 256) ++ (n % 256) ∷ []

-- The two's complement of an int64, as binary.Write has it.
unfoldable pub int64_bytes : ℤ → List ℕ
int64_bytes (pos n) = big_endian 8 (n % 2 ^ 64)
int64_bytes (negsuc n) = big_endian 8 (2 ^ 64 - 1 - n % 2 ^ 64)

pub length-append {ℓ} : {A : Type ℓ} (xs ys : List A) → length (xs ++ ys) ≡ length xs + length ys
length-append [] ys = omega arith
length-append (x ∷ xs) ys = omega (arith, length-append xs ys)

pub length-big_endian : (width n : ℕ) → length (big_endian width n) ≡ width
unfolding big_endian
length-big_endian zero n = refl
length-big_endian (suc width) n =
    length-append (big_endian width (n / 256)) ((n % 256) ∷ [])
    ∙ omega (arith, length-big_endian width (n / 256))

pub length-int64_bytes : (x : ℤ) → length (int64_bytes x) ≡ 8
unfolding int64_bytes
length-int64_bytes (pos n) = length-big_endian 8 (n % 2 ^ 64)
length-int64_bytes (negsuc n) = length-big_endian 8 (2 ^ 64 - 1 - n % 2 ^ 64)

-- Equal concatenations of first parts of one length have equal parts.
pub append-injective {ℓ} :
    {A : Type ℓ} (xs ys us vs : List A)
    → length xs ≡ length ys
    → xs ++ us ≡ ys ++ vs
    → (xs ≡ ys) × (us ≡ vs)
append-injective [] [] us vs h e = (refl, e)
append-injective [] (y ∷ ys) us vs h e = absurd (omega (arith, h))
append-injective (x ∷ xs) [] us vs h e = absurd (omega (arith, h))
append-injective (x ∷ xs) (y ∷ ys) us vs h e =
    let same : x ≡ y = cc in
    let (tails, rest) = append-injective xs ys us vs (omega (arith, h)) (cc) in (cc, rest)

pub big_endian-injective :
    (width m n : ℕ)
    → m < 256 ^ width
    → n < 256 ^ width
    → big_endian width m ≡ big_endian width n
    → m ≡ n
unfolding big_endian
big_endian-injective zero m n hm hn e = omega arith
big_endian-injective (suc width) m n hm hn e =
    let (high, low) =
      append-injective (big_endian width (m / 256)) (big_endian width (n / 256)) ((m % 256) ∷ [])
        ((n % 256) ∷ [])
        (length-big_endian width (m / 256) ∙ sym (length-big_endian width (n / 256))) e in
    let tops : m / 256 ≡ n / 256 =
      big_endian-injective width (m / 256) (n / 256) (omega arith) (omega arith) high in
    let last : m % 256 ≡ n % 256 = cc in omega arith

-- An int64.
abbrev pub IsInt64 : ℤ → Type 0
IsInt64 x = (pos_part x < 2 ^ 63) × (neg_part x ≤ 2 ^ 63)

pub int64_bytes-injective :
    (x y : ℤ) → IsInt64 x → IsInt64 y → int64_bytes x ≡ int64_bytes y → x ≡ y
unfolding int64_bytes
int64_bytes-injective (pos m) (pos n) hx hy e =
    ap pos (
      omega (arith, big_endian-injective 8 (m % 2 ^ 64) (n % 2 ^ 64) (omega arith) (omega arith) e))
int64_bytes-injective (negsuc m) (negsuc n) hx hy e = ap negsuc (
    omega (
      arith,
      big_endian-injective 8 (2 ^ 64 - 1 - m % 2 ^ 64) (2 ^ 64 - 1 - n % 2 ^ 64) (omega arith)
          (omega arith) e,
    ))
int64_bytes-injective (pos m) (negsuc n) hx hy e = absurd (
    omega (
      arith,
      big_endian-injective 8 (m % 2 ^ 64) (2 ^ 64 - 1 - n % 2 ^ 64) (omega arith) (omega arith) e,
    ))
int64_bytes-injective (negsuc m) (pos n) hx hy e = absurd (
    omega (
      arith,
      big_endian-injective 8 (2 ^ 64 - 1 - m % 2 ^ 64) (n % 2 ^ 64) (omega arith) (omega arith) e,
    ))
