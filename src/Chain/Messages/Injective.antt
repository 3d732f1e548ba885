-- ===== src/Chain/Messages/Injective.antt =====
-- What a signature is about: equal messages come from equal parts of the requests.
use photon_monitoring.Base.{
  ℕ, ℤ, pos, ◌≡◌, sym, ap, ◌∙◌, ◌<◌, ◌^◌, ◌≤ℤ◌, Option, some, List, ◌++◌, length,
}
use photon_monitoring.Base.Bytes.{
  big_endian, int64_bytes, append-injective, length-big_endian, length-int64_bytes,
  big_endian-injective, int64_bytes-injective, IsInt64,
}
use photon_monitoring.Platform.{Platform}
use photon_monitoring.Models.Dto.{ChannelFor3rd, Lock}
use photon_monitoring.Chain.Messages.{closing_message, non_closing_message, unlock_message}

-- A hash has 32 bytes.
abbrev pub IsHash : ℕ → Type 0
IsHash n = n < 256 ^ 32

-- The ranges of the fields that are signed.
pub record IsInRange (c : ChannelFor3rd) : Type 0 where
  pub locksroot : IsHash c.update_transfer.locksroot
  pub extra_hash : IsHash c.update_transfer.extra_hash
  pub channel_identifier : IsHash c.channel_identifier
  pub nonce : IsInt64 c.update_transfer.nonce
  pub open_block_number : IsInt64 c.open_block_number

-- What is documented of BigIntTo32Bytes: 32 bytes, which spell a number that is not negative.
pub record Spells32 (f : Option ℤ → Option (List ℕ)) : Type 0 where
  pub length_32 : (x : Option ℤ) (b : List ℕ) → f x ≡ some b → length b ≡ 32
  pub injective :
      (x y : ℤ) (b : List ℕ)
      → pos 0 ≤ℤ x
      → pos 0 ≤ℤ y
      → f (some x) ≡ some b
      → f (some y) ≡ some b
      → x ≡ y

-- The two requests have the same balance proof, of one opening of one channel.
pub record SameProof (c c' : ChannelFor3rd) : Type 0 where
  pub nonce : c.update_transfer.nonce ≡ c'.update_transfer.nonce
  pub amount : c.update_transfer.transfer_amount ≡ c'.update_transfer.transfer_amount
  pub locksroot : c.update_transfer.locksroot ≡ c'.update_transfer.locksroot
  pub channel : c.channel_identifier ≡ c'.channel_identifier
  pub opening : c.open_block_number ≡ c'.open_block_number

-- One part after another, each of a known length.
same_hash :
    (m n : ℕ) (us vs : List ℕ)
    → IsHash m
    → IsHash n
    → big_endian 32 m ++ us ≡ big_endian 32 n ++ vs
    → (m ≡ n) × (us ≡ vs)
same_hash m n us vs hm hn e =
    let (a, b) =
      append-injective (big_endian 32 m) (big_endian 32 n) us vs
        (length-big_endian 32 m ∙ sym (length-big_endian 32 n)) e in
    (big_endian-injective 32 m n hm hn a, b)

same_int64 :
    (x y : ℤ) (us vs : List ℕ)
    → IsInt64 x
    → IsInt64 y
    → int64_bytes x ++ us ≡ int64_bytes y ++ vs
    → (x ≡ y) × (us ≡ vs)
same_int64 x y us vs hx hy e =
    let (a, b) =
      append-injective (int64_bytes x) (int64_bytes y) us vs
        (length-int64_bytes x ∙ sym (length-int64_bytes y)) e in
    (int64_bytes-injective x y hx hy a, b)

module _ (f : Option ℤ → Option (List ℕ)) (spells : Spells32 f) where
  same_number :
      (x y : ℤ) (a b us vs : List ℕ)
      → pos 0 ≤ℤ x
      → pos 0 ≤ℤ y
      → f (some x) ≡ some a
      → f (some y) ≡ some b
      → a ++ us ≡ b ++ vs
      → (x ≡ y) × (us ≡ vs)
  same_number x y a b us vs hx hy ea eb e =
      let (same, rest) =
        append-injective a b us vs
          (spells.length_32 (some x) a ea ∙ sym (spells.length_32 (some y) b eb)) e in
      (spells.injective x y b hx hy (ea ∙ ap some same) eb, rest)

same_prefix : (xs us vs : List ℕ) → xs ++ us ≡ xs ++ vs → us ≡ vs
same_prefix xs us vs e = (append-injective xs xs us vs (λ i. length xs) e).1

module _ ⦃p : Platform⦄ (spells : Spells32 p.big_int_to_32_bytes) (c c' : ChannelFor3rd)
    (r : IsInRange c) (r' : IsInRange c') where
  module _ (x y : ℤ) (a b chain : List ℕ) (hx : pos 0 ≤ℤ x) (hy : pos 0 ≤ℤ y)
      (ex : c.update_transfer.transfer_amount ≡ some x)
      (ey : c'.update_transfer.transfer_amount ≡ some y)
      (ea : p.big_int_to_32_bytes (some x) ≡ some a)
      (eb : p.big_int_to_32_bytes (some y) ≡ some b) where
    -- A signature of the partner fixes the balance proof, its extra hash and the opening of the
    -- channel: where the messages of two requests are equal, these are equal, for hashes of 32
    -- bytes, int64 numbers, and amounts that are not negative and fit in 32 bytes.
    pub closing_message-injective :
        closing_message c a chain ≡ closing_message c' b chain
        → SameProof c c' × (c.update_transfer.extra_hash ≡ c'.update_transfer.extra_hash)
    unfolding closing_message
    closing_message-injective e =
        let e = same_prefix p.signature_prefix _ _ e in
        let e = same_prefix p.balance_proof_length _ _ e in
        let (amount, e) = same_number p.big_int_to_32_bytes spells x y a b _ _ hx hy ea eb e in
        let (root, e) = same_hash _ _ _ _ r.locksroot r'.locksroot e in
        let (nonce, e) = same_int64 _ _ _ _ r.nonce r'.nonce e in
        let (extra, e) = same_hash _ _ _ _ r.extra_hash r'.extra_hash e in
        let (channel, e) = same_hash _ _ _ _ r.channel_identifier r'.channel_identifier e in
        let (opening, e) = same_int64 _ _ _ _ r.open_block_number r'.open_block_number e in
        (
          record {
            nonce = nonce;
            amount = ex ∙ ap some amount ∙ sym ey;
            locksroot = root;
            channel = channel;
            opening = opening;
          },
          extra,
        )

    -- So does the signature by which the delegator hands the proof over, but for the extra hash.
    pub non_closing_message-injective :
        non_closing_message c a chain ≡ non_closing_message c' b chain → SameProof c c'
    unfolding non_closing_message
    non_closing_message-injective e =
        let e = same_prefix p.signature_prefix _ _ e in
        let e = same_prefix p.balance_proof_delegate_length _ _ e in
        let (amount, e) = same_number p.big_int_to_32_bytes spells x y a b _ _ hx hy ea eb e in
        let (root, e) = same_hash _ _ _ _ r.locksroot r'.locksroot e in
        let (nonce, e) = same_int64 _ _ _ _ r.nonce r'.nonce e in
        let (channel, e) = same_hash _ _ _ _ r.channel_identifier r'.channel_identifier e in
        let (opening, e) = same_int64 _ _ _ _ r.open_block_number r'.open_block_number e in
        record {
          nonce = nonce;
          amount = ex ∙ ap some amount ∙ sym ey;
          locksroot = root;
          channel = channel;
          opening = opening;
        }

  -- The delegator's signature of an unlock fixes the lock and the opening of the channel: where the
  -- messages of two unlocks are equal, so are their locks' expiration, amount and secret hash.
  pub unlock_message-injective :
      (l l' : Lock) (x y : ℤ) (t s a b chain : List ℕ)
      → IsHash l.lock_secret_hash
      → IsHash l'.lock_secret_hash
      → pos 0 ≤ℤ l.expiration
      → pos 0 ≤ℤ l'.expiration
      → pos 0 ≤ℤ x
      → pos 0 ≤ℤ y
      → l.amount ≡ some x
      → l'.amount ≡ some y
      → p.big_int_to_32_bytes (some l.expiration) ≡ some t
      → p.big_int_to_32_bytes (some l'.expiration) ≡ some s
      → p.big_int_to_32_bytes (some x) ≡ some a
      → p.big_int_to_32_bytes (some y) ≡ some b
      → unlock_message c l t a chain ≡ unlock_message c' l' s b chain
      → (l.expiration ≡ l'.expiration)
        × (l.amount ≡ l'.amount)
        × (l.lock_secret_hash ≡ l'.lock_secret_hash)
        × (c.channel_identifier ≡ c'.channel_identifier)
        × (c.open_block_number ≡ c'.open_block_number)
  unfolding unlock_message
  unlock_message-injective l l' x y t s a b chain hl hl' ht hs hx hy ex ey et es ea eb e =
      let e = same_prefix p.signature_prefix _ _ e in
      let e = same_prefix p.unlock_delegate_proof_length _ _ e in
      let e = same_prefix (big_endian 20 p.node_address) _ _ e in
      let (expiration, e) = same_number p.big_int_to_32_bytes spells _ _ t s _ _ ht hs et es e in
      let (amount, e) = same_number p.big_int_to_32_bytes spells x y a b _ _ hx hy ea eb e in
      let (secret, e) = same_hash _ _ _ _ hl hl' e in
      let (channel, e) = same_hash _ _ _ _ r.channel_identifier r'.channel_identifier e in
      let (opening, e) = same_int64 _ _ _ _ r.open_block_number r'.open_block_number e in
      (expiration, ex ∙ ap some amount ∙ sym ey, secret, channel, opening)
