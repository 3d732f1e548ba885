-- ===== src/Tests/Verified.antt =====
-- The theorems on the verification of requests, applied to the sample data.
use photon_monitoring.Base.{
  ℕ, ℤ, pos, ◌≡◌, ◌↔◌, refl, sym, ap, ◌∙◌, Option, none, some, List, [], ◌∷◌, abs, arith, ◌<◌, ◌^◌,
  ltb, Bool-cases, inl, inr, length, ◌-ℤ◌,
}
use photon_monitoring.Base.Bytes.{big_endian, length-big_endian, big_endian-injective}
use photon_monitoring.World.{ret, World}
use photon_monitoring.Models.Dto.{ChannelFor3rd, Lock, Unlock, set_settle_block_number}
use photon_monitoring.Models.Monitor.{wrap64}
use photon_monitoring.Chain.Messages.{closing_message, unlock_message}
use photon_monitoring.Chain.Messages.Injective.{
  Spells32, IsInRange, SameProof, closing_message-injective, unlock_message-injective,
}
use photon_monitoring.Chain.Signatures.Spec.{IsAcceptable}
use photon_monitoring.Chain.Signatures.Unread.{with_unlocks, with_proofs, reproved}
use photon_monitoring.Chain.Verifier.{verify_delegate}
use photon_monitoring.Chain.Verifier.Accepted.{Accepted, verify_delegate-Accepted}
use photon_monitoring.Chain.Verifier.Unread.{
  verify_delegate-unlocks_unread, verify_delegate-proofs_unread,
}
use photon_monitoring.Tests.{test_platform, to_32_bytes, sample_world}

abbrev signed_lock : Lock
signed_lock = record { expiration = pos 80; amount = some (pos 2); lock_secret_hash = 21 }

abbrev signed_unlock : Unlock
signed_unlock = record { lock = some signed_lock; merkle_proof = []; signature = 7 ∷ [] }

-- A balance proof that the partner 8 and the delegator 7 have signed, and an unlock.
abbrev pub signed_request : ChannelFor3rd
signed_request = record {
  channel_identifier = 2;
  open_block_number = pos 1;
  token_address = 3;
  partner_address = 8;
  update_transfer = record {
    nonce = pos 7;
    transfer_amount = some (pos 9);
    locksroot = 11;
    extra_hash = 12;
    closing_signature = 8 ∷ [];
    non_closing_signature = 7 ∷ [];
  };
  unlocks = some signed_unlock ∷ [];
  punishes = [];
  annouce_disposed = [];
  secrets = some (record { secret = 31; register_block = pos 60 }) ∷ [];
  settle_block_number = pos 0;
}

-- Secrets alone, with an unlock that nobody has signed.
abbrev secret_request : ChannelFor3rd
secret_request = record signed_request {
  update_transfer = record signed_request.update_transfer { nonce = pos 0 };
  unlocks = [];
}

verify_delegate-Accepted_example :
    (verify_delegate signed_request 7 sample_world ≡ (
      ret (none, set_settle_block_number signed_request (pos 90)),
      record sample_world { outside = 2 },
    ))
    ↔ Accepted signed_request 7 sample_world
        (set_settle_block_number signed_request (pos 90))
        (record sample_world { outside = 2 })
verify_delegate-Accepted_example =
    verify_delegate-Accepted signed_request 7 sample_world
      (set_settle_block_number signed_request (pos 90)) (record sample_world { outside = 2 })

secret_request-IsAcceptable : IsAcceptable secret_request 7
secret_request-IsAcceptable = record {
  proof = λ e. absurd (cc);
  unlocks = λ e. absurd (cc);
  punishes = tt;
  disposes = tt;
  secrets = ((λ e. omega arith), tt);
  not_empty = inr (inr (inr (λ e. cc)));
}

abbrev settled_request : ChannelFor3rd
settled_request = set_settle_block_number secret_request (pos 90)

abbrev later_world : World
later_world = record sample_world { outside = 2 }

secret_request-accepted :
    verify_delegate secret_request 7 sample_world ≡ (ret (none, settled_request), later_world)
unfolding wrap64 ◌-ℤ◌
secret_request-accepted =
    (verify_delegate-Accepted secret_request 7 sample_world settled_request later_world).1 (record {
      info = record { settle_block_number = 90; open_block_number = 1 };
      has_network = refl;
      has_channel = refl;
      is_open = λ e. omega arith;
      same_opening = refl;
      parts = secret_request-IsAcceptable;
      settle = refl;
      outside_only = refl;
    })

-- The signed request, whose unlock has an empty Merkle proof.
signed_request-IsAcceptable : IsAcceptable signed_request 7
signed_request-IsAcceptable = record {
  proof = λ e. record {
    amount = big_endian 32 9;
    chain = big_endian 32 8888;
    amount_bytes = refl;
    chain_id_bytes = refl;
    closing = refl;
    other = λ e. omega (arith, e);
    non_closing = refl;
  };
  unlocks = λ e. (
    record {
      lock = signed_lock;
      value = pos 2;
      expiration = big_endian 32 80;
      amount = big_endian 32 2;
      chain = big_endian 32 8888;
      has_lock = refl;
      has_amount = refl;
      expiration_bytes = refl;
      amount_bytes = refl;
      chain_id_bytes = refl;
      signed = refl;
    },
    tt,
  );
  punishes = tt;
  disposes = tt;
  secrets = ((λ e. omega arith), tt);
  not_empty = inl refl;
}

signed_request-accepted :
    verify_delegate signed_request 7 sample_world
    ≡ (ret (none, set_settle_block_number signed_request (pos 90)), later_world)
unfolding wrap64 ◌-ℤ◌
signed_request-accepted =
    (verify_delegate-Accepted signed_request 7 sample_world
        (set_settle_block_number signed_request (pos 90)) later_world).1
      (record {
        info = record { settle_block_number = 90; open_block_number = 1 };
        has_network = refl;
        has_channel = refl;
        is_open = λ e. omega arith;
        same_opening = refl;
        parts = signed_request-IsAcceptable;
        settle = refl;
        outside_only = refl;
      })

abbrev some_path : Unlock → List ℕ
some_path u = 5 ∷ []

verify_delegate-proofs_unread_example :
    verify_delegate (reproved some_path signed_request) 7 sample_world ≡ (
      ret (
        none,
        with_unlocks
            (with_proofs some_path signed_request.unlocks)
            (set_settle_block_number signed_request (pos 90)),
      ),
      later_world,
    )
verify_delegate-proofs_unread_example =
    verify_delegate-proofs_unread some_path signed_request 7 sample_world
      (set_settle_block_number signed_request (pos 90)) later_world signed_request-accepted

verify_delegate-unlocks_unread_example :
    verify_delegate (with_unlocks (none ∷ []) secret_request) 7 sample_world
    ≡ (ret (none, with_unlocks (none ∷ []) settled_request), later_world)
verify_delegate-unlocks_unread_example =
    verify_delegate-unlocks_unread (none ∷ []) secret_request 7 sample_world settled_request
      later_world refl secret_request-accepted

to_32_some :
    (x : ℤ) (b : List ℕ)
    → to_32_bytes (some x) ≡ some b
    → (abs x < 2 ^ 256) × (b ≡ big_endian 32 (abs x))
to_32_some x b e = elim (Bool-cases (ltb (abs x) (2 ^ 256))) [
  | inl t ↦ (ground arith, cc (rw t at e))
  | inr t ↦ absurd (cc (rw t at e))
]

to_32-length : (o : Option ℤ) (b : List ℕ) → to_32_bytes o ≡ some b → length b ≡ 32
to_32-length none b e = absurd (cc)
to_32-length (some x) b e =
    let (_, same) = to_32_some x b e in ap length same ∙ length-big_endian 32 (abs x)

to_32_bytes-Spells32 : Spells32 to_32_bytes
to_32_bytes-Spells32 = record {
  length_32 = to_32-length;
  injective = λ x y b hx hy ex ey.
      let (bx, sx) = to_32_some x b ex in
      let (by, sy) = to_32_some y b ey in
      let same : abs x ≡ abs y =
        big_endian-injective 32 (abs x) (abs y) (omega arith) (omega arith) (sym sx ∙ sy) in
      ground (arith, same);
}

signed_request-IsInRange : IsInRange signed_request
signed_request-IsInRange = omega arith

closing_message-injective_example :
    SameProof signed_request (with_unlocks [] signed_request) × (◌≡◌ {A = ℕ} 12 12)
unfolding closing_message
closing_message-injective_example =
    closing_message-injective to_32_bytes-Spells32 signed_request (with_unlocks [] signed_request)
      signed_request-IsInRange (omega arith) (pos 9) (pos 9) (big_endian 32 9) (big_endian 32 9)
      (big_endian 32 8888) (omega arith) (omega arith) refl refl refl refl refl

unlock_message-injective_example :
    (◌≡◌ {A = ℤ} (pos 80) (pos 80))
    × (◌≡◌ {A = Option ℤ} (some (pos 2)) (some (pos 2)))
    × (◌≡◌ {A = ℕ} 21 21)
    × (◌≡◌ {A = ℕ} 2 2)
    × (◌≡◌ {A = ℤ} (pos 1) (pos 1))
unfolding unlock_message
unlock_message-injective_example =
    unlock_message-injective to_32_bytes-Spells32 signed_request (with_unlocks [] signed_request)
      signed_request-IsInRange (omega arith) signed_lock signed_lock (pos 2) (pos 2)
      (big_endian 32 80) (big_endian 32 80) (big_endian 32 2) (big_endian 32 2) (big_endian 32 8888)
      (omega arith) (omega arith) (omega arith) (omega arith) (omega arith) (omega arith) refl refl
      refl refl refl refl refl
