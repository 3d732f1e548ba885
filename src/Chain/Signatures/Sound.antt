-- ===== src/Chain/Signatures/Sound.antt =====
-- A check that passes shows that its part of the request is signed as it should be.
use photon_monitoring.Base.{
  ℕ, ℤ, pos, ◌≡◌, ◌≢◌, refl, Option, none, some, List, [], ◌∷◌, arith, leb_ℤ, true, false, Bool,
  Bool-cases, inl, inr, Option-cases, if◌then◌else◌, ◌==◌, ◌||◌, not,
}
use photon_monitoring.Platform.{Platform, Reply, reply, reply_err}
use photon_monitoring.World.{Outcome, ret, panicked}
use photon_monitoring.Models.Rows.{Message}
use photon_monitoring.Models.Dto.{ChannelFor3rd, Lock, Unlock, Punish, AnnouceDisposed, Secret}
use photon_monitoring.Chain.Messages.{
  closing_message, non_closing_message, unlock_message, punish_message,
}
use photon_monitoring.Chain.Signatures.{
  ◌>>=◌, check, need, on_signer, recover, chain_bytes, verify_non_closing_signature, verify_lock,
  verify_unlock, verify_unlocks, verify_punish, verify_punishes, verify_closing_signature,
  verify_closing, verify_update_transfer, verify_annouce_disposed, verify_secrets,
}
use photon_monitoring.Chain.Signatures.Spec.{ProofSigned, UnlockSigned, PunishSigned, Each}

pub check-none :
    (m k : Outcome (Option Message)) → check m k ≡ ret none → (m ≡ ret none) × (k ≡ ret none)
check-none (ret none) k h = (refl, h)
check-none (ret (some e)) k h = absurd (cc)
check-none panicked k h = absurd (cc)

need-ret {ℓ κ} :
    {A : Type ℓ} {B : Type κ} (o : Option A) (f : A → Outcome B) {b : B}
    → (need o >>= f) ≡ ret b
    → (a : A) × (o ≡ some a) × (f a ≡ ret b)
need-ret none f h = absurd (cc)
need-ret (some a) f h = (a, refl, h)

on_signer-none :
    (r : Reply ℕ) (f : ℕ → Outcome (Option Message))
    → on_signer r f ≡ ret none
    → (a : ℕ) × (r ≡ reply a) × (f a ≡ ret none)
on_signer-none (reply_err e) f h = absurd (cc)
on_signer-none (reply a) f h = (a, refl, h)

is_signer : (a b : ℕ) (e : Message) → (if a == b then ret none else ret (some e)) ≡ ret none → a ≡ b
is_signer a b e h = ground arith

module _ ⦃p : Platform⦄ where
  verify_lock_sound :
      (c : ChannelFor3rd) (delegator : ℕ) (u : Unlock) (l : Lock) (x : ℤ)
      → u.lock ≡ some l
      → l.amount ≡ some x
      → verify_lock c delegator u l x ≡ ret none
      → UnlockSigned c delegator u
  unfolding verify_lock
  verify_lock_sound c delegator u l x hl hx h =
      let (expiration, he, h) = need-ret (p.big_int_to_32_bytes (some l.expiration)) _ h in
      let (amount, ha, h) = need-ret (p.big_int_to_32_bytes (some x)) _ h in
      let (chain, hc, h) = need-ret chain_bytes _ h in
      let (signer, hs, h) =
        on_signer-none (recover (unlock_message c l expiration amount chain) u.signature) _ h in
      record {
        lock = l;
        value = x;
        expiration = expiration;
        amount = amount;
        chain = chain;
        has_lock = hl;
        has_amount = hx;
        expiration_bytes = he;
        amount_bytes = ha;
        chain_id_bytes = hc;
        signed = rw (is_signer signer delegator _ h) at hs;
      }

  verify_unlock_sound :
      (c : ChannelFor3rd) (delegator : ℕ) (u : Unlock)
      → verify_unlock c delegator u ≡ ret none
      → UnlockSigned c delegator u
  unfolding verify_unlock
  verify_unlock_sound c delegator u h = elim (Option-cases u.lock) [
    | inl e ↦ absurd (cc (rw e at h))
    | inr (l, e) ↦ elim (Option-cases l.amount) [
      | inl e' ↦ absurd (cc (rw (e, e') at h))
      | inr (x, e') ↦ verify_lock_sound c delegator u l x e e' (rw (e, e') at h)
    ]
  ]

  pub verify_unlocks_sound :
      (c : ChannelFor3rd) (delegator : ℕ) (us : List (Option Unlock))
      → verify_unlocks c delegator us ≡ ret none
      → Each (λ u. UnlockSigned c delegator u) us
  unfolding verify_unlocks
  verify_unlocks_sound c delegator [] h = tt
  verify_unlocks_sound c delegator (none ∷ us) h = absurd (cc)
  verify_unlocks_sound c delegator (some u ∷ us) h =
      let (one, rest) = check-none (verify_unlock c delegator u) _ h in
      (verify_unlock_sound c delegator u one, verify_unlocks_sound c delegator us rest)

  verify_punish_sound :
      (c : ChannelFor3rd) (x : Punish) → verify_punish c x ≡ ret none → PunishSigned c x
  unfolding verify_punish
  verify_punish_sound c x h =
      let (chain, hc, h) = need-ret chain_bytes _ h in
      let (signer, hs, h) = on_signer-none (recover (punish_message c x chain) x.signature) _ h in
      record {
        chain = chain;
        chain_id_bytes = hc;
        signed = rw (is_signer signer c.partner_address _ h) at hs;
      }

  pub verify_punishes_sound :
      (c : ChannelFor3rd) (xs : List (Option Punish))
      → verify_punishes c xs ≡ ret none
      → Each (λ x. PunishSigned c x) xs
  unfolding verify_punishes
  verify_punishes_sound c [] h = tt
  verify_punishes_sound c (none ∷ xs) h = absurd (cc)
  verify_punishes_sound c (some x ∷ xs) h =
      let (one, rest) = check-none (verify_punish c x) _ h in
      (verify_punish_sound c x one, verify_punishes_sound c xs rest)

  abbrev Closing : ChannelFor3rd → ℕ → List ℕ → List ℕ → Type 0
  Closing c delegator amount chain =
      (p.big_int_to_32_bytes c.update_transfer.transfer_amount ≡ some amount)
      × (chain_bytes ≡ some chain)
      × (recover (closing_message c amount chain) c.update_transfer.closing_signature
          ≡ reply c.partner_address)
      × (c.partner_address ≢ delegator)

  is_other :
      (a b delegator : ℕ) (e : Message)
      → (if not (a == b) || a == delegator then ret (some e) else ret none) ≡ ret none
      → (a ≡ b) × (b ≢ delegator)
  is_other a b delegator e h = (ground arith, λ same. ground arith)

  verify_closing_sound :
      (c : ChannelFor3rd) (delegator : ℕ)
      → verify_closing c delegator ≡ ret none
      → (amount : List ℕ) × (chain : List ℕ) × Closing c delegator amount chain
  unfolding verify_closing verify_closing_signature
  verify_closing_sound c delegator h = elim (Bool-cases (leb_ℤ c.update_transfer.nonce (pos 0))) [
    | inl e ↦ absurd (cc (rw e at h))
    | inr e ↦
        let h = rw e at h in
        elim (Option-cases (p.big_int_to_32_bytes c.update_transfer.transfer_amount)) [
          | inl e1 ↦ absurd (cc (rw e1 at h))
          | inr (amount, e1) ↦ elim (Option-cases chain_bytes) [
            | inl e2 ↦ absurd (cc (rw (e1, e2) at h))
            | inr (chain, e2) ↦
                let (signer, hs, h) =
                  on_signer-none
                    (recover (closing_message c amount chain) c.update_transfer.closing_signature) _
                    (rw (e1, e2) at h) in
                let (same, other) = is_other signer c.partner_address delegator _ h in
                (amount, chain, (e1, e2, rw same at hs, other))
          ]
        ]
  ]

  non_closing_sound :
      (r : Reply ℕ) (delegator : ℕ)
      → elim r [ reply signer ↦ signer == delegator | reply_err e ↦ false ] ≡ true
      → r ≡ reply delegator
  non_closing_sound (reply signer) delegator h =
      let same : signer ≡ delegator = ground arith in rw same refl
  non_closing_sound (reply_err e) delegator h = absurd (cc)

  pub verify_update_transfer_sound :
      (c : ChannelFor3rd) (delegator : ℕ)
      → verify_update_transfer c delegator ≡ ret none
      → ProofSigned c delegator × Each (λ u. UnlockSigned c delegator u) c.unlocks
  unfolding verify_update_transfer verify_non_closing_signature
  verify_update_transfer_sound c delegator h =
      let (closing, rest) = check-none (verify_closing c delegator) _ h in
      let (amount, chain, (e1, e2, signed, other)) = verify_closing_sound c delegator closing in
      let r =
        recover (non_closing_message c amount chain) c.update_transfer.non_closing_signature in
      let ok : Bool = elim r [ reply signer ↦ signer == delegator | reply_err e ↦ false ] in
      let rest = rw (e1, e2) at rest in
      elim (Bool-cases ok) [
        | inl t ↦ (
          record {
            amount = amount;
            chain = chain;
            amount_bytes = e1;
            chain_id_bytes = e2;
            closing = signed;
            other = other;
            non_closing = non_closing_sound r delegator t;
          },
          verify_unlocks_sound c delegator c.unlocks (rw t at rest),
        )
        | inr t ↦ absurd (cc (rw t at rest))
      ]

pub verify_annouce_disposed_sound :
    (xs : List (Option AnnouceDisposed))
    → verify_annouce_disposed xs ≡ none
    → Each (λ x. x.lock_secret_hash ≢ 0) xs
unfolding verify_annouce_disposed
verify_annouce_disposed_sound [] h = tt
verify_annouce_disposed_sound (none ∷ xs) h = absurd (cc)
verify_annouce_disposed_sound (some x ∷ xs) h = elim (Bool-cases (x.lock_secret_hash == 0)) [
  | inl e ↦ absurd (cc (rw e at h))
  | inr e ↦ (λ zero'. ground arith, verify_annouce_disposed_sound xs (rw e at h))
]

pub verify_secrets_sound :
    (xs : List (Option Secret)) → verify_secrets xs ≡ none → Each (λ x. x.secret ≢ 0) xs
unfolding verify_secrets
verify_secrets_sound [] h = tt
verify_secrets_sound (none ∷ xs) h = absurd (cc)
verify_secrets_sound (some x ∷ xs) h = elim (Bool-cases (x.secret == 0)) [
  | inl e ↦ absurd (cc (rw e at h))
  | inr e ↦ (λ zero'. ground arith, verify_secrets_sound xs (rw e at h))
]
