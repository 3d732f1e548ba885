-- ===== src/Chain/Verifier/Accepted.antt =====
-- VerifyDelegate accepts a request exactly when it is open on the chain and all its parts are
-- signed as they should be.
use photon_monitoring.Base.{
  ℕ, pos, ◌≡◌, ◌≢◌, ◌↔◌, refl, sym, ap, Option, none, some, List, [], ◌∷◌, arith, ltb_ℤ, eqb_ℤ,
  eqb_ℤ_iff, true, false, Bool, Bool-cases, inl, inr, if◌then◌else◌, ◌==◌, Text,
}
use photon_monitoring.Platform.{Platform, ChannelInfo, Reply, reply, reply_err}
use photon_monitoring.World.{World, Outcome, ret, panicked, resume}
use photon_monitoring.Models.Rows.{Message, empty_delegate_err}
use photon_monitoring.Models.Dto.{ChannelFor3rd, set_settle_block_number}
use photon_monitoring.Models.Monitor.{wrap64}
use photon_monitoring.Chain.Signatures.{
  verify_update_transfer, verify_punishes, verify_annouce_disposed, verify_secrets,
}
use photon_monitoring.Chain.Signatures.Spec.{IsAcceptable, HasParts}
use photon_monitoring.Chain.Signatures.Sound.{
  check-none, verify_update_transfer_sound, verify_punishes_sound, verify_annouce_disposed_sound,
  verify_secrets_sound,
}
use photon_monitoring.Chain.Signatures.Complete.{
  check-both, verify_update_transfer_complete, verify_punishes_complete,
  verify_annouce_disposed_complete, verify_secrets_complete,
}
use photon_monitoring.Chain.Verifier.{
  is_empty, is_empty_delegate, verify_parts, accept, on_channel, on_network, verify_delegate,
}

is_empty-ne-nil {ℓ} : {A : Type ℓ} (xs : List A) → is_empty xs ≡ false → xs ≢ []
is_empty-ne-nil [] h = absurd (cc)
is_empty-ne-nil (x ∷ xs) h = λ e. cc

ne_nil-is_empty {ℓ} : {A : Type ℓ} (xs : List A) → xs ≢ [] → is_empty xs ≡ false
ne_nil-is_empty [] h = absurd (h refl)
ne_nil-is_empty (x ∷ xs) h = refl

module _ ⦃p : Platform⦄ where
  has_parts : (c : ChannelFor3rd) → is_empty_delegate c ≡ false → HasParts c
  unfolding is_empty_delegate
  has_parts c h = elim (Bool-cases (ltb_ℤ (pos 0) c.update_transfer.nonce)) [
    | inl e ↦ inl e
    | inr e ↦ elim (Bool-cases (is_empty c.punishes)) [
      | inr e' ↦ inr (inl (is_empty-ne-nil c.punishes e'))
      | inl e' ↦ elim (Bool-cases (is_empty c.annouce_disposed)) [
        | inr e2 ↦ inr (inr (inl (is_empty-ne-nil c.annouce_disposed e2)))
        | inl e2 ↦ inr (inr (inr (is_empty-ne-nil c.secrets (rw (e, e', e2) at h))))
      ]
    ]
  ]

  not_empty : (c : ChannelFor3rd) → HasParts c → is_empty_delegate c ≡ false
  unfolding is_empty_delegate
  not_empty c (inl e) = ground arith
  not_empty c (inr (inl h)) = ground (arith, ne_nil-is_empty c.punishes h)
  not_empty c (inr (inr (inl h))) = ground (arith, ne_nil-is_empty c.annouce_disposed h)
  not_empty c (inr (inr (inr h))) = ground (arith, ne_nil-is_empty c.secrets h)

  ret-none : {A : Type 0} (o : Option A) → ret o ≡ ret none → o ≡ none
  ret-none o h = cc

  refused_if :
      (b : Bool) (e : Message)
      → ◌≡◌ {A = Outcome (Option Message)} (ret (if b then some e else none)) (ret none)
      → b ≡ false
  refused_if true e h = absurd (cc)
  refused_if false e h = refl

  pub verify_parts_sound :
      (c : ChannelFor3rd) (delegator : ℕ)
      → verify_parts c delegator ≡ ret none
      → IsAcceptable c delegator
  unfolding verify_parts
  verify_parts_sound c delegator h =
      let proof =
        if ltb_ℤ (pos 0) c.update_transfer.nonce
        then verify_update_transfer c delegator
        else ret none in
      let (e1, h) = check-none proof _ h in
      let (e2, h) = check-none (verify_punishes c c.punishes) _ h in
      let (e3, h) = check-none (ret (verify_annouce_disposed c.annouce_disposed)) _ h in
      let (e4, h) = check-none (ret (verify_secrets c.secrets)) _ h in
      let filled : is_empty_delegate c ≡ false =
        refused_if (is_empty_delegate c) empty_delegate_err h in
      record {
        proof = λ t. (verify_update_transfer_sound c delegator (rw t at e1)).0;
        unlocks = λ t. (verify_update_transfer_sound c delegator (rw t at e1)).1;
        punishes = verify_punishes_sound c c.punishes e2;
        disposes =
            verify_annouce_disposed_sound c.annouce_disposed
              (ret-none (verify_annouce_disposed c.annouce_disposed) e3);
        secrets = verify_secrets_sound c.secrets (ret-none (verify_secrets c.secrets) e4);
        not_empty = has_parts c filled;
      }

  pub verify_parts_complete :
      (c : ChannelFor3rd) (delegator : ℕ)
      → IsAcceptable c delegator
      → verify_parts c delegator ≡ ret none
  unfolding verify_parts
  verify_parts_complete c delegator s =
      check-both _ _
        (elim (Bool-cases (ltb_ℤ (pos 0) c.update_transfer.nonce)) [
          | inl t ↦ rw t (verify_update_transfer_complete c delegator t (s.proof t) (s.unlocks t))
          | inr t ↦ rw t refl
        ])
        (check-both _ _ (verify_punishes_complete c c.punishes s.punishes) (
          check-both _ _ (ap ret (verify_annouce_disposed_complete c.annouce_disposed s.disposes)) (
            check-both _ _ (ap ret (verify_secrets_complete c.secrets s.secrets))
              (rw (not_empty c s.not_empty) refl))))

module _ ⦃p : Platform⦄ (c : ChannelFor3rd) (delegator : ℕ) (w : World) where
  -- What the chain answers: of the token's network, and of the channel.
  abbrev network : Option Text × p.Outside
  network = p.token_network c.token_address w.outside

  abbrev answer : Reply ChannelInfo × p.Outside
  answer = p.channel_info c.token_address c.channel_identifier network.1

  -- The channel is the one that is open on the chain, and the parts of the request are acceptable.
  -- The request gets the settle block of the chain; nothing changes but the state outside.
  pub record Accepted (c' : ChannelFor3rd) (v : World) : Type 0 where
    pub info : ChannelInfo
    pub has_network : network.0 ≡ none
    pub has_channel : answer.0 ≡ reply info
    pub is_open : info.open_block_number ≢ 0
    pub same_opening : c.open_block_number ≡ wrap64 (pos info.open_block_number)
    pub parts : IsAcceptable c delegator
    pub settle : c' ≡ set_settle_block_number c (wrap64 (pos info.settle_block_number))
    pub outside_only : v ≡ record w { outside = answer.1 }

  module _ (c' : ChannelFor3rd) (v : World) where
    parts-Accepted :
        (i : ChannelInfo) (r : Outcome (Option Message)) (u : World)
        → r ≡ verify_parts c delegator
        → network.0 ≡ none
        → answer.0 ≡ reply i
        → i.open_block_number ≢ 0
        → c.open_block_number ≡ wrap64 (pos i.open_block_number)
        → u ≡ record w { outside = answer.1 }
        → resume r (accept c (wrap64 (pos i.settle_block_number))) u ≡ (ret (none, c'), v)
        → Accepted c' v
    parts-Accepted i (ret none) u e n a o s same h = record {
      info = i;
      has_network = n;
      has_channel = a;
      is_open = o;
      same_opening = s;
      parts = verify_parts_sound c delegator (sym e);
      settle = cc;
      outside_only = cc;
    }
    parts-Accepted i (ret (some x)) u e n a o s same h = absurd (cc)
    parts-Accepted i panicked u e n a o s same h = absurd (cc)

    answer-Accepted :
        (e : Option Text) (r : Reply ChannelInfo)
        → network.0 ≡ e
        → answer.0 ≡ r
        → verify_delegate c delegator w ≡ (ret (none, c'), v)
        → Accepted c' v
    unfolding verify_delegate on_network on_channel
    answer-Accepted (some t) r n a h = absurd (cc (rw n at h))
    answer-Accepted none (reply_err t) n a h = absurd (cc (rw (n, a) at h))
    answer-Accepted none (reply i) n a h =
        let h = rw (n, a) at h in
        elim (Bool-cases (i.open_block_number == 0)) [
          | inl e ↦ absurd (cc (rw e at h))
          | inr e ↦
              elim (Bool-cases (eqb_ℤ c.open_block_number (wrap64 (pos i.open_block_number)))) [
                | inl e' ↦
                    parts-Accepted i (verify_parts c delegator) (record w { outside = answer.1 })
                      refl n a (λ z. ground arith) ((eqb_ℤ_iff _ _).0 e') refl (rw (e, e') at h)
                | inr e' ↦ absurd (cc (rw (e, e') at h))
              ]
        ]

    accepts : Accepted c' v → verify_delegate c delegator w ≡ (ret (none, c'), v)
    unfolding verify_delegate on_network on_channel
    accepts s =
        let open' : (s.info.open_block_number == 0) ≡ false = ground (arith, s.is_open) in
        let same' = (eqb_ℤ_iff _ _).1 s.same_opening in
        rw
          (
            s.has_network,
            s.has_channel,
            open',
            same',
            verify_parts_complete c delegator s.parts,
            s.settle,
            s.outside_only,
          )
          refl

    -- VerifyDelegate returns without an error exactly for a request whose channel has the opening
    -- that it has on the chain and whose parts are acceptable: a balance proof that the partner and
    -- the delegator have signed, unlocks that the delegator has signed, punishes that the partner
    -- has signed, disposes and secrets that are not blank, and a proof, a punish, a dispose or a
    -- secret. The unlocks are checked only under a proof of positive nonce, and of them only the
    -- signatures: not their Merkle proofs against the locks root, nor a secret against the hash of
    -- its lock. Then the request has the settle block of the chain, and the database is as it was.
    pub verify_delegate-Accepted :
        (verify_delegate c delegator w ≡ (ret (none, c'), v)) ↔ Accepted c' v
    verify_delegate-Accepted = (λ h. answer-Accepted network.0 answer.0 refl refl h, accepts)
