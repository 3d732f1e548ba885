-- ===== src/Models/Receive/Renewal.antt =====
-- What a request may replace of a delegate that is there.
use photon_monitoring.Base.{
  ℤ, ◌≡◌, inl, inr, true, false, Bool-cases, Option-cases, none, some, Option, ◌≤ℤ◌, eqb_ℤ, ltb_ℤ,
  int_laws, arith, List,
}
use photon_monitoring.Platform.{Platform, settings}
use photon_monitoring.World.{World, Outcome, ret, panicked}
use photon_monitoring.Models.Rows.{
  Message, open_block_not_equal, only_newer_nonce, Delegate, DelegateUnlock,
  DelegateUpdateBalanceProof,
}
use photon_monitoring.Models.Dto.{ChannelFor3rd}
use photon_monitoring.Models.Delegate.Saving.{
  update_balance_proof-has, set_unlocks-set_update_balance_proof,
}
use photon_monitoring.Models.Service.{is_init, get_delegate_update_balance_proof}
use photon_monitoring.Models.Service.Locks.{rows_of, get_delegate_unlocks-rows_of}
use photon_monitoring.Models.Receive.{renew_proofs, stamp, old_delegate}

-- The time and the last block, put on a delegate.
abbrev pub stamped : ℤ → ℤ → Delegate → Delegate
stamped time last d = record d { delegate_timestamp = time; delegate_block_number = last }

-- What the branch of updateDelegate for a delegate that is there comes to, at a time and a last
-- block: `old` is the proof that it has.
pub data Renewal ⦃p : Platform⦄ (c : ChannelFor3rd) (time last : ℤ) (d : Delegate)
    (old : DelegateUpdateBalanceProof) (r : Outcome (Option Message × Delegate)) : Type 0 where
  -- the request is about another opening of the channel
  another_channel :
      eqb_ℤ c.open_block_number d.open_block_number ≡ false
      → r ≡ ret (some (open_block_not_equal d.open_block_number c.open_block_number), d)
      → Renewal c time last d old r
  -- it is about the same opening, work has not begun, and its proof is older
  older :
      eqb_ℤ c.open_block_number d.open_block_number ≡ true
      → is_init d.status ≡ true
      → ltb_ℤ c.update_transfer.nonce old.nonce ≡ true
      → r ≡ ret (some (only_newer_nonce old.nonce c.update_transfer.nonce), d)
      → Renewal c time last d old r
  -- it is about the same opening, and work on the delegate has begun: it is stamped alone
  kept :
      eqb_ℤ c.open_block_number d.open_block_number ≡ true
      → is_init d.status ≡ false
      → r ≡ ret (none, stamped time last d)
      → Renewal c time last d old r
  -- it is about the same opening, work has not begun, and its proof is not older: its proof and its
  -- unlocks take the place of the old ones
  replaced :
      eqb_ℤ c.open_block_number d.open_block_number ≡ true
      → is_init d.status ≡ true
      → old.nonce ≤ℤ c.update_transfer.nonce
      → (us : List DelegateUnlock) → rows_of c.unlocks ≡ some us
      → r
        ≡ ret (
          none,
          stamped time last (record d {
            update_balance_proof_gob = some (get_delegate_update_balance_proof c);
            unlocks_gob = some us;
          }),
        )
      → Renewal c time last d old r
  -- the same, but an unlock of the request, or its lock, is null
  null_lock :
      eqb_ℤ c.open_block_number d.open_block_number ≡ true
      → is_init d.status ≡ true
      → old.nonce ≤ℤ c.update_transfer.nonce
      → rows_of c.unlocks ≡ none
      → r ≡ panicked
      → Renewal c time last d old r

module _ ⦃p : Platform⦄ (c : ChannelFor3rd) (last : ℤ) (d : Delegate)
    (old : DelegateUpdateBalanceProof) (w : World) (debug : settings.debug_mode ≡ false)
    (has : d.update_balance_proof_gob ≡ some old)
    (same : eqb_ℤ c.open_block_number d.open_block_number ≡ true) where
  abbrev time : ℤ
  time = (p.now w.outside).0

  begun : is_init d.status ≡ false → Renewal c time last d old (old_delegate c last d w).0
  unfolding old_delegate stamp
  begun later = kept same later (ground arith)

  newer :
      is_init d.status ≡ true
      → ltb_ℤ c.update_transfer.nonce old.nonce ≡ false
      → Renewal c time last d old (old_delegate c last d w).0
  unfolding old_delegate renew_proofs stamp
  newer first_state not_older =
      let read = get_delegate_unlocks-rows_of c.unlocks w in
      let has_old = update_balance_proof-has d old w has in
      elim (Option-cases (rows_of c.unlocks)) [
        | inl null ↦
            null_lock same first_state (grind (int_laws, not_older)) null
              (ground (arith, has_old, read, null))
        | inr (us, e) ↦ replaced same first_state (grind (int_laws, not_older)) us e (
            ground (
              arith,
              has_old,
              read,
              e,
              set_unlocks-set_update_balance_proof d (get_delegate_update_balance_proof c) us,
            ))
      ]

  same_channel : Renewal c time last d old (old_delegate c last d w).0
  unfolding old_delegate renew_proofs stamp
  same_channel = elim (Bool-cases (is_init d.status)) [
    | inr later ↦ begun later
    | inl first_state ↦ elim (Bool-cases (ltb_ℤ c.update_transfer.nonce old.nonce)) [
      | inr not_older ↦ newer first_state not_older
      | inl is_older ↦
          older same first_state is_older (ground (arith, update_balance_proof-has d old w has))
    ]
  ]

module _ ⦃p : Platform⦄ (c : ChannelFor3rd) (last : ℤ) (d : Delegate)
    (old : DelegateUpdateBalanceProof) (w : World) where
  -- A request for a delegate that is there and has its proof stored, outside debug mode, comes to
  -- exactly this: about another opening of the channel it is refused, with the delegate as it was;
  -- about the same opening, once work on the delegate has begun, proof and locks stay, and the
  -- delegate gets the time and the last block alone; before that a request with an older proof is
  -- refused, and one that is not older puts its proof and the rows of its unlocks in place of the
  -- old ones, or panics if one of the unlocks or its lock is null.
  pub old_delegate-Renewal :
      settings.debug_mode ≡ false
      → d.update_balance_proof_gob ≡ some old
      → Renewal c (p.now w.outside).0 last d old (old_delegate c last d w).0
  unfolding old_delegate
  old_delegate-Renewal debug has =
      elim (Bool-cases (eqb_ℤ c.open_block_number d.open_block_number)) [
        | inl same ↦ same_channel c last d old w debug has same
        | inr other ↦ another_channel other (ground arith)
      ]
