-- ===== src/Chain/Unlocks/Status.antt =====
-- What doDelegateUnlocks charges for the locks of a delegate, and the status that it leaves.
use photon_monitoring.Base.{
  ℕ, ◌*◌, ℤ, pos, ◌≡◌, refl, sym, subst, ap, ◌∙◌, false, none, some, Option, List, ◌∷◌, ◌≤ℤ◌, ◌*ℤ◌,
  ◌==◌, int_laws, arith, length, select, upsert,
}
use photon_monitoring.Orm.{IsDocumented}
use photon_monitoring.Platform.{Platform, settings}
use photon_monitoring.Utils.{string_to_big_int}
use photon_monitoring.World.{World, Outcome, resume, ret}
use photon_monitoring.World.Total.{IsHealthy, Returns}
use photon_monitoring.Models.Rows.{
  Account, Delegate, DelegateUnlock, DelegateAnnounceDispose, DelegateUpdateBalanceProof, Message,
}
use photon_monitoring.Models.Account.{account_available, account_lock_smt}
use photon_monitoring.Models.Account.Rules.{account_of, read, Sets}
use photon_monitoring.Models.Account.Solvency.{IsSolvent, locked, locked-IsSolvent}
use photon_monitoring.Models.Account.Total.{lock-Moves, Sets-self}
use photon_monitoring.Models.Delegate.{has_key, update_object}
use photon_monitoring.Models.Delegate.Saving.{
  update_object-saves, update_balance_proof-has, unlocks-has, disposes-found,
}
use photon_monitoring.Chain.Unlocks.{
  Tally, unlocked_status, unlock_locked, unlock_all, unlock_cost, or_panic, do_delegate_unlocks,
}
use photon_monitoring.Chain.Unlocks.Charges.{unlock_each-charges}
use photon_monitoring.Chain.Unlocks.Charged.{Charged, charged, granted}
use photon_monitoring.Chain.Unlocks.Frame.{unlock_each-Keeps}
use photon_monitoring.Chain.Unlocks.Outcomes.{
  ended, billed, billed_after_lock, unlocked_status-ended, ended-key, Ended, times_fee,
}

module _ ⦃p : Platform⦄ where
  abbrev delegates_of : World → p.gorm.Table Delegate
  delegates_of w = w.db.delegates

  -- The disposes of a delegate, as the table has them.
  abbrev pub disposes_of : Delegate → World → List DelegateAnnounceDispose
  disposes_of d w = select (λ x. x.delegate_key == d.key) (p.gorm.rows w.db.announce_disposes)

module _ ⦃p : Platform⦄ (g : IsDocumented p.gorm) (d : Delegate) (fee : ℕ)
    (charge : settings.smt_unlock ≡ pos fee) where
  abbrev delegator_of : ℕ
  delegator_of = p.text_address d.delegator_address_str

  abbrev no_tally : Tally
  no_tally = record { has_err = false; has_success = false }

  -- The row is saved with the status of the tally.
  saved_status :
      (du : DelegateUnlock) (dus : List DelegateUnlock) (n : ℕ) (t : Tally) (w v : World)
      → v.db.delegates ≡ w.db.delegates
      → Charged delegator_of fee (length (du ∷ dus)) n no_tally t w v
      → Returns (update_object (unlocked_status t d)) v (λ _ z.
        Ended d
          (length (du ∷ dus))
          n
          (λ n. charged fee (length (du ∷ dus)) n (account_of w delegator_of))
          w
          z)
  saved_status du dus n t w v same c =
      let e = unlocked_status-ended n (length dus) t d c.bounded c.success c.failure in
      let (_, z, run, ((rows', frame), hz)) =
        update_object-saves g (ended n (length (du ∷ dus)) d) v c.healthy in
      let accounts' : z.db.accounts ≡ v.db.accounts = ap (λ (x : World). x.db.accounts) frame in
      let at : (b : ℕ) → account_of z b ≡ account_of v b =
        λ b. ap (λ x. read b (p.gorm.rows x)) accounts' in
      (
        tt,
        z,
        ap (λ x. update_object x v) e ∙ run,
        record {
          bounded = c.bounded;
          healthy = hz;
          account = λ b. at b ∙ c.account b;
          solvent = subst IsSolvent (sym (at delegator_of)) c.solvent;
          row =
              rows'
              ∙ ap
                  (λ k.
                    upsert (has_key k) (ended n (length (du ∷ dus)) d) (p.gorm.rows v.db.delegates))
                  (ended-key n (length (du ∷ dus)) d)
              ∙ ap (λ x. upsert (has_key d.key) (ended n (length (du ∷ dus)) d) (p.gorm.rows x))
                  same;
        },
      )

  unlock_locked-ends :
      (x : ℤ) (das : List DelegateAnnounceDispose) (du : DelegateUnlock) (dus : List DelegateUnlock)
      (w : World)
      → IsHealthy w
      → IsSolvent (account_of w delegator_of)
      → pos (length (du ∷ dus) * fee) ≤ℤ (account_of w delegator_of).locked_smt
      → Returns (unlock_locked d x das (du ∷ dus) none) w (λ _ z.
        Ended d
          (length (du ∷ dus))
          (granted d x das (du ∷ dus) w.outside).0
          (λ n. charged fee (length (du ∷ dus)) n (account_of w delegator_of))
          w
          z)
  unfolding unlock_locked
  unlock_locked-ends x das du dus w h solvent fits =
      let (t, v, run, c) =
        unlock_each-charges g d x das fee charge (du ∷ dus) no_tally w h solvent fits in
      let keep =
        (unlock_each-Keeps {f = delegates_of} (λ A f. record { at = λ u. refl })
            (λ f. record { at = λ u. refl }) (λ f. record { at = λ u. refl }) d x das no_tally
            (du ∷ dus)).at
          w in
      let (r, z, run', q) =
        saved_status du dus (granted d x das (du ∷ dus) w.outside).0 t w v (rw run at keep) c in
      (
        r,
        z,
        ap
              (λ (x : Outcome Tally × World).
                resume x.0 (λ t. update_object (unlocked_status t d)) x.1)
              run
            ∙ run',
        q,
      )

  -- The call up to its loop.
  do_delegate_unlocks-loop :
      (proof : DelegateUpdateBalanceProof) (du : DelegateUnlock) (dus : List DelegateUnlock)
      (w u : World)
      → d.update_balance_proof_gob ≡ some proof
      → d.unlocks_gob ≡ some (du ∷ dus)
      → IsHealthy w
      → account_lock_smt delegator_of (pos (length (du ∷ dus) * fee)) w ≡ (ret none, u)
      → do_delegate_unlocks d w
        ≡ unlock_locked d
            (string_to_big_int proof.transfer_amount_str)
            (select (λ x. x.delegate_key == d.key) (p.gorm.rows w.db.announce_disposes))
            (du ∷ dus)
            none
            u
  unfolding do_delegate_unlocks unlock_all or_panic unlock_cost
  do_delegate_unlocks-loop proof du dus w u has_proof has_locks h run =
      let cost : settings.smt_unlock *ℤ pos (length (du ∷ dus)) ≡ pos (length (du ∷ dus) * fee) =
        rw charge (times_fee fee (length (du ∷ dus))) in
      rw
        (
          update_balance_proof-has d proof w has_proof,
          unlocks-has d (du ∷ dus) w has_locks,
          disposes-found g d.key w h,
          cost,
          run,
        )
        refl

  covers : (cost : ℤ) (a : Account) → IsSolvent a → cost ≤ℤ (locked cost a).locked_smt
  covers cost a s = omega (int_laws, s.locked_nonneg)

  -- The lock before the loop, and the loop.
  after_lock :
      (tried n : ℕ) (w u v : World)
      → Sets w delegator_of (locked (pos (tried * fee)) (account_of w delegator_of)) u
      → Ended d tried n (λ n. charged fee tried n (account_of u delegator_of)) u v
      → Ended d tried n (λ n. billed fee tried n (account_of w delegator_of)) w v
  after_lock tried n w u v sets e =
      let self =
        Sets-self delegator_of (locked (pos (tried * fee)) (account_of w delegator_of)) w u sets in
      record {
        bounded = e.bounded;
        healthy = e.healthy;
        account = λ b. ground (
          arith,
          e.account b,
          sets.0 b,
          self,
          billed_after_lock fee tried n (account_of w delegator_of),
        );
        solvent = e.solvent;
        row =
            e.row
            ∙ ap
                (λ (x : World).
                  upsert (has_key d.key) (ended n tried d) (p.gorm.rows x.db.delegates))
                sets.2;
      }

  -- The whole of doDelegateUnlocks, on a healthy database, when the delegate has a proof and locks
  -- stored and its delegator's account is solvent and can pay for all. It returns. The successes are
  -- the locks that the delegator has given up and those whose transactions the chain answers with a
  -- success, tried in their order: their fees are used, those of the other locks are available
  -- again, all are taken from what is needed, no more is locked than before, no other account
  -- changes, and the row of the delegate tells whether all, some or none of the locks are successes.
  pub do_delegate_unlocks-Ended :
      (proof : DelegateUpdateBalanceProof) (du : DelegateUnlock) (dus : List DelegateUnlock)
      (w : World)
      → d.update_balance_proof_gob ≡ some proof
      → d.unlocks_gob ≡ some (du ∷ dus)
      → IsHealthy w
      → IsSolvent (account_of w delegator_of)
      → pos (length (du ∷ dus) * fee) ≤ℤ account_available (account_of w delegator_of)
      → pos (length (du ∷ dus) * fee) ≤ℤ (account_of w delegator_of).need_smt
      → Returns (do_delegate_unlocks d) w (λ _ v.
        Ended d
          (length (du ∷ dus))
          (granted d
            (string_to_big_int proof.transfer_amount_str)
            (disposes_of d w)
            (du ∷ dus)
            w.outside).0
          (λ n. billed fee (length (du ∷ dus)) n (account_of w delegator_of))
          w
          v)
  do_delegate_unlocks-Ended proof du dus w has_proof has_locks h solvent pays needs =
      let cost = pos (length (du ∷ dus) * fee) in
      let (e, u, run, (none_e, hu, sets)) =
        lock-Moves g delegator_of cost w h solvent (omega arith) pays needs in
      let self = Sets-self delegator_of (locked cost (account_of w delegator_of)) w u sets in
      let run' : account_lock_smt delegator_of cost w ≡ (ret none, u) =
        run ∙ ap (λ (x : Option Message). (ret x, u)) none_e in
      let (r, v, run'', ends) =
        unlock_locked-ends (string_to_big_int proof.transfer_amount_str)
          (select (λ x. x.delegate_key == d.key) (p.gorm.rows w.db.announce_disposes)) du dus u hu
          (subst IsSolvent (sym self) (locked-IsSolvent cost solvent (omega arith) pays needs))
          (subst (λ (a : Account). cost ≤ℤ a.locked_smt) (sym self)
            (covers cost (account_of w delegator_of) solvent)) in
      let amount = string_to_big_int proof.transfer_amount_str in
      let outside' : u.outside ≡ w.outside = ap (λ (z : World). z.outside) sets.2 in
      (
        r,
        v,
        do_delegate_unlocks-loop proof du dus w u has_proof has_locks h run' ∙ run'',
        subst
            (λ o.
              Ended d (length (du ∷ dus)) (granted d amount (disposes_of d w) (du ∷ dus) o).0
                (λ n. billed fee (length (du ∷ dus)) n (account_of w delegator_of)) w v)
            outside' (after_lock (length (du ∷ dus)) _ w u v sets ends),
      )
