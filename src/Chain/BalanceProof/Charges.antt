-- ===== src/Chain/BalanceProof/Charges.antt =====
-- What doDelegateUpdateBalanceProof charges, and what it does to the row of the delegate.
use photon_monitoring.Base.{
  ℕ, ℤ, pos, ◌≡◌, refl, sym, subst, ap, ◌∙◌, inl, inr, false, Bool-cases, none, some, Option, ◌≤ℤ◌,
  leb_ℤ, arith, int_laws,
}
use photon_monitoring.Orm.{IsDocumented}
use photon_monitoring.Platform.{Platform, settings}
use photon_monitoring.World.{World, ret}
use photon_monitoring.World.Total.{IsHealthy, Returns, Returns-bind}
use photon_monitoring.Models.Rows.{
  Account, Delegate, DelegateUpdateBalanceProof, AccountSerialization, Message, smt_not_enough,
  balance_not_enough, need_smt_smaller,
}
use photon_monitoring.Models.Account.{account_available, account_lock_smt}
use photon_monitoring.Models.Account.Branches.{account_lock_smt-branches}
use photon_monitoring.Models.Account.Fee.{IsRefused, unavailable, unneeded}
use photon_monitoring.Models.Account.Rules.{account_of, read, Sets, OnlyAccount, OnlyAccount-self}
use photon_monitoring.Models.Account.Solvency.{IsSolvent, locked, locked-IsSolvent}
use photon_monitoring.Models.Account.Total.{lock-Moves}
use photon_monitoring.Models.Delegate.Saving.{update_object-saves, update_balance_proof-has}
use photon_monitoring.Models.Record.{is_success}
use photon_monitoring.Chain.Execute.{do_update_balance_proof, update_tx}
use photon_monitoring.Chain.Execute.Frame.{do_update_balance_proof-Keeps}
use photon_monitoring.Chain.Execute.Answer.{called, do_update_balance_proof-Answered}
use photon_monitoring.Chain.BalanceProof.{
  failed_with, fail_delegate, settle_update, update_locked, do_delegate_update_balance_proof,
}
use photon_monitoring.Chain.BalanceProof.Outcomes.{◌<ℤ◌, Updated, without_proof, unpaid}
use photon_monitoring.Chain.BalanceProof.Settled.{settle_either}

module _ ⦃p : Platform⦄ where
  abbrev both_of : World → p.gorm.Table AccountSerialization × p.gorm.Table Delegate
  both_of w = (w.db.accounts, w.db.delegates)

  -- The contract call returns a record, which tells the answer of the chain, and leaves the accounts
  -- and the delegates.
  do_update-returns :
      (g : IsDocumented p.gorm) (d : Delegate) (du : DelegateUpdateBalanceProof) (w : World)
      → IsHealthy w
      → Returns (do_update_balance_proof d du) w (λ r v.
        (is_success r.status ≡ (called d (update_tx d du) w.outside).0)
        × IsHealthy v
        × (both_of v ≡ both_of w))
  do_update-returns g d du w h =
      let (r, v, e, (told, _, hv)) = do_update_balance_proof-Answered g d du w h in
      let keep =
        (do_update_balance_proof-Keeps {f = both_of} (λ A f. record { at = λ u. refl })
            (λ f. record { at = λ u. refl }) d du).at
          w in
      (r, v, e, (told, hv, rw e at keep))

module _ ⦃p : Platform⦄ (g : IsDocumented p.gorm) (d : Delegate) (du : DelegateUpdateBalanceProof)
    (w : World) where
  abbrev delegator_of : ℕ
  delegator_of = p.text_address d.delegator_address_str

  abbrev fee : ℤ
  fee = settings.smt_update_transfer

  -- The lock was refused.
  refused :
      (e : Message)
      → pos 0 <ℤ du.nonce
      → IsHealthy w
      → IsRefused fee (account_of w delegator_of) e
      → Returns (update_locked d du (some e)) w (λ d' v. Updated d du fee w d' v × IsHealthy v)
  unfolding update_locked fail_delegate
  refused e newer h why =
      let d' = failed_with (smt_not_enough e) d in
      let (_, v, run, ((rows', frame), hv)) = update_object-saves g d' w h in
      (
        d',
        v,
        ground (arith, run),
        (unpaid e newer why refl (ap (λ (z : World). z.db.accounts) frame) rows', hv),
      )

  -- The lock was made.
  paid :
      pos 0 ≤ℤ fee
      → pos 0 <ℤ du.nonce
      → IsHealthy w
      → IsSolvent (account_of w delegator_of)
      → fee ≤ℤ account_available (account_of w delegator_of)
      → fee ≤ℤ (account_of w delegator_of).need_smt
      → (v : World) → IsHealthy v
      → Sets w delegator_of (locked fee (account_of w delegator_of)) v
      → Returns (update_locked d du none) v (λ d' z. Updated d du fee w d' z × IsHealthy z)
  unfolding update_locked
  paid nonneg newer h solvent pays needs v hv sets =
      let self = OnlyAccount-self delegator_of _ w v sets.0 in
      Returns-bind (do_update_balance_proof d du) (settle_update d) v
        (λ r u.
          (is_success r.status ≡ (called d (update_tx d du) v.outside).0)
          × IsHealthy u
          × (both_of u ≡ both_of v))
        (λ d' z. Updated d du fee w d' z × IsHealthy z) (do_update-returns g d du v hv)
        (λ r u (told, hu, both).
          let at : (b : ℕ) → account_of u b ≡ account_of v b =
            λ b. ap (λ z. read b (p.gorm.rows z.0)) both in
          let only : OnlyAccount w delegator_of (locked fee (account_of w delegator_of)) u =
            λ b. at b ∙ sets.0 b in
          let self' = OnlyAccount-self delegator_of _ w u only in
          settle_either g d du w nonneg newer (pays, needs) u hu only
            (ap (λ z. p.gorm.rows z.1) both ∙ ap (λ (z : World). p.gorm.rows z.db.delegates) sets.2)
            (subst IsSolvent (sym self') (locked-IsSolvent fee solvent nonneg pays needs))
            (subst (λ (a : Account). fee ≤ℤ a.locked_smt) (sym self')
              (omega (int_laws, solvent.locked_nonneg)))
            r (told ∙ ap (λ (z : World). (called d (update_tx d du) z.outside).0) sets.2))

  -- The call from its lock on, when the lock gives `e` in `u`.
  from_lock :
      (e : Option Message) (u : World)
      → d.update_balance_proof_gob ≡ some du
      → leb_ℤ du.nonce (pos 0) ≡ false
      → account_lock_smt delegator_of fee w ≡ (ret e, u)
      → do_delegate_update_balance_proof d w ≡ update_locked d du e u
  unfolding do_delegate_update_balance_proof
  from_lock e u has newer run = rw (update_balance_proof-has d du w has, newer, run) refl

  -- The whole of doDelegateUpdateBalanceProof, on a healthy database, for a delegate
  -- that has its proof stored and whose delegator's account is solvent, at a fee that
  -- is not negative. It returns, in one of the four ways of `Updated`: nothing to do;
  -- fee refused, as not available or not needed; or the fee could be paid and the chain
  -- answers the update of the balance proof with a success, and the fee is used, or not,
  -- and the fee is given back and the delegate failed.
  pub do_delegate_update_balance_proof-Updated :
      pos 0 ≤ℤ fee
      → d.update_balance_proof_gob ≡ some du
      → IsHealthy w
      → IsSolvent (account_of w delegator_of)
      → Returns
          (do_delegate_update_balance_proof d)
          w
          (λ d' v. Updated d du fee w d' v × IsHealthy v)
  unfolding do_delegate_update_balance_proof
  do_delegate_update_balance_proof-Updated nonneg has h solvent =
      elim (Bool-cases (leb_ℤ du.nonce (pos 0))) [
        | inl old ↦ (
          d,
          w,
          rw (update_balance_proof-has d du w has, old) refl,
          (without_proof (ground arith) refl refl, h),
        )
        | inr new ↦
            let newer : pos 0 <ℤ du.nonce = grind (int_laws, new) in
            elim (account_lock_smt-branches g delegator_of fee w h.accounts_up solvent nonneg) [
              | inl (pays, needs, _, _) ↦
                  let (e, v, run, (none_e, hv, sets)) =
                    lock-Moves g delegator_of fee w h solvent nonneg pays needs in
                  let (d', z, run', q) = paid nonneg newer h solvent pays needs v hv sets in
                  let run'' = run ∙ ap (λ (x : Option Message). (ret x, v)) none_e in
                  (d', z, from_lock none v has new run'' ∙ run', q)
              | inr (inl (short, e, same)) ↦
                  let m = balance_not_enough (account_available (account_of w delegator_of)) fee in
                  let (d', z, run', q) = refused m newer h (unavailable short) in
                  (d', z, from_lock (some m) w has new (λ i. (e i, same i)) ∙ run', q)
              | inr (inr (pays, short, e, same)) ↦
                  let m = need_smt_smaller (account_of w delegator_of).need_smt fee in
                  let (d', z, run', q) = refused m newer h (unneeded pays short) in
                  (d', z, from_lock (some m) w has new (λ i. (e i, same i)) ∙ run', q)
            ]
      ]
