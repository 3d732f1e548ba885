-- ===== src/Chain/Unlocks/Charges.antt =====
-- What the loop of doDelegateUnlocks charges.
use photon_monitoring.Base.{
  ℕ, suc, ◌+◌, ◌*◌, ◌≤◌, ℤ, pos, ◌≡◌, refl, sym, subst, ap, ◌∙◌, true, ◌||◌, ltb, Bool-cases, inl,
  inr, List, [], ◌∷◌, ◌≤ℤ◌, int_laws, arith, length,
}
use photon_monitoring.Orm.{IsDocumented}
use photon_monitoring.Platform.{Platform, settings}
use photon_monitoring.World.{World}
use photon_monitoring.World.Total.{IsHealthy, Returns}
use photon_monitoring.Models.Rows.{
  Account, Delegate, DelegateUnlock, DelegateAnnounceDispose, DelegateExecuteRecord,
  AccountSerialization,
}
use photon_monitoring.Models.Record.{is_success}
use photon_monitoring.Models.Account.Rules.{account_of, read, OnlyAccount, OnlyAccount-self}
use photon_monitoring.Models.Account.Solvency.{
  IsSolvent, used, unlocked, used-IsSolvent, unlocked-IsSolvent,
}
use photon_monitoring.Models.Account.Total.{use-Moves, unlock-Moves}
use photon_monitoring.Chain.Execute.{do_unlock}
use photon_monitoring.Chain.Execute.Answer.{unlocking, do_unlock-Answered}
use photon_monitoring.Chain.Execute.Frame.{do_unlock-Keeps}
use photon_monitoring.Chain.Unlocks.{Tally, settle_unlock, unlock_each}
use photon_monitoring.Chain.Unlocks.Charged.{
  one_if, granted, charged, charged_nil, charged_success, charged_failure, charged_again, Charged,
}

module _ ⦃p : Platform⦄ where
  abbrev accounts_of : World → p.gorm.Table AccountSerialization
  accounts_of w = w.db.accounts

  -- A contract call returns a record, which tells the answer of the chain, and leaves every account
  -- as it was.
  pub do_unlock-returns :
      (g : IsDocumented p.gorm) (d : Delegate) (du : DelegateUnlock) (x : ℤ)
      (das : List DelegateAnnounceDispose) (w : World)
      → IsHealthy w
      → let (b, o) = unlocking d x das du w.outside in
        Returns (do_unlock d du x das) w (λ r v.
          IsHealthy v
          × (v.db.accounts ≡ w.db.accounts)
          × (is_success r.status ≡ b)
          × (v.outside ≡ o))
  do_unlock-returns g d du x das w h =
      let (r, v, e, (told, at, hv)) = do_unlock-Answered g d du x das w h in
      let keep =
        (do_unlock-Keeps {f = accounts_of} (λ A f. record { at = λ u. refl })
            (λ f. record { at = λ u. refl }) d du x das).at
          w in
      (r, v, e, (hv, rw e at keep, told, at))

module _ ⦃p : Platform⦄ (g : IsDocumented p.gorm) (delegator fee : ℕ)
    (charge : settings.smt_unlock ≡ pos fee) where
  -- A round from what the account has become.
  charge_of :
      (t t' : Tally) (n : ℕ) (a : Account) (w v : World)
      → n ≤ 1
      → IsHealthy v
      → a ≡ charged fee 1 n (account_of w delegator)
      → OnlyAccount w delegator a v
      → IsSolvent a
      → t'.has_success ≡ (t.has_success || ltb 0 n)
      → t'.has_err ≡ (t.has_err || ltb n 1)
      → Charged delegator fee 1 n t t' w v
  charge_of t t' n a w v le hv e only solvent good bad = record {
    healthy = hv;
    bounded = le;
    account = subst (λ x. OnlyAccount w delegator x v) e only;
    solvent = subst IsSolvent (sym (OnlyAccount-self delegator a w v only)) solvent;
    success = good;
    failure = bad;
  }

  -- One round after its contract call: the fee is used on success, and returned otherwise.
  settle_unlock-charges :
      (t : Tally) (r : DelegateExecuteRecord) (w : World)
      → IsHealthy w
      → IsSolvent (account_of w delegator)
      → pos fee ≤ℤ (account_of w delegator).locked_smt
      → Returns (settle_unlock delegator t r) w (λ t' v.
        Charged delegator fee 1 (one_if (is_success r.status)) t t' w v × (v.outside ≡ w.outside))
  unfolding settle_unlock
  settle_unlock-charges t r w h solvent fits = elim (Bool-cases (is_success r.status)) [
    | inl good ↦
        let (e, v, run, (_, hv, sets)) =
          use-Moves g delegator (pos fee) w h solvent (omega arith) fits in
        let t' = record t { has_success = true } in
        (
          t',
          v,
          rw (good, charge) (ground (arith, run)),
          (
            subst (λ b. Charged delegator fee 1 (one_if b) t t' w v) (sym good)
                (charge_of t t' 1 (used (pos fee) (account_of w delegator)) w v (omega arith) hv
                  (charged_success fee (account_of w delegator)) sets.0
                  (used-IsSolvent (pos fee) solvent (omega arith) fits) (ground arith)
                  (ground arith)),
            ap (λ (z : World). z.outside) sets.2,
          ),
        )
    | inr bad ↦
        let (e, v, run, (_, hv, sets)) =
          unlock-Moves g delegator (pos fee) w h solvent (omega arith) fits in
        let t' = record t { has_err = true } in
        (
          t',
          v,
          rw (bad, charge) (ground (arith, run)),
          (
            subst (λ b. Charged delegator fee 1 (one_if b) t t' w v) (sym bad)
                (charge_of t t' 0 (unlocked (pos fee) (account_of w delegator)) w v (omega arith) hv
                  (charged_failure fee (account_of w delegator)) sets.0
                  (unlocked-IsSolvent (pos fee) solvent (omega arith) fits) (ground arith)
                  (ground arith)),
            ap (λ (z : World). z.outside) sets.2,
          ),
        )
  ]

  -- Stretches of rounds, one after the other; a contract call between them changes no account.
  Charged-again :
      (t t' t'' : Tally) (tried m n : ℕ) (w u v x : World)
      → u.db.accounts ≡ w.db.accounts
      → Charged delegator fee 1 m t t' u v
      → Charged delegator fee tried n t' t'' v x
      → Charged delegator fee (suc tried) (m + n) t t'' w x
  Charged-again t t' t'' tried m n w u v x same c c' =
      let base : (b : ℕ) → account_of u b ≡ account_of w b =
        λ b. ap (λ z. read b (p.gorm.rows z)) same in
      let mid = OnlyAccount-self delegator _ u v c.account in
      record {
        healthy = c'.healthy;
        bounded = omega (arith, c.bounded, c'.bounded);
        account = λ b. ground (
          arith,
          c'.account b,
          c.account b,
          mid,
          base b,
          base delegator,
          charged_again fee tried n m (account_of w delegator),
        );
        solvent = c'.solvent;
        success = ground (arith, c.success, c'.success);
        failure = ground (arith, c.failure, c'.failure, c.bounded, c'.bounded);
      }

module _ ⦃p : Platform⦄ (g : IsDocumented p.gorm) (d : Delegate) (x : ℤ)
    (das : List DelegateAnnounceDispose) (fee : ℕ) (charge : settings.smt_unlock ≡ pos fee) where
  abbrev delegator_of : ℕ
  delegator_of = p.text_address d.delegator_address_str

  one_fits :
      (n : ℕ) (a b : Account) → b ≡ a → pos (suc n * fee) ≤ℤ a.locked_smt → pos fee ≤ℤ b.locked_smt
  one_fits n a b e fits = subst (λ (z : Account). pos fee ≤ℤ z.locked_smt) (sym e) (omega arith)

  rest_fits :
      (m n : ℕ) (a b c : Account)
      → b ≡ a
      → c ≡ charged fee 1 m b
      → pos (suc n * fee) ≤ℤ a.locked_smt
      → pos (n * fee) ≤ℤ c.locked_smt
  rest_fits m n a b c e e' fits =
      subst (λ (z : Account). pos (n * fee) ≤ℤ z.locked_smt) (sym (e' ∙ ap (charged fee 1 m) e))
        (omega int_laws)

  -- The loop, from enough locked for a fee for each lock.
  pub unlock_each-charges :
      (dus : List DelegateUnlock) (t : Tally) (w : World)
      → IsHealthy w
      → IsSolvent (account_of w delegator_of)
      → pos (length dus * fee) ≤ℤ (account_of w delegator_of).locked_smt
      → Returns
          (unlock_each d x das t dus)
          w
          (λ t' v. Charged delegator_of fee (length dus) (granted d x das dus w.outside).0 t t' w v)
  unfolding unlock_each granted
  unlock_each-charges [] t w h solvent fits = (
    t,
    w,
    refl,
    record {
      healthy = h;
      bounded = omega arith;
      account = λ b. ground (arith, charged_nil fee (account_of w delegator_of));
      solvent = solvent;
      success = ground arith;
      failure = ground arith;
    },
  )
  unlock_each-charges (du ∷ dus) t w h solvent fits =
      let (r, u, run, (hu, same, told, outside')) = do_unlock-returns g d du x das w h in
      let m = one_if (is_success r.status) in
      let at = ap (λ z. read delegator_of (p.gorm.rows z)) same in
      let (t', v, run', (c, still)) =
        settle_unlock-charges g delegator_of fee charge t r u hu (subst IsSolvent (sym at) solvent)
          (one_fits (length dus) (account_of w delegator_of) (account_of u delegator_of) at fits) in
      let self = OnlyAccount-self delegator_of _ u v c.account in
      let (t'', z, run'', c') = unlock_each-charges dus t' v c.healthy c.solvent (
        rest_fits m (length dus) (account_of w delegator_of) (account_of u delegator_of)
          (account_of v delegator_of) at self fits) in
      let (b, o) = unlocking d x das du w.outside in
      let after = λ (o : p.Outside). (granted d x das dus o).0 in
      let n =
        ap (λ s. one_if s + after v.outside) told
        ∙ ap (λ o. one_if b + after o) (still ∙ outside') in
      (
        t'',
        z,
        rw (run, run') run'',
        subst (λ k. Charged delegator_of fee (suc (length dus)) k t t'' w z) n
            (Charged-again g delegator_of fee charge t t' t'' (length dus) m (after v.outside) w u v
              z same c c'),
      )
