-- ===== src/Chain/Secrets/Charges.antt =====
-- What the body of doDelegateSecrets does for one secret, and what it charges.
use photon_monitoring.Base.{
  ℕ, ℤ, pos, ◌≡◌, refl, sym, subst, ap, ◌∙◌, inl, inr, false, Bool-cases, Option-cases, none, some,
  Option, ◌≤ℤ◌, ltb_ℤ, arith, int_laws, ⊤,
}
use photon_monitoring.Orm.{IsDocumented}
use photon_monitoring.Platform.{Platform, settings}
use photon_monitoring.World.{World, ret}
use photon_monitoring.World.Total.{IsHealthy, Returns}
use photon_monitoring.Models.Rows.{
  Account, Delegate, DelegateSecret, DelegateExecuteRecord, AccountSerialization, Message,
  balance_not_enough, need_smt_smaller,
}
use photon_monitoring.Models.Account.{account_available, account_lock_smt}
use photon_monitoring.Models.Account.Branches.{account_lock_smt-branches}
use photon_monitoring.Models.Account.Fee.{
  IsPayable, unavailable, unneeded, spent_after_lock, returned_after_lock,
}
use photon_monitoring.Models.Account.Rules.{account_of, read, Sets, OnlyAccount, OnlyAccount-self}
use photon_monitoring.Models.Account.Solvency.{IsSolvent, locked, locked-IsSolvent}
use photon_monitoring.Models.Account.Total.{lock-Moves, use-Moves, unlock-Moves}
use photon_monitoring.Models.Record.{is_success}
use photon_monitoring.Models.Record.Total.{has_secret-found}
use photon_monitoring.Chain.Execute.Frame.{do_register_secret-Keeps}
use photon_monitoring.Chain.Execute.Answer.{registering, do_register_secret-Answered}
use photon_monitoring.Chain.Secrets.{settle_secret, register_locked, register_unless, do_secret}
use photon_monitoring.Chain.Secrets.Outcomes.{
  registration, Registered, not_due, already, unpaid, registered, not_registered,
}

module _ ⦃p : Platform⦄ (g : IsDocumented p.gorm) (last : ℤ) (d : Delegate) (s : DelegateSecret)
    (w : World) where
  abbrev delegator_of : ℕ
  delegator_of = p.text_address d.delegator_address_str

  abbrev fee : ℤ
  fee = settings.smt_secret

  abbrev Ends : ⊤ → World → Type 0
  Ends r v = Registered last d s fee w v × IsHealthy v

  abbrev accounts_of : World → p.gorm.Table AccountSerialization
  accounts_of u = u.db.accounts

  -- After the lock and the contract call, from `u`.
  settle_secret-Registered :
      pos 0 ≤ℤ fee
      → ltb_ℤ last s.register_block ≡ false
      → registration s w ≡ none
      → IsPayable fee (account_of w delegator_of)
      → (u : World) → IsHealthy u
      → OnlyAccount w delegator_of (locked fee (account_of w delegator_of)) u
      → IsSolvent (account_of u delegator_of)
      → fee ≤ℤ (account_of u delegator_of).locked_smt
      → (r : DelegateExecuteRecord) → is_success r.status ≡ (registering s w.outside).0
      → Returns (settle_secret delegator_of r) u Ends
  unfolding settle_secret
  settle_secret-Registered nonneg now fresh pays u h only solvent fits r told =
      let self = OnlyAccount-self delegator_of _ w u only in
      elim (Bool-cases (is_success r.status)) [
        | inl good ↦
            let (e, v, run, (_, hv, sets)) = use-Moves g delegator_of fee u h solvent nonneg fits in
            (
              tt,
              v,
              rw good (ground (arith, run)),
              (
                registered now fresh pays (sym told ∙ good) (λ b. ground (
                  arith,
                  sets.0 b,
                  only b,
                  self,
                  spent_after_lock fee (account_of w delegator_of),
                )),
                hv,
              ),
            )
        | inr bad ↦
            let (e, v, run, (_, hv, sets)) =
              unlock-Moves g delegator_of fee u h solvent nonneg fits in
            (
              tt,
              v,
              rw bad (ground (arith, run)),
              (
                not_registered now fresh pays (sym told ∙ bad) (λ b. ground (
                  arith,
                  sets.0 b,
                  only b,
                  self,
                  returned_after_lock fee (account_of w delegator_of),
                )),
                hv,
              ),
            )
      ]

  -- The contract call, between the lock and the settlement.
  paid :
      pos 0 ≤ℤ fee
      → ltb_ℤ last s.register_block ≡ false
      → registration s w ≡ none
      → IsSolvent (account_of w delegator_of)
      → fee ≤ℤ account_available (account_of w delegator_of)
      → fee ≤ℤ (account_of w delegator_of).need_smt
      → (v : World) → IsHealthy v
      → Sets w delegator_of (locked fee (account_of w delegator_of)) v
      → Returns (register_locked d s none) v Ends
  unfolding register_locked
  paid nonneg now fresh solvent pays needs v hv sets =
      let (r, u, run, (told, _, hu)) = do_register_secret-Answered g d s v hv in
      let outside' : v.outside ≡ w.outside = ap (λ (x : World). x.outside) sets.2 in
      let same : u.db.accounts ≡ v.db.accounts = rw run at (
        (do_register_secret-Keeps {f = accounts_of} (λ A f. record { at = λ u. refl })
            (λ f. record { at = λ u. refl }) d s).at
          v) in
      let only : OnlyAccount w delegator_of (locked fee (account_of w delegator_of)) u =
        λ b. ap (λ z. read b (p.gorm.rows z)) same ∙ sets.0 b in
      let self = OnlyAccount-self delegator_of _ w u only in
      let (x, z, run', q) =
        settle_secret-Registered nonneg now fresh (pays, needs) u hu only
          (subst IsSolvent (sym self) (locked-IsSolvent fee solvent nonneg pays needs))
          (subst (λ (a : Account). fee ≤ℤ a.locked_smt) (sym self)
            (omega (int_laws, solvent.locked_nonneg)))
          r (told ∙ ap (λ o. (registering s o).0) outside') in
      (x, z, ground (arith, run, run'), q)

  -- The secret is due and was not registered.
  due :
      pos 0 ≤ℤ fee
      → ltb_ℤ last s.register_block ≡ false
      → registration s w ≡ none
      → IsHealthy w
      → IsSolvent (account_of w delegator_of)
      → Returns (register_unless d s false) w Ends
  unfolding register_unless register_locked
  due nonneg now fresh h solvent =
      elim (account_lock_smt-branches g delegator_of fee w h.accounts_up solvent nonneg) [
        | inl (pays, needs, _, _) ↦
            let (x, v, run, (none_x, hv, sets)) =
              lock-Moves g delegator_of fee w h solvent nonneg pays needs in
            let (r, z, run', q) = paid nonneg now fresh solvent pays needs v hv sets in
            let run'' = run ∙ ap (λ (x : Option Message). (ret x, v)) none_x in
            (r, z, rw run'' run', q)
        | inr (inl (short, x, same)) ↦
            let m = balance_not_enough (account_available (account_of w delegator_of)) fee in
            let run : account_lock_smt delegator_of fee w ≡ (ret (some m), w) =
              λ i. (x i, same i) in
            (tt, w, rw run refl, (unpaid m now fresh (unavailable short) refl, h))
        | inr (inr (pays, short, x, same)) ↦
            let m = need_smt_smaller (account_of w delegator_of).need_smt fee in
            let run : account_lock_smt delegator_of fee w ≡ (ret (some m), w) =
              λ i. (x i, same i) in
            (tt, w, rw run refl, (unpaid m now fresh (unneeded pays short) refl, h))
      ]

  -- One secret of a delegate in doDelegateSecrets, on a healthy database, for a delegator whose
  -- account is solvent and a fee that is not negative. It returns, in one of the five ways of
  -- `Registered`: not due, and nothing changes at all; or due, and registered before or the fee
  -- refused, and nothing changes; or due, not registered before and the fee could be paid, and the
  -- chain answers the registration with a success, and the fee is used, or not, and it is given
  -- back.
  pub do_secret-Registered :
      pos 0 ≤ℤ fee
      → IsHealthy w
      → IsSolvent (account_of w delegator_of)
      → Returns (do_secret last d s) w (λ _ v. Registered last d s fee w v × IsHealthy v)
  unfolding do_secret register_unless
  do_secret-Registered nonneg h solvent = elim (Bool-cases (ltb_ℤ last s.register_block)) [
    | inl early ↦ (tt, w, rw early refl, (not_due early refl, h))
    | inr now ↦ elim (Option-cases (registration s w)) [
      | inl fresh ↦
          let (x, v, run, q) = due nonneg now fresh h solvent in
          (x, v, rw (now, has_secret-found g (p.text_hash s.secret) w h, fresh) run, q)
      | inr (r, known) ↦ (
        tt,
        w,
        rw (now, has_secret-found g (p.text_hash s.secret) w h, known) refl,
        (already r now known refl, h),
      )
    ]
  ]
