-- ===== src/Chain/Punishes/Charges.antt =====
-- What doDelegatePunishes charges, and what it does to the row of the delegate.
use mathlib.Core.List.{cons-ne-nil}
use photon_monitoring.Base.{
  ℕ, ℤ, pos, ◌≡◌, refl, sym, subst, ap, ◌∙◌, inl, inr, Bool, true, false, none, some, Option, List,
  [], ◌∷◌, ◌≤ℤ◌, arith, int_laws, upsert, ⊤,
}
use photon_monitoring.Orm.{IsDocumented}
use photon_monitoring.Platform.{Platform, settings, reply}
use photon_monitoring.World.{World, ret}
use photon_monitoring.World.Total.{IsHealthy, Returns}
use photon_monitoring.Models.Rows.{
  Account, Delegate, DelegatePunish, AccountSerialization, Message, smt_not_enough,
  balance_not_enough, need_smt_smaller, punish_all_failed,
}
use photon_monitoring.Models.Account.{account_available, account_lock_smt}
use photon_monitoring.Models.Account.Branches.{account_lock_smt-branches}
use photon_monitoring.Models.Account.Fee.{
  IsPayable, IsRefused, unavailable, unneeded, spent_after_lock, returned_after_lock,
}
use photon_monitoring.Models.Account.Rules.{account_of, read, Sets, OnlyAccount, OnlyAccount-self}
use photon_monitoring.Models.Account.Solvency.{IsSolvent, locked, locked-IsSolvent}
use photon_monitoring.Models.Account.Total.{lock-Moves, use-Moves, unlock-Moves}
use photon_monitoring.Models.Delegate.{has_key}
use photon_monitoring.Models.Delegate.Saving.{punishes-found}
use photon_monitoring.Chain.BalanceProof.{failed_with}
use photon_monitoring.Chain.BalanceProof.Failing.{fail_delegate-saves}
use photon_monitoring.Chain.Punishes.{
  settle_punish, punish_locked, punish_listed, do_delegate_punishes,
}
use photon_monitoring.Chain.Punishes.Frame.{punish_each-Keeps}
use photon_monitoring.Chain.Punishes.Answers.{some_punished, punish_each-some_punished}
use photon_monitoring.Chain.Punishes.Outcomes.{
  punishes_of, Punished, without_punishes, unpaid, punished, all_failed,
}

module _ ⦃p : Platform⦄ where
  abbrev both_of : World → p.gorm.Table AccountSerialization × p.gorm.Table Delegate
  both_of w = (w.db.accounts, w.db.delegates)

module _ ⦃p : Platform⦄ (g : IsDocumented p.gorm) (d : Delegate) (w : World) where
  abbrev delegator_of : ℕ
  delegator_of = p.text_address d.delegator_address_str

  abbrev fee : ℤ
  fee = settings.smt_punish

  abbrev Ends : ⊤ → World → Type 0
  Ends r v = Punished d fee w v × IsHealthy v

  -- After the lock and the loop, from `u`.
  settle_punish-Punished :
      pos 0 ≤ℤ fee
      → ¬ (punishes_of d w ≡ [])
      → IsPayable fee (account_of w delegator_of)
      → (u : World) → IsHealthy u
      → OnlyAccount w delegator_of (locked fee (account_of w delegator_of)) u
      → p.gorm.rows u.db.delegates ≡ p.gorm.rows w.db.delegates
      → IsSolvent (account_of u delegator_of)
      → fee ≤ℤ (account_of u delegator_of).locked_smt
      → (b : Bool) → some_punished d (punishes_of d w) w.outside ≡ b
      → Returns (settle_punish d b) u Ends
  unfolding settle_punish
  settle_punish-Punished nonneg some_of payable u h only same solvent fits true told =
      let (e, v, run, (_, hv, sets)) = use-Moves g delegator_of fee u h solvent nonneg fits in
      let self = OnlyAccount-self delegator_of _ w u only in
      (
        tt,
        v,
        ground (arith, run),
        (
          punished payable told
              (λ b.
                ground
                  (arith, sets.0 b, only b, self, spent_after_lock fee (account_of w delegator_of)))
              (ap (λ (x : World). p.gorm.rows x.db.delegates) sets.2 ∙ same),
          hv,
        ),
      )
  settle_punish-Punished nonneg some_of payable u h only same solvent fits false told =
      let (e, x, run, (_, hx, sets)) = unlock-Moves g delegator_of fee u h solvent nonneg fits in
      let (_, v, run', ((rows', frame), hv)) = fail_delegate-saves g punish_all_failed d x hx in
      let self = OnlyAccount-self delegator_of _ w u only in
      let at : (b : ℕ) → account_of v b ≡ account_of x b =
        λ b. ap (λ (z : World). account_of z b) frame in
      let save = upsert (has_key d.key) (failed_with punish_all_failed d) in
      (
        tt,
        v,
        ground (arith, run, run'),
        (
          all_failed some_of payable told
              (λ b. ground (
                arith,
                at b,
                sets.0 b,
                only b,
                self,
                returned_after_lock fee (account_of w delegator_of),
              ))
              (rows' ∙ ap (λ (z : World). save (p.gorm.rows z.db.delegates)) sets.2 ∙ ap save same),
          hv,
        ),
      )

  -- The loop, between the lock and the settlement.
  paid :
      (dps : List DelegatePunish)
      → punishes_of d w ≡ dps
      → ¬ (punishes_of d w ≡ [])
      → pos 0 ≤ℤ fee
      → IsSolvent (account_of w delegator_of)
      → fee ≤ℤ account_available (account_of w delegator_of)
      → fee ≤ℤ (account_of w delegator_of).need_smt
      → (v : World) → IsHealthy v
      → Sets w delegator_of (locked fee (account_of w delegator_of)) v
      → Returns (punish_locked d dps none) v Ends
  unfolding punish_locked
  paid dps listed some_of nonneg solvent pays needs v hv sets =
      let (b, u, run, (told, hu)) = punish_each-some_punished g d dps v hv in
      let outside' : v.outside ≡ w.outside = ap (λ (x : World). x.outside) sets.2 in
      let both : both_of u ≡ both_of v = rw run at (
        (punish_each-Keeps {f = both_of} (λ A f. record { at = λ u. refl })
            (λ f. record { at = λ u. refl }) d false dps).at
          v) in
      let only : OnlyAccount w delegator_of (locked fee (account_of w delegator_of)) u =
        λ b. ap (λ z. read b (p.gorm.rows z.0)) both ∙ sets.0 b in
      let self = OnlyAccount-self delegator_of _ w u only in
      let (r, z, run', q) =
        settle_punish-Punished nonneg some_of (pays, needs) u hu only
          (ap (λ z. p.gorm.rows z.1) both ∙ ap (λ (z : World). p.gorm.rows z.db.delegates) sets.2)
          (subst IsSolvent (sym self) (locked-IsSolvent fee solvent nonneg pays needs))
          (subst (λ (a : Account). fee ≤ℤ a.locked_smt) (sym self)
            (omega (int_laws, solvent.locked_nonneg)))
          b
          (ap (λ z. some_punished d z w.outside) listed
            ∙ ap (some_punished d dps) (sym outside')
            ∙ sym told) in
      (r, z, ground (arith, run, run'), q)

  refused :
      (dps : List DelegatePunish) (e : Message)
      → ¬ (punishes_of d w ≡ [])
      → IsHealthy w
      → IsRefused fee (account_of w delegator_of) e
      → Returns (punish_locked d dps (some e)) w Ends
  unfolding punish_locked
  refused dps e some_of h why =
      let (_, v, run, ((rows', frame), hv)) = fail_delegate-saves g (smt_not_enough e) d w h in
      (
        tt,
        v,
        ground (arith, run),
        (unpaid e some_of why (ap (λ (z : World). z.db.accounts) frame) rows', hv),
      )

  -- From the list of punishes on.
  from_list :
      (dps : List DelegatePunish)
      → punishes_of d w ≡ dps
      → pos 0 ≤ℤ fee
      → IsHealthy w
      → IsSolvent (account_of w delegator_of)
      → Returns (punish_listed d (reply dps)) w Ends
  unfolding punish_listed
  from_list [] e nonneg h solvent = (tt, w, refl, (without_punishes e refl, h))
  from_list (dp ∷ dps) e nonneg h solvent =
      let some_of : ¬ (punishes_of d w ≡ []) = λ none_of. cons-ne-nil dp dps (sym e ∙ none_of) in
      elim (account_lock_smt-branches g delegator_of fee w h.accounts_up solvent nonneg) [
        | inl (pays, needs, _, _) ↦
            let (x, v, run, (none_x, hv, sets)) =
              lock-Moves g delegator_of fee w h solvent nonneg pays needs in
            let (r, z, run', q) = paid (dp ∷ dps) e some_of nonneg solvent pays needs v hv sets in
            let run'' = run ∙ ap (λ (x : Option Message). (ret x, v)) none_x in
            (r, z, rw run'' run', q)
        | inr (inl (short, x, same)) ↦
            let m = balance_not_enough (account_available (account_of w delegator_of)) fee in
            let (r, z, run', q) = refused (dp ∷ dps) m some_of h (unavailable short) in
            let run : account_lock_smt delegator_of fee w ≡ (ret (some m), w) =
              λ i. (x i, same i) in
            (r, z, rw run run', q)
        | inr (inr (pays, short, x, same)) ↦
            let m = need_smt_smaller (account_of w delegator_of).need_smt fee in
            let (r, z, run', q) = refused (dp ∷ dps) m some_of h (unneeded pays short) in
            let run : account_lock_smt delegator_of fee w ≡ (ret (some m), w) =
              λ i. (x i, same i) in
            (r, z, rw run run', q)
      ]

  -- The whole of doDelegatePunishes, on a healthy database, for a delegator whose account is
  -- solvent and a fee that is not negative. It returns, in one of the four ways of `Punished`: no
  -- punishes; or there are some, and the fee is refused, as not available or not needed; or it
  -- could be paid and the chain answers the punish of one of them with a success, and one fee is
  -- used whatever their number, or of none, and the fee is given back and the delegate failed.
  pub do_delegate_punishes-Punished :
      pos 0 ≤ℤ fee
      → IsHealthy w
      → IsSolvent (account_of w delegator_of)
      → Returns (do_delegate_punishes d) w (λ _ v. Punished d fee w v × IsHealthy v)
  unfolding do_delegate_punishes
  do_delegate_punishes-Punished nonneg h solvent =
      let (r, v, run, q) = from_list (punishes_of d w) refl nonneg h solvent in
      (r, v, rw (punishes-found g d.key w h) run, q)
