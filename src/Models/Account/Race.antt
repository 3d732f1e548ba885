-- ===== src/Models/Account/Race.antt =====
-- Two goroutines that lock a fee of one account at the same time: AccountLockSmt holds no mutex
-- between its read of the account and its write.
use photon_monitoring.Base.{
  ℕ, ℤ, pos, ◌≡◌, refl, sym, subst, Option, none, ◌≤ℤ◌, arith, ltb_ℤ, false,
}
use photon_monitoring.Orm.{IsDocumented}
use photon_monitoring.Platform.{Platform}
use photon_monitoring.World.{World, M, Outcome, ◌>>=◌, pure, ret}
use photon_monitoring.Models.Rows.{Account, Message}
use photon_monitoring.Models.Account.{account_available, account_get_account, lock_account}
use photon_monitoring.Models.Account.Solvency.{IsSolvent, IsSolvent-sane, locked, locked-IsSolvent}
use photon_monitoring.Models.Account.Rules.{
  account_of, IsUp, Sets, saved, saved-Sets, checked_save-eq, account_get_account-read,
  read-address,
}
use photon_monitoring.Models.Account.Deposit.{Sets-again}

module _ ⦃p : Platform⦄ where
  -- AccountLockSmt of `x` and AccountLockSmt of `y`, where both read before either writes.
  pub interleaved_locks : ℕ → ℤ → ℤ → M (Option Message × Option Message)
  interleaved_locks addr x y = do
    a ← account_get_account addr
    b ← account_get_account addr
    e ← lock_account x a
    e' ← lock_account y b
    pure (e, e')

module _ ⦃p : Platform⦄ (g : IsDocumented p.gorm) where
  lock_account_lem :
      (x : ℤ) (a : Account) (w : World)
      → IsUp w
      → IsSolvent a
      → pos 0 ≤ℤ x
      → x ≤ℤ account_available a
      → x ≤ℤ a.need_smt
      → lock_account x a w ≡ (ret none, saved (locked x a) w)
  unfolding lock_account
  lock_account_lem x a w up' s nonneg fits needs =
      let enough : ltb_ℤ (account_available a) x ≡ false = ground arith in
      let needed : ltb_ℤ a.need_smt x ≡ false = ground arith in
      rw (enough, needed)
        (checked_save-eq g (locked x a) w up'
          (IsSolvent-sane (locked-IsSolvent x s nonneg fits needs)))

  -- Both calls return no error, and the account is as if the first had never been made: of two fees
  -- that are each available and needed, of a solvent account, only the second is locked, although
  -- both goroutines go on to their transactions. No other account changes.
  pub interleaved_locks_lose :
      (addr : ℕ) (x y : ℤ) (w : World)
      → IsUp w
      → IsSolvent (account_of w addr)
      → pos 0 ≤ℤ x
      → pos 0 ≤ℤ y
      → x ≤ℤ account_available (account_of w addr)
      → y ≤ℤ account_available (account_of w addr)
      → x ≤ℤ (account_of w addr).need_smt
      → y ≤ℤ (account_of w addr).need_smt
      → let (r, v) = interleaved_locks addr x y w in
        (r ≡ ret (none, none)) × Sets w addr (locked y (account_of w addr)) v
  unfolding interleaved_locks
  interleaved_locks_lose addr x y w up' s hx hy fx fy nx ny =
      let a = account_of w addr in
      let at = read-address addr (p.gorm.rows w.db.accounts) in
      let u = saved (locked x a) w in
      let v = saved (locked y a) u in
      let first =
        saved-Sets g addr (locked x a) w up' at (IsSolvent-sane (locked-IsSolvent x s hx fx nx)) in
      let second =
        saved-Sets g addr (locked y a) u first.1 at
          (IsSolvent-sane (locked-IsSolvent y s hy fy ny)) in
      let run : interleaved_locks addr x y w ≡ (ret (none, none), v) = ground (
        arith,
        account_get_account-read g addr w up',
        lock_account_lem x a w up' s hx fx nx,
        lock_account_lem y a u first.1 s hy fy ny,
      ) in
      subst
        (λ (z : Outcome (Option Message × Option Message) × World).
          (z.0 ≡ ret (none, none)) × Sets w addr (locked y a) z.1)
        (sym run) (refl, Sets-again addr (locked x a) (locked y a) w u v first second)
