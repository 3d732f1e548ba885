-- ===== src/Models/Account/Ledger/Refines.antt =====
-- The table of accounts implements the ledger of purses: each operation of models/account.go gives
-- the answer of the ledger and leaves the table at the ledger that the ledger's own operation gives.
use photon_monitoring.Base.{
  ℕ, ℤ, pos, ◌≡◌, refl, ap, ◌∙◌, inl, inr, Bool-cases, Option, none, some, List, [], ◌∷◌, All, ◌==◌,
  ◌≤ℤ◌, ◌+ℤ◌, ◌-ℤ◌, ltb_ℤ, false, true, arith, int_laws,
}
use std.Path.{fun_ext}
use photon_monitoring.Orm.{IsDocumented}
use photon_monitoring.Platform.{Platform}
use photon_monitoring.World.{World, Outcome, ret}
use photon_monitoring.Models.Rows.{
  Account, Message, balance_not_enough, need_smt_smaller, error_unlock_smt,
}
use photon_monitoring.Models.Account.{
  account_available, account_add_smt, account_lock_smt, account_unlock_smt, account_use_smt,
}
use photon_monitoring.Models.Account.Solvency.{locked, unlocked, used, deposited}
use photon_monitoring.Models.Account.Rules.{account_of, Sets}
use photon_monitoring.Models.Account.Branches.{
  account_lock_smt-branches, account_unlock_smt-branches, account_use_smt-branches,
}
use photon_monitoring.Models.Account.Deposit.{account_add_smt_lem}
use photon_monitoring.Models.Account.Invariant.{
  AllSolvent, account_lock_smt-Preserves, account_unlock_smt-Preserves, account_use_smt-Preserves,
  account_add_smt-Preserves,
}
use photon_monitoring.Models.Account.Ledger.{
  Motion, done, refused, Command, deposit, lock, unlock, use_up, put, deposit_in, lock_in,
  unlock_in, use_in, settled, obey, obey_all, purse_of, ledger_of, execute, execute_all,
}

abbrev pub Nonneg : Command → Type 0
Nonneg (deposit addr x) = pos 0 ≤ℤ x
Nonneg (lock addr x) = pos 0 ≤ℤ x
Nonneg (unlock addr x) = pos 0 ≤ℤ x
Nonneg (use_up addr x) = pos 0 ≤ℤ x

module _ (x : ℤ) (a : Account) where
  available-locked : account_available a -ℤ x ≡ account_available (locked x a)
  unfolding account_available
  available-locked = omega int_laws

  available-unlocked : account_available a +ℤ x ≡ account_available (unlocked x a)
  unfolding account_available
  available-unlocked = omega int_laws

  available-used : account_available a ≡ account_available (used x a)
  unfolding account_available
  available-used = omega int_laws

-- The four movements, seen on the purse.
module _ (x : ℤ) (a : Account) where
  deposit_in-purse_of : deposit_in x (purse_of a) ≡ done (purse_of (deposited x a))
  unfolding deposit_in purse_of account_available
  deposit_in-purse_of = ap (λ v. done (record (purse_of a) { available = v })) (omega int_laws)

  lock_in-purse_of :
      x ≤ℤ account_available a
      → x ≤ℤ a.need_smt
      → lock_in x (purse_of a) ≡ done (purse_of (locked x a))
  unfolding lock_in purse_of
  lock_in-purse_of fits needs =
      let enough : ltb_ℤ (account_available a) x ≡ false = ground arith in
      let needed : ltb_ℤ a.need_smt x ≡ false = ground arith in
      rw (enough, needed)
        (ap (λ v. done (record (purse_of (locked x a)) { available = v })) (available-locked x a))

  unlock_in-purse_of : x ≤ℤ a.locked_smt → unlock_in x (purse_of a) ≡ done (purse_of (unlocked x a))
  unfolding unlock_in purse_of
  unlock_in-purse_of fits =
      let enough : ltb_ℤ a.locked_smt x ≡ false = ground arith in
      rw enough (
        ap (λ v. done (record (purse_of (unlocked x a)) { available = v }))
          (available-unlocked x a))

  use_in-purse_of : x ≤ℤ a.locked_smt → use_in x (purse_of a) ≡ done (purse_of (used x a))
  unfolding use_in purse_of
  use_in-purse_of fits =
      let enough : ltb_ℤ a.locked_smt x ≡ false = ground arith in
      rw enough
        (ap (λ v. done (record (purse_of (used x a)) { available = v })) (available-used x a))

  lock_in-short :
      ¬ (x ≤ℤ account_available a)
      → lock_in x (purse_of a) ≡ refused (balance_not_enough (account_available a) x)
  unfolding lock_in purse_of
  lock_in-short short = let e : ltb_ℤ (account_available a) x ≡ true = ground arith in rw e refl

  lock_in-unneeded :
      x ≤ℤ account_available a
      → ¬ (x ≤ℤ a.need_smt)
      → lock_in x (purse_of a) ≡ refused (need_smt_smaller a.need_smt x)
  unfolding lock_in purse_of
  lock_in-unneeded fits short =
      let enough : ltb_ℤ (account_available a) x ≡ false = ground arith in
      let e : ltb_ℤ a.need_smt x ≡ true = ground arith in rw (enough, e) refl

  unlock_in-short :
      ¬ (x ≤ℤ a.locked_smt) → unlock_in x (purse_of a) ≡ refused (error_unlock_smt x a.locked_smt)
  unfolding unlock_in purse_of
  unlock_in-short short = let e : ltb_ℤ a.locked_smt x ≡ true = ground arith in rw e refl

  use_in-short :
      ¬ (x ≤ℤ a.locked_smt) → use_in x (purse_of a) ≡ refused (error_unlock_smt x a.locked_smt)
  unfolding use_in purse_of
  use_in-short short = let e : ltb_ℤ a.locked_smt x ≡ true = ground arith in rw e refl

module _ ⦃p : Platform⦄ where
  -- A change of one account is a change of one purse.
  ledger_of-Sets :
      (addr : ℕ) (a : Account) (w v : World)
      → Sets w addr a v
      → ledger_of v ≡ put addr (purse_of a) (ledger_of w)
  unfolding ledger_of put
  ledger_of-Sets addr a w v (only, _, _) = fun_ext (λ b.
      ap purse_of (only b)
      ∙ elim (Bool-cases (addr == b)) [ inl e ↦ rw e refl | inr e ↦ rw e refl ])

  -- What a call that came to `(r, v)` must be for a motion of the purse of `addr`.
  abbrev Settles : ℕ → Motion → World → Outcome (Option Message) × World → Type 0
  Settles addr f w (r, v) =
      let (e, l) = settled addr f (ledger_of w) in (r ≡ ret e) × (ledger_of v ≡ l) × AllSolvent v

  Settles-done :
      (addr : ℕ) (f : Motion) (b : Account) (w v : World) (r : Outcome (Option Message))
      → f ≡ done (purse_of b)
      → r ≡ ret none
      → Sets w addr b v
      → AllSolvent v
      → Settles addr f w (r, v)
  unfolding settled
  Settles-done addr f b w v r at e sets s = rw at (e, ledger_of-Sets addr b w v sets, s)

  Settles-refused :
      (addr : ℕ) (f : Motion) (t : Message) (w v : World) (r : Outcome (Option Message))
      → f ≡ refused t
      → r ≡ ret (some t)
      → v ≡ w
      → AllSolvent w
      → Settles addr f w (r, v)
  unfolding settled
  Settles-refused addr f t w v r at e same s = rw (at, same) (e, refl, s)

module _ ⦃p : Platform⦄ (g : IsDocumented p.gorm) (addr : ℕ) (x : ℤ) (n : pos 0 ≤ℤ x) (w : World)
    (s : AllSolvent w) where
  abbrev held : Account
  held = account_of w addr

  deposit-Settles : Settles addr (deposit_in x (purse_of held)) w (execute (deposit addr x) w)
  unfolding execute
  deposit-Settles =
      let v = (account_add_smt addr x w).1 in
      let (e, sets) = account_add_smt_lem g addr x w s.up (s.solvent addr) n in
      let run : execute (deposit addr x) w ≡ (ret none, v) = ground (arith, e) in
      rw run (
        Settles-done addr (deposit_in x (purse_of held)) (deposited x held) w v (ret none)
          (deposit_in-purse_of x held) refl sets ((account_add_smt-Preserves g x n addr).at w s))

  lock-Settles : Settles addr (lock_in x (purse_of held)) w (account_lock_smt addr x w)
  lock-Settles = elim (account_lock_smt-branches g addr x w s.up (s.solvent addr) n) [
    | inl (fits, needs, e, sets) ↦
        Settles-done addr (lock_in x (purse_of held)) (locked x held) w _ _
          (lock_in-purse_of x held fits needs) e sets
          ((account_lock_smt-Preserves g x n addr).at w s)
    | inr (inl (short, e, same)) ↦
        Settles-refused addr (lock_in x (purse_of held)) _ w _ _ (lock_in-short x held short) e same
          s
    | inr (inr (fits, short, e, same)) ↦
        Settles-refused addr (lock_in x (purse_of held)) _ w _ _
          (lock_in-unneeded x held fits short) e same s
  ]

  unlock-Settles : Settles addr (unlock_in x (purse_of held)) w (account_unlock_smt addr x w)
  unlock-Settles = elim (account_unlock_smt-branches g addr x w s.up (s.solvent addr) n) [
    | inl (fits, e, sets) ↦
        Settles-done addr (unlock_in x (purse_of held)) (unlocked x held) w _ _
          (unlock_in-purse_of x held fits) e sets ((account_unlock_smt-Preserves g x n addr).at w s)
    | inr (short, e, same) ↦
        Settles-refused addr (unlock_in x (purse_of held)) _ w _ _ (unlock_in-short x held short) e
          same s
  ]

  use_up-Settles : Settles addr (use_in x (purse_of held)) w (account_use_smt addr x w)
  use_up-Settles = elim (account_use_smt-branches g addr x w s.up (s.solvent addr) n) [
    | inl (fits, e, sets) ↦
        Settles-done addr (use_in x (purse_of held)) (used x held) w _ _
          (use_in-purse_of x held fits) e sets ((account_use_smt-Preserves g x n addr).at w s)
    | inr (short, e, same) ↦
        Settles-refused addr (use_in x (purse_of held)) _ w _ _ (use_in-short x held short) e same s
  ]

module _ ⦃p : Platform⦄ (g : IsDocumented p.gorm) where
  -- A command gives the answer of the ledger, and leaves the state at the ledger's next one.
  execute-obeys :
      (c : Command) (w : World)
      → Nonneg c
      → AllSolvent w
      → let (r, v) = execute c w in
        let (e, l) = obey c (ledger_of w) in (r ≡ ret e) × (ledger_of v ≡ l) × AllSolvent v
  unfolding execute obey ledger_of
  execute-obeys (deposit addr x) w n s = deposit-Settles g addr x n w s
  execute-obeys (lock addr x) w n s = lock-Settles g addr x n w s
  execute-obeys (unlock addr x) w n s = unlock-Settles g addr x n w s
  execute-obeys (use_up addr x) w n s = use_up-Settles g addr x n w s

  -- While the table answers and every account is solvent, any sequence of deposits, locks, unlocks
  -- and uses of no negative amounts, on any accounts: the calls return, with the answers that the
  -- ledger of purses gives to them, and leave the table at the ledger's last state, every account
  -- solvent.
  pub execute_all-obeys :
      (cs : List Command) (w : World)
      → All Nonneg cs
      → AllSolvent w
      → let (r, v) = execute_all cs w in
        let (es, l) = obey_all cs (ledger_of w) in (r ≡ ret es) × (ledger_of v ≡ l) × AllSolvent v
  unfolding execute_all obey_all
  execute_all-obeys [] w n s = (refl, refl, s)
  execute_all-obeys (c ∷ cs) w n s =
      let (e, at, s') = execute-obeys c w n.0 s in
      let (e', at', s'') = execute_all-obeys cs (execute c w).1 n.1 s' in
      rw (← at, e, e') (refl, at', s'')
