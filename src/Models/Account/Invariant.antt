-- ===== src/Models/Account/Invariant.antt =====
-- The invariant of the accounts table: every account is solvent. Each operation of account.go keeps
-- it, and so does an action that does not write the table.
use photon_monitoring.Base.{
  ℕ, ℤ, pos, ◌≡◌, refl, sym, subst, ap, inl, inr, Bool, true, false, Option, Text, ◌≤ℤ◌, ◌==◌,
  Bool-cases,
}
use photon_monitoring.Orm.{IsDocumented}
use photon_monitoring.Platform.{Platform}
use photon_monitoring.World.{
  World, M, ret, panicked, Outcome, end_tx, in_tx, outer, spawn, Job, write, delegates, punishes,
  announce_disposes, monitors, transfers, last_block_numbers, records,
}
use photon_monitoring.World.Frame.{Keeps}
use photon_monitoring.World.Preserve.{Preserves, preserve_rules}
use photon_monitoring.Models.Rows.{
  Account, Delegate, DelegatePunish, DelegateAnnounceDispose, DelegateMonitor, ReceivedTransfer,
  LastBlockNumber, DelegateExecuteRecord,
}
use photon_monitoring.Models.Account.{
  account_get_account, account_is_balance_enough, account_sanity, account_lock_smt,
  account_unlock_smt, account_use_smt, account_add_smt,
}
use photon_monitoring.Models.Account.Solvency.{
  IsSolvent, locked, unlocked, used, deposited, locked-IsSolvent, unlocked-IsSolvent,
  used-IsSolvent, deposited-IsSolvent,
}
use photon_monitoring.Models.Account.Rules.{account_of, IsUp, OnlyAccount, Sets, read}
use photon_monitoring.Models.Account.Branches.{
  account_lock_smt-branches, account_unlock_smt-branches, account_use_smt-branches,
}
use photon_monitoring.Models.Account.Deposit.{account_add_smt_lem}

module _ ⦃p : Platform⦄ where
  -- The accounts table answers, and each address reads a solvent account.
  pub record AllSolvent (w : World) : Type 0 where
    pub up : IsUp w
    pub solvent : (addr : ℕ) → IsSolvent (account_of w addr)

  -- A change of one account, to a solvent one.
  pub AllSolvent-OnlyAccount :
      (w v : World) (addr : ℕ) (a : Account)
      → AllSolvent w
      → IsSolvent a
      → IsUp v
      → OnlyAccount w addr a v
      → AllSolvent v
  AllSolvent-OnlyAccount w v addr a h s up' only = record {
    up = up';
    solvent = λ b.
        subst IsSolvent (sym (only b))
          (elim (Bool-cases (addr == b)) [ inl e ↦ rw e s | inr e ↦ rw e (h.solvent b) ]);
  }

  AllSolvent-Sets :
      (w v : World) (addr : ℕ) (a : Account)
      → AllSolvent w
      → IsSolvent a
      → Sets w addr a v
      → AllSolvent v
  AllSolvent-Sets w v addr a h s (only, up', same) = AllSolvent-OnlyAccount w v addr a h s up' only

  -- A table with the same rows.
  AllSolvent-rows :
      (w v : World)
      → AllSolvent w
      → IsUp v
      → p.gorm.rows v.db.accounts ≡ p.gorm.rows w.db.accounts
      → AllSolvent v
  AllSolvent-rows w v h up' e = record {
    up = up';
    solvent = λ b. subst (λ rs. IsSolvent (read b rs)) (sym e) (h.solvent b);
  }

  pub Preserves-kept :
      {A : Type 0} (m : M A) → Keeps (λ w. w.db.accounts) m → Preserves AllSolvent m
  Preserves-kept m k = record {
    at = λ w h.
        AllSolvent-rows w (m w).1 h (subst (λ t. p.gorm.up t ≡ true) (sym (k.at w)) h.up)
          (ap (λ t. p.gorm.rows t) (k.at w));
  }

  -- What the actions that write other parts of the state keep.
  pub outer-kept :
      (A : Type 0) (f : p.Outside → A × p.Outside) → Keeps (λ w. w.db.accounts) (outer f)
  outer-kept A f = record { at = λ w. refl }

  pub records-kept :
      (f : p.gorm.Table DelegateExecuteRecord → Option Text × p.gorm.Table DelegateExecuteRecord)
      → Keeps (λ w. w.db.accounts) (write records f)
  records-kept f = record { at = λ w. refl }

  pub delegates-kept :
      (f : p.gorm.Table Delegate → Option Text × p.gorm.Table Delegate)
      → Keeps (λ w. w.db.accounts) (write delegates f)
  delegates-kept f = record { at = λ w. refl }

  pub Preserves-outer :
      {A : Type 0} (f : p.Outside → A × p.Outside) → Preserves AllSolvent (outer f)
  Preserves-outer f = Preserves-kept (outer f) (outer-kept _ f)

  pub Preserves-spawn : (j : Job) → Preserves AllSolvent (spawn j)
  Preserves-spawn j = Preserves-kept (spawn j) (record { at = λ w. refl })

  pub Preserves-delegates :
      (f : p.gorm.Table Delegate → Option Text × p.gorm.Table Delegate)
      → Preserves AllSolvent (write delegates f)
  Preserves-delegates f = Preserves-kept (write delegates f) (delegates-kept f)

  pub Preserves-punishes :
      (f : p.gorm.Table DelegatePunish → Option Text × p.gorm.Table DelegatePunish)
      → Preserves AllSolvent (write punishes f)
  Preserves-punishes f = Preserves-kept (write punishes f) (record { at = λ w. refl })

  pub Preserves-announce_disposes :
      (f : p.gorm.Table DelegateAnnounceDispose
        → Option Text × p.gorm.Table DelegateAnnounceDispose)
      → Preserves AllSolvent (write announce_disposes f)
  Preserves-announce_disposes f =
      Preserves-kept (write announce_disposes f) (record { at = λ w. refl })

  pub Preserves-monitors :
      (f : p.gorm.Table DelegateMonitor → Option Text × p.gorm.Table DelegateMonitor)
      → Preserves AllSolvent (write monitors f)
  Preserves-monitors f = Preserves-kept (write monitors f) (record { at = λ w. refl })

  pub Preserves-transfers :
      (f : p.gorm.Table ReceivedTransfer → Option Text × p.gorm.Table ReceivedTransfer)
      → Preserves AllSolvent (write transfers f)
  Preserves-transfers f = Preserves-kept (write transfers f) (record { at = λ w. refl })

  pub Preserves-last_block_numbers :
      (f : p.gorm.Table LastBlockNumber → Option Text × p.gorm.Table LastBlockNumber)
      → Preserves AllSolvent (write last_block_numbers f)
  Preserves-last_block_numbers f =
      Preserves-kept (write last_block_numbers f) (record { at = λ w. refl })

  pub account_get_account-Preserves : (addr : ℕ) → Preserves AllSolvent (account_get_account addr)
  unfolding account_get_account
  account_get_account-Preserves addr = search preserve_rules

  pub account_is_balance_enough-Preserves :
      (addr : ℕ) → Preserves AllSolvent (account_is_balance_enough addr)
  unfolding account_is_balance_enough account_sanity
  account_is_balance_enough-Preserves addr = search (preserve_rules, account_get_account-Preserves)

pub ruleset solvent_rules = (
  preserve_rules, Preserves-outer, Preserves-spawn, Preserves-delegates, Preserves-punishes,
  Preserves-announce_disposes, Preserves-monitors, Preserves-transfers,
  Preserves-last_block_numbers, account_get_account-Preserves, account_is_balance_enough-Preserves,
)

module _ ⦃p : Platform⦄ (g : IsDocumented p.gorm) where
  AllSolvent-end_tx :
      {A : Type 0} (failed : A → Bool) (r : Outcome A) (w v : World)
      → AllSolvent w
      → AllSolvent v
      → AllSolvent (end_tx failed r w v).1
  AllSolvent-end_tx failed (ret a) w v h k = elim (Bool-cases (failed a)) [
    | inl e ↦
        let (rows', up') = g.rollback_up w.db.accounts v.db.accounts k.up in
        rw e (AllSolvent-rows w (end_tx (λ _. true) (ret a) w v).1 h up' rows')
    | inr e ↦
        let (rows', up') = g.commit_up w.db.accounts v.db.accounts k.up in
        rw e (AllSolvent-rows v (end_tx (λ _. false) (ret a) w v).1 k up' rows')
  ]
  AllSolvent-end_tx failed panicked w v h k =
      let (rows', up') = g.commit_up w.db.accounts v.db.accounts k.up in
      AllSolvent-rows v (end_tx failed panicked w v).1 k up' rows'

  -- A transaction, whether it commits or rolls back.
  pub Preserves-in_tx :
      {A : Type 0} (failed : A → Bool) (m : M A)
      → Preserves AllSolvent m
      → Preserves AllSolvent (in_tx failed m)
  Preserves-in_tx failed m k = record {
    at = λ w h. AllSolvent-end_tx failed (m w).0 w (m w).1 h (k.at w h);
  }

module _ ⦃p : Platform⦄ (g : IsDocumented p.gorm) (x : ℤ) (nonneg : pos 0 ≤ℤ x) where
  pub account_lock_smt-Preserves : (addr : ℕ) → Preserves AllSolvent (account_lock_smt addr x)
  account_lock_smt-Preserves addr = record {
    at = λ w h. elim (account_lock_smt-branches g addr x w h.up (h.solvent addr) nonneg) [
      | inl (fits, needs, e, sets) ↦
          AllSolvent-Sets w (account_lock_smt addr x w).1 addr (locked x (account_of w addr)) h
            (locked-IsSolvent x (h.solvent addr) nonneg fits needs) sets
      | inr (inl (short, e, same)) ↦ subst AllSolvent (sym same) h
      | inr (inr (fits, unneeded, e, same)) ↦ subst AllSolvent (sym same) h
    ];
  }

  pub account_unlock_smt-Preserves : (addr : ℕ) → Preserves AllSolvent (account_unlock_smt addr x)
  account_unlock_smt-Preserves addr = record {
    at = λ w h. elim (account_unlock_smt-branches g addr x w h.up (h.solvent addr) nonneg) [
      | inl (fits, e, sets) ↦
          AllSolvent-Sets w (account_unlock_smt addr x w).1 addr (unlocked x (account_of w addr)) h
            (unlocked-IsSolvent x (h.solvent addr) nonneg fits) sets
      | inr (short, e, same) ↦ subst AllSolvent (sym same) h
    ];
  }

  pub account_use_smt-Preserves : (addr : ℕ) → Preserves AllSolvent (account_use_smt addr x)
  account_use_smt-Preserves addr = record {
    at = λ w h. elim (account_use_smt-branches g addr x w h.up (h.solvent addr) nonneg) [
      | inl (fits, e, sets) ↦
          AllSolvent-Sets w (account_use_smt addr x w).1 addr (used x (account_of w addr)) h
            (used-IsSolvent x (h.solvent addr) nonneg fits) sets
      | inr (short, e, same) ↦ subst AllSolvent (sym same) h
    ];
  }

  pub account_add_smt-Preserves : (addr : ℕ) → Preserves AllSolvent (account_add_smt addr x)
  account_add_smt-Preserves addr = record {
    at = λ w h.
        let (e, sets) = account_add_smt_lem g addr x w h.up (h.solvent addr) nonneg in
        AllSolvent-Sets w (account_add_smt addr x w).1 addr (deposited x (account_of w addr)) h
          (deposited-IsSolvent x (h.solvent addr) nonneg) sets;
  }
