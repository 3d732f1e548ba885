-- ===== src/Models/Account/Ledger.antt =====
-- What the accounts promise, without their representation: for each address a purse, of which the
-- operations move amounts. models/account.go implements it over a table of rows.
pub mod Refines
use photon_monitoring.Base.{
  ℕ, ℤ, Option, none, some, List, [], ◌∷◌, ◌==◌, ltb_ℤ, ◌+ℤ◌, ◌-ℤ◌, if◌then◌else◌,
}
use photon_monitoring.Platform.{Platform}
use photon_monitoring.World.{M, World, ◌>>=◌, ◌>>◌, pure}
use photon_monitoring.Models.Rows.{
  Account, Message, balance_not_enough, need_smt_smaller, error_unlock_smt,
}
use photon_monitoring.Models.Account.{
  account_available, account_add_smt, account_lock_smt, account_unlock_smt, account_use_smt,
}
use photon_monitoring.Models.Account.Rules.{account_of}

-- What is free, what is set aside for transactions under way, what was paid, and what is owed for
-- the work that is still to be done.
pub record Purse : Type 0 where
  pub available : ℤ
  pub locked : ℤ
  pub used : ℤ
  pub needed : ℤ

pub data Command : Type 0 where
  deposit : ℕ → ℤ → Command
  lock : ℕ → ℤ → Command
  unlock : ℕ → ℤ → Command
  use_up : ℕ → ℤ → Command

-- The answer of a command, and the purse after it.
pub data Motion : Type 0 where
  done : Purse → Motion
  refused : Message → Motion

abbrev pub Ledger : Type 0
Ledger = ℕ → Purse

unfoldable pub put : ℕ → Purse → Ledger → Ledger
put addr s l b = if addr == b then s else l b

unfoldable pub deposit_in : ℤ → Purse → Motion
deposit_in x s = done (record s { available = s.available +ℤ x })

unfoldable pub lock_in : ℤ → Purse → Motion
lock_in x s =
    if ltb_ℤ s.available x
    then refused (balance_not_enough s.available x)
    else if ltb_ℤ s.needed x
    then refused (need_smt_smaller s.needed x)
    else done
        (record s { available = s.available -ℤ x; locked = s.locked +ℤ x; needed = s.needed -ℤ x })

unfoldable pub unlock_in : ℤ → Purse → Motion
unlock_in x s =
    if ltb_ℤ s.locked x
    then refused (error_unlock_smt x s.locked)
    else done (record s { available = s.available +ℤ x; locked = s.locked -ℤ x })

unfoldable pub use_in : ℤ → Purse → Motion
use_in x s =
    if ltb_ℤ s.locked x
    then refused (error_unlock_smt x s.locked)
    else done (record s { locked = s.locked -ℤ x; used = s.used +ℤ x })

-- A refused motion leaves the ledger as it is.
pub settled : ℕ → Motion → Ledger → Option Message × Ledger
settled addr (done s) l = (none, put addr s l)
settled addr (refused m) l = (some m, l)

pub obey : Command → Ledger → Option Message × Ledger
unfolding settled
obey (deposit addr x) l = settled addr (deposit_in x (l addr)) l
obey (lock addr x) l = settled addr (lock_in x (l addr)) l
obey (unlock addr x) l = settled addr (unlock_in x (l addr)) l
obey (use_up addr x) l = settled addr (use_in x (l addr)) l

pub obey_all : List Command → Ledger → List (Option Message) × Ledger
obey_all [] l = ([], l)
obey_all (c ∷ cs) l = let (e, l') = obey c l in let (es, l'') = obey_all cs l' in (e ∷ es, l'')

pub purse_of : Account → Purse
purse_of a = record {
  available = account_available a;
  locked = a.locked_smt;
  used = a.used_smt;
  needed = a.need_smt;
}

module _ ⦃p : Platform⦄ where
  -- The ledger that a state implements.
  pub ledger_of : World → Ledger
  unfolding purse_of
  ledger_of w addr = purse_of (account_of w addr)

  pub execute : Command → M (Option Message)
  execute (deposit addr x) = do account_add_smt addr x; pure none
  execute (lock addr x) = account_lock_smt addr x
  execute (unlock addr x) = account_unlock_smt addr x
  execute (use_up addr x) = account_use_smt addr x

  pub execute_all : List Command → M (List (Option Message))
  execute_all [] = pure []
  execute_all (c ∷ cs) = do e ← execute c; es ← execute_all cs; pure (e ∷ es)
