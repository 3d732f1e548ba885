-- ===== src/Chain/Unlocks/Outcomes.antt =====
-- The status and the bill that a number of unlocked locks gives.
use photon_monitoring.Base.{
  ℕ, suc, ◌*◌, ◌≤◌, pos, ◌≡◌, ltb, ◌+ℤ◌, ◌-ℤ◌, ◌*ℤ◌, ◌==◌, int_laws, arith, upsert, if◌then◌else◌,
}
use photon_monitoring.Platform.{Platform}
use photon_monitoring.World.{World}
use photon_monitoring.World.Total.{IsHealthy}
use photon_monitoring.Models.Rows.{
  Account, Delegate, partial_success, success_finished, status_failed, unlock_partial_success,
  unlock_all_failed,
}
use photon_monitoring.Models.Account.Rules.{account_of, OnlyAccount}
use photon_monitoring.Models.Account.Solvency.{IsSolvent, locked}
use photon_monitoring.Models.Delegate.{has_key}
use photon_monitoring.Chain.Unlocks.{Tally, unlocked_status}
use photon_monitoring.Chain.Unlocks.Charged.{charged}

-- The delegate after `n` of `tried` locks were unlocked.
pub ended : ℕ → ℕ → Delegate → Delegate
ended n tried d =
    if n == tried
    then record d { status = success_finished }
    else if n == 0
    then record d { status = status_failed; error = unlock_all_failed }
    else record d { status = partial_success; error = unlock_partial_success }

-- The account after `n` of `tried` locks were unlocked, at `fee` each: the needed fee of all is
-- spent, and that of the successes is used.
abbrev pub billed : ℕ → ℕ → ℕ → Account → Account
billed fee tried n a = record a {
  need_smt = a.need_smt -ℤ pos (tried * fee);
  used_smt = a.used_smt +ℤ pos (n * fee);
}

pub billed_after_lock :
    (fee tried n : ℕ) (a : Account)
    → charged fee tried n (locked (pos (tried * fee)) a) ≡ billed fee tried n a
billed_after_lock fee tried n a =
    let l : a.locked_smt +ℤ pos (tried * fee) -ℤ pos (tried * fee) ≡ a.locked_smt =
      omega int_laws in
    λ i. record a {
      locked_smt = l i;
      need_smt = a.need_smt -ℤ pos (tried * fee);
      used_smt = a.used_smt +ℤ pos (n * fee);
    }

-- The tally of the loop gives the status by the number of successes.
pub unlocked_status-ended :
    (n tried : ℕ) (t : Tally) (d : Delegate)
    → n ≤ suc tried
    → t.has_success ≡ ltb 0 n
    → t.has_err ≡ ltb n (suc tried)
    → unlocked_status t d ≡ ended n (suc tried) d
unfolding unlocked_status ended
unlocked_status-ended n tried t d le good bad = ground arith

pub ended-key : (n tried : ℕ) (d : Delegate) → (ended n tried d).key ≡ d.key
unfolding ended
ended-key n tried d = ground arith

-- From `w` to `v` a number of the locks were unlocked: the delegator's account is what that number
-- makes of it and no other account has changed, and the row of the delegate in the table has the
-- status and the error of that number.
pub record Ended ⦃p : Platform⦄ (d : Delegate) (tried successes : ℕ) (becomes : ℕ → Account)
    (w v : World) : Type 0 where
  pub bounded : successes ≤ tried
  pub healthy : IsHealthy v
  pub account : OnlyAccount w (p.text_address d.delegator_address_str) (becomes successes) v
  pub solvent : IsSolvent (account_of v (p.text_address d.delegator_address_str))
  pub row :
      p.gorm.rows v.db.delegates
      ≡ upsert (has_key d.key) (ended successes tried d) (p.gorm.rows w.db.delegates)

pub times_fee : (fee n : ℕ) → pos fee *ℤ pos n ≡ pos (n * fee)
unfolding ◌*ℤ◌
times_fee fee n = ground arith
