-- ===== src/Chain/Unlocks/Charged.antt =====
-- The fees of some tried locks, as a change of the delegator's account.
use photon_monitoring.Base.{
  ℕ, ℤ, Bool, true, false, List, [], ◌∷◌, suc, ◌+◌, ◌*◌, ◌≤◌, pos, ◌≡◌, ◌||◌, ltb, ◌+ℤ◌, ◌-ℤ◌,
  int_laws, arith,
}
use photon_monitoring.Platform.{Platform}
use photon_monitoring.World.{World}
use photon_monitoring.World.Total.{IsHealthy}
use photon_monitoring.Models.Rows.{Account, Delegate, DelegateUnlock, DelegateAnnounceDispose}
use photon_monitoring.Models.Account.Rules.{account_of, OnlyAccount}
use photon_monitoring.Models.Account.Solvency.{IsSolvent, used, unlocked}
use photon_monitoring.Chain.Execute.Answer.{unlocking}
use photon_monitoring.Chain.Unlocks.{Tally}

-- The account after `tried` locks were tried at `fee` each and `n` of them succeeded.
abbrev pub charged : ℕ → ℕ → ℕ → Account → Account
charged fee tried n a = record a {
  locked_smt = a.locked_smt -ℤ pos (tried * fee);
  used_smt = a.used_smt +ℤ pos (n * fee);
}

-- Nothing tried, one success, one failure, and two stretches joined.
pub charged_nil : (fee : ℕ) (a : Account) → charged fee 0 0 a ≡ a
charged_nil fee a =
    let l : a.locked_smt -ℤ pos (0 * fee) ≡ a.locked_smt = omega int_laws in
    let u : a.used_smt +ℤ pos (0 * fee) ≡ a.used_smt = omega int_laws in
    λ i. record a { locked_smt = l i; used_smt = u i }

pub charged_success : (fee : ℕ) (a : Account) → used (pos fee) a ≡ charged fee 1 1 a
charged_success fee a =
    let l : fee ≡ 1 * fee = omega arith in
    λ i. record a { locked_smt = a.locked_smt -ℤ pos (l i); used_smt = a.used_smt +ℤ pos (l i) }

pub charged_failure : (fee : ℕ) (a : Account) → unlocked (pos fee) a ≡ charged fee 1 0 a
charged_failure fee a =
    let l : a.locked_smt -ℤ pos fee ≡ a.locked_smt -ℤ pos (1 * fee) = omega int_laws in
    let u : a.used_smt ≡ a.used_smt +ℤ pos (0 * fee) = omega int_laws in
    λ i. record a { locked_smt = l i; used_smt = u i }

pub charged_again :
    (fee tried n : ℕ) (m : ℕ) (a : Account)
    → charged fee tried n (charged fee 1 m a) ≡ charged fee (suc tried) (m + n) a
charged_again fee tried n m a =
    let l : a.locked_smt -ℤ pos (1 * fee) -ℤ pos (tried * fee)
        ≡ a.locked_smt -ℤ pos (suc tried * fee) =
      omega int_laws in
    let u : a.used_smt +ℤ pos (m * fee) +ℤ pos (n * fee) ≡ a.used_smt +ℤ pos ((m + n) * fee) =
      omega int_laws in
    λ i. record a { locked_smt = l i; used_smt = u i }

-- A success counts as one.
abbrev pub one_if : Bool → ℕ
one_if true = 1
one_if false = 0

-- How many of some locks the chain answers with a success, one tried after the other; and the state
-- outside after them.
module _ ⦃p : Platform⦄ where
  unfoldable pub granted :
      Delegate → ℤ → List DelegateAnnounceDispose → List DelegateUnlock → p.Outside → ℕ × p.Outside
  granted d amount das [] o = (0, o)
  granted d amount das (du ∷ dus) o =
      let (b, o') = unlocking d amount das du o in
      let (n, o'') = granted d amount das dus o' in (one_if b + n, o'')

-- From `w` and `t` to `v` and `t'`, `tried` locks were tried and `n` of them succeeded: each fee
-- was used or returned, and the tally tells whether there was a failure and a success.
pub record Charged ⦃p : Platform⦄ (delegator fee tried n : ℕ) (t t' : Tally) (w v : World)
    : Type 0 where
  pub healthy : IsHealthy v
  pub bounded : n ≤ tried
  pub account : OnlyAccount w delegator (charged fee tried n (account_of w delegator)) v
  pub solvent : IsSolvent (account_of v delegator)
  pub success : t'.has_success ≡ (t.has_success || ltb 0 n)
  pub failure : t'.has_err ≡ (t.has_err || ltb n tried)
