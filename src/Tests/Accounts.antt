-- ===== src/Tests/Accounts.antt =====
-- The theorems on accounts and charges, applied to the sample data.
use photon_monitoring.Base.{
  pos, ◌≡◌, refl, sym, subst, some, ◌⊎◌, none, some, [], ◌∷◌, ◌≤ℤ◌, ◌+ℤ◌, ◌-ℤ◌, arith, find?,
}
use photon_monitoring.Orm.{failed}
use photon_monitoring.Orm.Memory.{memory, memory-IsDocumented}
use photon_monitoring.Platform.{Platform}
use photon_monitoring.Utils.{string_to_big_int, big_int_to_string}
use photon_monitoring.Utils.RoundTrip.{string_to_big_int-big_int_to_string}
use photon_monitoring.World.{ret, World}
use photon_monitoring.World.Total.{IsHealthy, Returns}
use photon_monitoring.Models.Rows.{Account, balance_not_enough, need_smt_smaller, error_unlock_smt}
use photon_monitoring.Models.Account.{
  to_account, account_available, account_lock_smt, account_unlock_smt, account_use_smt,
  account_add_smt,
}
use photon_monitoring.Models.Account.Solvency.{IsSolvent, locked, unlocked, used, deposited}
use photon_monitoring.Models.Account.Rules.{account_of, Sets, OnlyAccount}
use photon_monitoring.Models.Account.Branches.{
  account_lock_smt-branches, account_unlock_smt-branches, account_use_smt-branches,
}
use photon_monitoring.Models.Account.Deposit.{account_add_smt_lem}
use photon_monitoring.Models.Account.Overwritten.{account_add_smt-overwrites}
use photon_monitoring.Models.Account.Race.{interleaved_locks, interleaved_locks_lose}
use photon_monitoring.Chain.BalanceProof.{do_delegate_update_balance_proof}
use photon_monitoring.Chain.BalanceProof.Outcomes.{Updated}
use photon_monitoring.Chain.BalanceProof.Charges.{do_delegate_update_balance_proof-Updated}
use photon_monitoring.Chain.Punishes.{do_delegate_punishes}
use photon_monitoring.Chain.Punishes.Outcomes.{Punished}
use photon_monitoring.Chain.Punishes.Charges.{do_delegate_punishes-Punished}
use photon_monitoring.Chain.Secrets.{do_secret}
use photon_monitoring.Chain.Secrets.Outcomes.{Registered}
use photon_monitoring.Chain.Secrets.Charges.{do_secret-Registered}
use photon_monitoring.Chain.Unlocks.{do_delegate_unlocks}
use photon_monitoring.Chain.Unlocks.Charged.{granted}
use photon_monitoring.Chain.Unlocks.Outcomes.{Ended, billed}
use photon_monitoring.Chain.Unlocks.Status.{disposes_of, do_delegate_unlocks-Ended}
use photon_monitoring.Tests.{
  test_platform, sample_world, sample_account, sample_delegate, sample_proof, sample_unlock,
  sample_secret,
}

pub sample-IsHealthy : IsHealthy sample_world
sample-IsHealthy = record {
  delegates_up = refl;
  punishes_up = refl;
  disposes_up = refl;
  accounts_up = refl;
  monitors_up = refl;
  records_up = refl;
  block_seen = (pos 50, refl);
}

abbrev pub held : Account
held = account_of sample_world 7

pub sample-IsSolvent : IsSolvent held
unfolding find? to_account ◌+ℤ◌
sample-IsSolvent = record {
  used_nonneg = omega arith;
  locked_nonneg = omega arith;
  need_nonneg = omega arith;
  covered = omega arith;
}

-- The amount of a sample transfer.
pub sample_amount-nonneg : pos 0 ≤ℤ string_to_big_int (big_int_to_string (some (pos 5)))
sample_amount-nonneg =
    subst (λ x. pos 0 ≤ℤ x) (sym (string_to_big_int-big_int_to_string (pos 5))) (omega arith)

do_delegate_unlocks-Ended_example :
    Returns (do_delegate_unlocks sample_delegate) sample_world (λ _ v.
      Ended sample_delegate 2
        (granted sample_delegate
          (string_to_big_int sample_proof.transfer_amount_str)
          (disposes_of sample_delegate sample_world)
          (sample_unlock ∷ sample_unlock ∷ [])
          0).0
        (λ n. billed 3 2 n held)
        sample_world
        v)
unfolding find? to_account account_available ◌-ℤ◌
do_delegate_unlocks-Ended_example =
    do_delegate_unlocks-Ended memory-IsDocumented sample_delegate 3 refl sample_proof sample_unlock
      (sample_unlock ∷ []) sample_world refl refl sample-IsHealthy sample-IsSolvent (omega arith)
      (omega arith)

do_delegate_update_balance_proof-Updated_example :
    Returns
      (do_delegate_update_balance_proof sample_delegate)
      sample_world
      (λ d' v. Updated sample_delegate sample_proof (pos 5) sample_world d' v × IsHealthy v)
do_delegate_update_balance_proof-Updated_example =
    do_delegate_update_balance_proof-Updated memory-IsDocumented sample_delegate sample_proof
      sample_world (omega arith) refl sample-IsHealthy sample-IsSolvent

do_delegate_punishes-Punished_example :
    Returns
      (do_delegate_punishes sample_delegate)
      sample_world
      (λ _ v. Punished sample_delegate (pos 4) sample_world v × IsHealthy v)
do_delegate_punishes-Punished_example =
    do_delegate_punishes-Punished memory-IsDocumented sample_delegate sample_world (omega arith)
      sample-IsHealthy sample-IsSolvent

account_lock_smt-branches_example :
    let (r, v) = account_lock_smt 7 (pos 6) sample_world in
    ((pos 6 ≤ℤ account_available held)
      × (pos 6 ≤ℤ held.need_smt)
      × (r ≡ ret none)
      × Sets sample_world 7 (locked (pos 6) held) v)
    ⊎ (¬ (pos 6 ≤ℤ account_available held)
        × (r ≡ ret (some (balance_not_enough (account_available held) (pos 6))))
        × (v ≡ sample_world))
    ⊎ ((pos 6 ≤ℤ account_available held)
        × ¬ (pos 6 ≤ℤ held.need_smt)
        × (r ≡ ret (some (need_smt_smaller held.need_smt (pos 6))))
        × (v ≡ sample_world))
account_lock_smt-branches_example =
    account_lock_smt-branches memory-IsDocumented 7 (pos 6) sample_world refl sample-IsSolvent
      (omega arith)

account_unlock_smt-branches_example :
    let (r, v) = account_unlock_smt 7 (pos 6) sample_world in
    ((pos 6 ≤ℤ held.locked_smt) × (r ≡ ret none) × Sets sample_world 7 (unlocked (pos 6) held) v)
    ⊎ (¬ (pos 6 ≤ℤ held.locked_smt)
        × (r ≡ ret (some (error_unlock_smt (pos 6) held.locked_smt)))
        × (v ≡ sample_world))
account_unlock_smt-branches_example =
    account_unlock_smt-branches memory-IsDocumented 7 (pos 6) sample_world refl sample-IsSolvent
      (omega arith)

account_use_smt-branches_example :
    let (r, v) = account_use_smt 7 (pos 6) sample_world in
    ((pos 6 ≤ℤ held.locked_smt) × (r ≡ ret none) × Sets sample_world 7 (used (pos 6) held) v)
    ⊎ (¬ (pos 6 ≤ℤ held.locked_smt)
        × (r ≡ ret (some (error_unlock_smt (pos 6) held.locked_smt)))
        × (v ≡ sample_world))
account_use_smt-branches_example =
    account_use_smt-branches memory-IsDocumented 7 (pos 6) sample_world refl sample-IsSolvent
      (omega arith)

account_add_smt_example :
    let (r, v) = account_add_smt 7 (pos 6) sample_world in
    (r ≡ ret tt) × Sets sample_world 7 (deposited (pos 6) held) v
account_add_smt_example =
    account_add_smt_lem memory-IsDocumented 7 (pos 6) sample_world refl sample-IsSolvent
      (omega arith)

do_secret-Registered_example :
    Returns (do_secret (pos 60) sample_delegate sample_secret) sample_world (λ _ v.
      Registered (pos 60) sample_delegate sample_secret (pos 2) sample_world v × IsHealthy v)
do_secret-Registered_example =
    do_secret-Registered memory-IsDocumented (pos 60) sample_delegate sample_secret sample_world
      (omega arith) sample-IsHealthy sample-IsSolvent

interleaved_locks_lose_example :
    let (r, v) = interleaved_locks 7 (pos 5) (pos 6) sample_world in
    (r ≡ ret (none, none)) × Sets sample_world 7 (locked (pos 6) held) v
unfolding account_available ◌-ℤ◌ to_account find?
interleaved_locks_lose_example =
    interleaved_locks_lose memory-IsDocumented 7 (pos 5) (pos 6) sample_world refl sample-IsSolvent
      (omega arith) (omega arith) (omega arith) (omega arith) (omega arith) (omega arith)

-- The same platform, with a database whose queries of one row fail.
abbrev unread_platform : Platform
unread_platform = record test_platform { gorm = record memory { first = λ q t. failed [] } }

abbrev unread_world : World ⦃p = unread_platform⦄
unread_world = record {
  db = record {
    delegates = [];
    punishes = [];
    announce_disposes = [];
    accounts = sample_account ∷ [];
    monitors = [];
    transfers = [];
    last_block_numbers = [];
    records = [];
  };
  outside = 0;
  block_number = some (pos 50);
  jobs = [];
}

-- Of the 100 received, 10 used and 20 locked, 6 are left as received.
account_add_smt-overwrites_example :
    let (x, v) = account_add_smt ⦃p = unread_platform⦄ 7 (pos 6) unread_world in
    (x ≡ ret tt)
    × OnlyAccount ⦃p = unread_platform⦄ unread_world 7
        (record (account_of ⦃p = unread_platform⦄ unread_world 7) { total_received_smt = pos 6 })
        v
unfolding find?
account_add_smt-overwrites_example =
    account_add_smt-overwrites ⦃p = unread_platform⦄ 7 6 unread_world [] sample_account refl refl
      refl refl
