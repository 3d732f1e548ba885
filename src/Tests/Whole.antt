-- ===== src/Tests/Whole.antt =====
-- The theorems on the whole service, applied to the sample data.
use photon_monitoring.Base.{
  ℕ, pos, List, ◌≡◌, refl, some, [], ◌∷◌, true, false, arith, int_laws, find?, ◌==◌, text_eq,
  Bool-cases, inl, inr,
}
use photon_monitoring.Orm.Memory.{memory-IsDocumented}
use photon_monitoring.Platform.{reply}
use photon_monitoring.World.{World, ret}
use photon_monitoring.World.Total.{Returns}
use photon_monitoring.Models.Account.{to_account, is_sane}
use photon_monitoring.Models.Account.Rules.{account_of, read}
use photon_monitoring.Models.Account.Solvency.{IsSolvent}
use photon_monitoring.Models.Account.Invariant.{AllSolvent}
use photon_monitoring.Models.Account.Ledger.{
  Command, deposit, lock, unlock, use_up, obey_all, ledger_of, execute_all,
}
use photon_monitoring.Models.Account.Ledger.Refines.{execute_all-obeys}
use photon_monitoring.Chain.Blocks.{block, handle_state_change}
use photon_monitoring.Chain.Verifier.Frame.{chain_verifier}
use photon_monitoring.Rest.{delegate}
use photon_monitoring.Rest.Stored.{Responds, delegate-Answered}
use photon_monitoring.Smt.{Query, get_new_transfer}
use photon_monitoring.Smt.Reply.{Replied, get_new_transfer-Replied}
use photon_monitoring.System.{start, later, state_change, received, request}
use photon_monitoring.System.Solvent.{Reach-IsSolvent}
use photon_monitoring.Tests.{test_platform, sample_world, sample_account}
use photon_monitoring.Tests.Accounts.{sample-IsHealthy, sample_amount-nonneg}
use photon_monitoring.Tests.Deposits.{sample_transfer}
use photon_monitoring.Tests.Verified.{signed_request}

sample_accounts : (addr : ℕ) → IsSolvent (read addr (sample_account ∷ []))
unfolding find? to_account
sample_accounts addr = elim (Bool-cases (7 == addr)) [
  | inl e ↦ rw e (omega int_laws)
  | inr e ↦ rw e (omega int_laws)
]

sample-AllSolvent : AllSolvent sample_world
sample-AllSolvent = record { up = refl; solvent = sample_accounts }

delegate-Answered_example :
    let (r, v) = delegate (some chain_verifier) (7 ∷ []) (reply signed_request) sample_world in
    Responds memory-IsDocumented
      (7 ∷ [])
      (reply signed_request)
      sample_world
      sample-IsHealthy
      sample-AllSolvent
      r
      v
delegate-Answered_example =
    delegate-Answered memory-IsDocumented (7 ∷ []) (reply signed_request) sample_world
      sample-IsHealthy sample-AllSolvent

-- A database without rows.
abbrev fresh_world : World
fresh_world = record sample_world {
  db = record sample_world.db { delegates = []; punishes = []; accounts = [] };
}

-- A deposit arrives, an app posts a request, and a block comes.
abbrev credited : World
credited =
    (get_new_transfer (some (some sample_transfer ∷ [])) (record { from = pos 0; stopped = false })
      fresh_world).1

abbrev requested : World
requested = (delegate (some chain_verifier) (7 ∷ []) (reply signed_request) credited).1

abbrev at_block : World
at_block = (handle_state_change (block (pos 80)) requested).1

Reach-IsSolvent_example :
    IsSolvent (account_of at_block 7) × (is_sane (account_of at_block 7) ≡ true)
Reach-IsSolvent_example =
    Reach-IsSolvent memory-IsDocumented (omega arith) at_block
      (later
        (later
          (later (start fresh_world (record { up = refl; empty = refl })) (
            received (record { from = pos 0; stopped = false }) (some sample_transfer ∷ [])
              (sample_amount-nonneg, tt)))
          (request (7 ∷ []) (reply signed_request)))
        (state_change (block (pos 80))))
      7

abbrev asked : Query
asked = record { from = pos 0; stopped = false }

get_new_transfer-Replied_example :
    Returns
      (get_new_transfer (some (some sample_transfer ∷ [])) asked)
      sample_world
      (λ s' v. Replied asked (sample_transfer ∷ []) sample_world s' v)
unfolding text_eq
get_new_transfer-Replied_example =
    get_new_transfer-Replied memory-IsDocumented asked (sample_transfer ∷ []) sample_world refl
      ((refl, sample_amount-nonneg), tt) refl sample-AllSolvent

-- Two accounts; the last unlock is refused, and so is the lock of the account without a row.
abbrev commands : List Command
commands =
    deposit 7 (pos 20)
    ∷ lock 7 (pos 5)
    ∷ lock 9 (pos 1)
    ∷ use_up 7 (pos 5)
    ∷ unlock 7 (pos 100)
    ∷ []

execute_all-obeys_example :
    let (r, v) = execute_all commands sample_world in
    let (es, l) = obey_all commands (ledger_of sample_world) in
    (r ≡ ret es) × (ledger_of v ≡ l) × AllSolvent v
execute_all-obeys_example =
    execute_all-obeys memory-IsDocumented commands sample_world
      (omega arith, (omega arith, (omega arith, (omega arith, (omega arith, tt)))))
      sample-AllSolvent
