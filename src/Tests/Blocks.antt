-- ===== src/Tests/Blocks.antt =====
-- The theorems on blocks, applied to the sample data.
use photon_monitoring.Base.{
  All, List, true, false, select, find?, [], ◌∷◌, pos, ◌-ℤ◌, ◌≡◌, refl, arith,
}
use photon_monitoring.World.{World, ret, ◌>>◌, unlocks_job}
use photon_monitoring.Chain.Blocks.{
  handle_block_number, do_monitors, handle_state_change, balance_proof_updated,
}
use photon_monitoring.Chain.Blocks.ByOther.{scheduled, balance_proof_updated-unlocks_only}
use photon_monitoring.Chain.Blocks.Once.{Once, updating, do_monitors-Once}
use photon_monitoring.Chain.Blocks.CatchUp.{expected, handle_block_number-in_order}
use photon_monitoring.Chain.Events.{finished_by_other, handle_closed, handle_settled}
use photon_monitoring.Chain.Events.Settled.{has_key_of, handle_settled-rows}
use photon_monitoring.Platform.{reply}
use photon_monitoring.Models.Rows.{Delegate, DelegateMonitor, unlock_and_update_balance_proof}
use photon_monitoring.Orm.{drop_where}
use photon_monitoring.Orm.Memory.{memory-IsDocumented}
use photon_monitoring.World.Total.{Returns}
use photon_monitoring.Tests.Accounts.{sample-IsHealthy}
use photon_monitoring.Models.Delegate.{build_delegate_key}
use photon_monitoring.Models.Delegate.Saving.{in_channel}
use photon_monitoring.Models.Monitor.{wrap64, add_delegate_monitor, get_delegate_monitor_list}
use photon_monitoring.Models.Monitor.Scheduled.{add_delegate_monitor-Scheduled}
use photon_monitoring.Chain.Events.Closed.{told, settled_by, handle_closed-Settled}
use photon_monitoring.Tests.{test_platform, sample_world, sample_delegate}

-- The last block is 50: the blocks 51 and 52 are handled before 53.
handle_block_number-in_order_example :
    handle_block_number 2 (pos 53) sample_world
    ≡ expected sample_world.block_number (pos 53) sample_world
handle_block_number-in_order_example = handle_block_number-in_order 0 (pos 53) sample_world

handle_settled-rows_example : Returns (handle_settled 2) sample_world (λ _ v.
    (v.db.delegates
      ≡ drop_where
          (has_key_of (select (in_channel 2) (sample_delegate ∷ [])))
          (sample_delegate ∷ []))
    × All (λ d. in_channel 2 d ≡ false) v.db.delegates)
handle_settled-rows_example =
    handle_settled-rows memory-IsDocumented 2 sample_world sample-IsHealthy

handle_closed-Settled_example : Returns (handle_closed 2) sample_world (λ _ v.
    v.db.delegates
    ≡ settled_by
        (told 2 (select (in_channel 2) sample_world.db.delegates) sample_world)
        2
        sample_world.db.delegates)
handle_closed-Settled_example =
    handle_closed-Settled memory-IsDocumented 2 sample_world sample-IsHealthy (tt, tt)

add_delegate_monitor-Scheduled_example :
    Returns (add_delegate_monitor sample_delegate) sample_world (λ _ v.
      get_delegate_monitor_list (pos 80) v ≡ (
        ret (
            reply (
              record {
                key = 0;
                block_number = pos 80;
                type = unlock_and_update_balance_proof;
                delegate_key = 40;
              }
              ∷ [])),
        v,
      ))
unfolding select find? wrap64 ◌-ℤ◌
add_delegate_monitor-Scheduled_example =
    add_delegate_monitor-Scheduled memory-IsDocumented sample_delegate (pos 80) sample_world
      sample-IsHealthy (ground arith) refl refl (ground arith)

-- The update of the delegate is scheduled twice at block 80.
abbrev twice : List DelegateMonitor
twice =
    record {
      key = 0;
      block_number = pos 80;
      type = unlock_and_update_balance_proof;
      delegate_key = 40;
    }
    ∷ record {
      key = 1;
      block_number = pos 80;
      type = unlock_and_update_balance_proof;
      delegate_key = 40;
    }
    ∷ []

do_monitors-Once_example :
    Returns (do_monitors twice) sample_world (λ done v. (done ≡ true) × Once v)
unfolding updating
do_monitors-Once_example =
    do_monitors-Once memory-IsDocumented twice sample_world
      (record { healthy = sample-IsHealthy; started = tt; differ = tt })

-- The delegate under the key of its channel and its delegator.
abbrev keyed_delegate : Delegate
keyed_delegate = record sample_delegate { key = build_delegate_key 2 7 }

abbrev keyed_world : World
keyed_world = record sample_world {
  db = record sample_world.db { delegates = keyed_delegate ∷ [] };
}

balance_proof_updated-unlocks_only_example :
    Returns
      (handle_state_change (balance_proof_updated 2 7)
        >> do_monitors (scheduled 0 (pos 80) (build_delegate_key 2 7) ∷ []))
      keyed_world
      (λ done v. (done ≡ true) × (v.jobs ≡ unlocks_job (finished_by_other keyed_delegate) ∷ []))
unfolding find?
balance_proof_updated-unlocks_only_example =
    balance_proof_updated-unlocks_only memory-IsDocumented 2 7 keyed_delegate 0 (pos 80) keyed_world
      (record {
        delegates_up = refl;
        punishes_up = refl;
        disposes_up = refl;
        accounts_up = refl;
        monitors_up = refl;
        records_up = refl;
        block_seen = (pos 50, refl);
      })
      (ground arith) refl refl
