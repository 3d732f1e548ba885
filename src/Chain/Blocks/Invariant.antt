-- ===== src/Chain/Blocks/Invariant.antt =====
-- A state change, and a goroutine that a block has started, keep every account solvent.
use photon_monitoring.Base.{refl, ℕ, zero, suc, ℤ, pos, ◌≤ℤ◌, ◌+ℤ◌, List, [], ◌∷◌, Bool, ⊤}
use photon_monitoring.Orm.{IsDocumented, Fetch, found, not_found, failed}
use photon_monitoring.Platform.{Platform, settings, Reply, reply, reply_err}
use photon_monitoring.World.{M, Job, unlocks_job, update_and_unlocks_job, punishes_job}
use photon_monitoring.World.Preserve.{Preserves, Preserves-bind, Preserves-then, preserve_rules}
use photon_monitoring.Models.Rows.{
  Delegate, DelegateMonitor, MonitorType, unlock_and_update_balance_proof, punish_monitor,
}
use photon_monitoring.Models.Account.Invariant.{AllSolvent, Preserves-kept, solvent_rules}
use photon_monitoring.Models.Delegate.{get_delegate_by_key}
use photon_monitoring.Models.Delegate.Invariant.{delegate_rules, get_delegate_by_key-Preserves}
use photon_monitoring.Models.Monitor.Invariant.{get_delegate_monitor_list-Preserves}
use photon_monitoring.Models.BlockNumber.{save_latest_block_number, save_latest_block_number-Keeps}
use photon_monitoring.Chain.Secrets.Invariant.{do_delegate_secrets-Preserves}
use photon_monitoring.Chain.BalanceProof.Invariant.{do_delegate_update_balance_proof-Preserves}
use photon_monitoring.Chain.Unlocks.Invariant.{do_delegate_unlocks-Preserves}
use photon_monitoring.Chain.Punishes.Invariant.{do_delegate_punishes-Preserves}
use photon_monitoring.Chain.Events.Invariant.{
  handle_closed-Preserves, handle_balance_proof_updated-Preserves, handle_settled-Preserves,
}
use photon_monitoring.Chain.Blocks.{
  StateChange, block, closed, balance_proof_updated, cooperative_settled, withdrawn, settled,
  token_added, other_change, get_block_number, store_block_number, start_unlock, start_monitor,
  monitor_round, do_monitors, finish_block, process_block, for_blocks, missed, handle_block_number,
  handle_state_change, run_job,
}

module _ ⦃p : Platform⦄ where
  -- No fee of the settings is negative.
  pub record FeesNonneg : Type 0 where
    pub unlock : pos 0 ≤ℤ settings.smt_unlock
    pub update_transfer : pos 0 ≤ℤ settings.smt_update_transfer
    pub punish : pos 0 ≤ℤ settings.smt_punish
    pub secret : pos 0 ≤ℤ settings.smt_secret

  save_latest_block_number-Preserves : (n : ℤ) → Preserves AllSolvent (save_latest_block_number n)
  save_latest_block_number-Preserves n =
      Preserves-kept (save_latest_block_number n)
        (save_latest_block_number-Keeps (λ h. record { at = λ w. refl }) n)

  store_block_number-Preserves : (n : ℤ) → Preserves AllSolvent (store_block_number n)
  unfolding store_block_number
  store_block_number-Preserves n = Preserves-kept (store_block_number n) (record { at = λ w. refl })

  start_unlock-Preserves : (d : Delegate) → Preserves AllSolvent (start_unlock d)
  unfolding start_unlock
  start_unlock-Preserves d = search (solvent_rules, delegate_rules)

  start_monitor-Preserves :
      (t : MonitorType) (d : Delegate) → Preserves AllSolvent (start_monitor t d)
  unfolding start_monitor
  start_monitor-Preserves unlock_and_update_balance_proof d = start_unlock-Preserves d
  start_monitor-Preserves punish_monitor d = search solvent_rules

  monitor_round-Preserves :
      (t : MonitorType) (r : Fetch Delegate) (rest : M Bool)
      → Preserves AllSolvent rest
      → Preserves AllSolvent (monitor_round t r rest)
  unfolding monitor_round
  monitor_round-Preserves t not_found rest k = k
  monitor_round-Preserves t (failed e) rest k = search preserve_rules
  monitor_round-Preserves t (found d) rest k = search (preserve_rules, start_monitor-Preserves)

  do_monitors-Preserves : (ms : List DelegateMonitor) → Preserves AllSolvent (do_monitors ms)
  unfolding do_monitors
  do_monitors-Preserves [] = search preserve_rules
  do_monitors-Preserves (m ∷ ms) =
      Preserves-bind (get_delegate_by_key m.delegate_key)
        (λ r. monitor_round m.type r (do_monitors ms))
        (get_delegate_by_key-Preserves m.delegate_key)
        (λ r. monitor_round-Preserves m.type r (do_monitors ms) (do_monitors-Preserves ms))

  finish_block-Preserves :
      (n : ℤ) (r : Reply (List DelegateMonitor)) → Preserves AllSolvent (finish_block n r)
  unfolding finish_block
  finish_block-Preserves n (reply_err e) = search preserve_rules
  finish_block-Preserves n (reply ms) =
      search (preserve_rules, do_monitors-Preserves, save_latest_block_number-Preserves)

  for_blocks-Preserves :
      (handle : ℤ → M ⊤) (rounds : ℕ) (first : ℤ)
      → ((n : ℤ) → Preserves AllSolvent (handle n))
      → Preserves AllSolvent (for_blocks handle rounds first)
  unfolding for_blocks
  for_blocks-Preserves handle zero first k = search preserve_rules
  for_blocks-Preserves handle (suc rounds) first k =
      Preserves-then (handle first) (for_blocks handle rounds (first +ℤ pos 1)) (k first)
        (for_blocks-Preserves handle rounds (first +ℤ pos 1) k)

  get_block_number-Preserves : Preserves AllSolvent get_block_number
  unfolding get_block_number
  get_block_number-Preserves = search preserve_rules

module _ ⦃p : Platform⦄ (g : IsDocumented p.gorm) (fees : FeesNonneg) where
  process_block-Preserves : (last n : ℤ) → Preserves AllSolvent (process_block last n)
  unfolding process_block
  process_block-Preserves last n = search (
    preserve_rules,
    store_block_number-Preserves,
    do_delegate_secrets-Preserves g fees.secret,
    get_delegate_monitor_list-Preserves,
    finish_block-Preserves,
  )

  handle_block_number-Preserves :
      (depth : ℕ) (n : ℤ) → Preserves AllSolvent (handle_block_number depth n)
  unfolding handle_block_number
  handle_block_number-Preserves zero n = search preserve_rules
  handle_block_number-Preserves (suc depth) n =
      Preserves-bind get_block_number _ get_block_number-Preserves (λ last.
        Preserves-then (for_blocks (handle_block_number depth) (missed last n) (last +ℤ pos 1))
          (process_block last n)
          (for_blocks-Preserves (handle_block_number depth) (missed last n) (last +ℤ pos 1)
            (handle_block_number-Preserves depth))
          (process_block-Preserves last n))

  pub handle_state_change-Preserves :
      (st : StateChange) → Preserves AllSolvent (handle_state_change st)
  unfolding handle_state_change
  handle_state_change-Preserves (block n) = handle_block_number-Preserves 2 n
  handle_state_change-Preserves (closed channel) = handle_closed-Preserves channel
  handle_state_change-Preserves (balance_proof_updated channel participant) =
      handle_balance_proof_updated-Preserves channel participant
  handle_state_change-Preserves (cooperative_settled channel) = handle_settled-Preserves g channel
  handle_state_change-Preserves (withdrawn channel) = handle_settled-Preserves g channel
  handle_state_change-Preserves (settled channel) = handle_settled-Preserves g channel
  handle_state_change-Preserves token_added = search preserve_rules
  handle_state_change-Preserves other_change = search preserve_rules

  pub run_job-Preserves : (j : Job) → Preserves AllSolvent (run_job j)
  unfolding run_job
  run_job-Preserves (unlocks_job d) = do_delegate_unlocks-Preserves g fees.unlock d
  run_job-Preserves (update_and_unlocks_job d) = search (
    preserve_rules,
    do_delegate_update_balance_proof-Preserves g fees.update_transfer,
    do_delegate_unlocks-Preserves g fees.unlock,
  )
  run_job-Preserves (punishes_job d) = do_delegate_punishes-Preserves g fees.punish d
