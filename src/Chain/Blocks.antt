-- ===== src/Chain/Blocks.antt =====
-- chainservice/events.go: a new block, the dispatch of an event, the loop over the events, and the
-- goroutines that a block starts.
pub mod CatchUp
pub mod Once
pub mod ByOther
pub mod Invariant
use photon_monitoring.Base.{
  ℕ, zero, suc, ℤ, pos, Bool, true, false, not, ◌&&◌, Option, none, some, List, [], ◌∷◌, ⊤, ltb_ℤ,
  eqb_ℤ, ◌+ℤ◌, ◌-ℤ◌, pos_part, if◌then◌else◌,
}
use photon_monitoring.Orm.{Fetch, found, not_found, failed}
use photon_monitoring.Platform.{Platform, Reply, reply, reply_err}
use photon_monitoring.World.{
  M, World, ◌>>=◌, ◌>>◌, pure, panic, skip, gets, spawn, Job, unlocks_job, update_and_unlocks_job,
  punishes_job, ret,
}
use photon_monitoring.Models.Rows.{
  Delegate, DelegateStatus, init, running, success_finished_by_other, DelegateMonitor, MonitorType,
  unlock_and_update_balance_proof, punish_monitor,
}
use photon_monitoring.Models.Delegate.{get_delegate_by_key, update_delegate_status, is_error}
use photon_monitoring.Models.Monitor.{get_delegate_monitor_list}
use photon_monitoring.Models.BlockNumber.{save_latest_block_number}
use photon_monitoring.Models.Service.{is_init}
use photon_monitoring.Chain.Secrets.{do_delegate_secrets}
use photon_monitoring.Chain.BalanceProof.{do_delegate_update_balance_proof}
use photon_monitoring.Chain.Unlocks.{do_delegate_unlocks}
use photon_monitoring.Chain.Punishes.{do_delegate_punishes}
use photon_monitoring.Chain.Events.{handle_closed, handle_balance_proof_updated, handle_settled}

-- The state changes that handleStateChange tells apart.
pub data StateChange : Type 0 where
  block : ℤ → StateChange
  closed : (channel : ℕ) → StateChange
  balance_proof_updated : (channel participant : ℕ) → StateChange
  cooperative_settled : (channel : ℕ) → StateChange
  withdrawn : (channel : ℕ) → StateChange
  settled : (channel : ℕ) → StateChange
  token_added : StateChange
  other_change : StateChange

pub is_by_other : DelegateStatus → Bool
is_by_other success_finished_by_other = true
is_by_other _ = false

module _ ⦃p : Platform⦄ where
  or_zero_block : Option ℤ → ℤ
  or_zero_block none = pos 0
  or_zero_block (some n) = n

  -- GetBlockNumber
  pub get_block_number : M ℤ
  unfolding or_zero_block
  get_block_number = gets (λ w. or_zero_block w.block_number)

  pub store_block_number : ℤ → M ⊤
  store_block_number n w = (ret tt, record w { block_number = some n })

  -- The branch of MonitorTypeUnlockAndUpdateBalanceProof.
  start_unlock : Delegate → M ⊤
  start_unlock d =
      let run = (do
        r ← update_delegate_status d running
        if is_error r.1 then skip else spawn (update_and_unlocks_job r.0)) in
      if is_by_other d.status
      then spawn (unlocks_job d)
      else if not (is_init d.status)
      then skip
      else run

  start_monitor : MonitorType → Delegate → M ⊤
  unfolding start_unlock is_by_other
  start_monitor unlock_and_update_balance_proof d = start_unlock d
  start_monitor punish_monitor d = spawn (punishes_job d)

  -- One round of the loop over the monitors, and the rounds after it: a delegate that was deleted
  -- is passed over, and a query that failed ends the loop, with `false`.
  monitor_round : MonitorType → Fetch Delegate → M Bool → M Bool
  unfolding start_monitor
  monitor_round type not_found rest = rest
  monitor_round type (failed e) rest = pure false
  monitor_round type (found d) rest = do start_monitor type d; rest

  pub do_monitors : List DelegateMonitor → M Bool
  unfolding monitor_round
  do_monitors [] = pure true
  do_monitors (m ∷ ms) = do
    r ← get_delegate_by_key m.delegate_key
    monitor_round m.type r (do_monitors ms)

  finish_block : ℤ → Reply (List DelegateMonitor) → M ⊤
  unfolding do_monitors
  finish_block n (reply_err e) = skip
  finish_block n (reply ms) = do
    done ← do_monitors ms
    if done then save_latest_block_number n else skip

  -- handleBlockNumber from its Store on.
  pub process_block : ℤ → ℤ → M ⊤
  unfolding finish_block store_block_number
  process_block last_block_number n = do
    store_block_number n
    do_delegate_secrets last_block_number
    ms ← get_delegate_monitor_list n
    finish_block n ms

  -- `for i := first; …; i++ { handle(i) }`, for a number of rounds.
  for_blocks : (ℤ → M ⊤) → ℕ → ℤ → M ⊤
  for_blocks handle zero first = skip
  for_blocks handle (suc rounds) first = do handle first; for_blocks handle rounds (first +ℤ pos 1)

  -- The blocks between the last one and `n`.
  missed : ℤ → ℤ → ℕ
  missed last n =
      if not (eqb_ℤ last (pos 0)) && ltb_ℤ last (n -ℤ pos 1)
      then pos_part (n -ℤ pos 1 -ℤ last)
      else 0

  -- handleBlockNumber, with a bound on the depth of its calls of itself.
  pub handle_block_number : ℕ → ℤ → M ⊤
  unfolding for_blocks missed process_block get_block_number
  handle_block_number zero n = panic
  handle_block_number (suc depth) n = do
    last ← get_block_number
    for_blocks (handle_block_number depth) (missed last n) (last +ℤ pos 1)
    process_block last n

  pub handle_state_change : StateChange → M ⊤
  handle_state_change (block n) = handle_block_number 2 n
  handle_state_change (closed channel) = handle_closed channel
  handle_state_change (balance_proof_updated channel participant) =
      handle_balance_proof_updated channel participant
  handle_state_change (cooperative_settled channel) = handle_settled channel
  handle_state_change (withdrawn channel) = handle_settled channel
  handle_state_change (settled channel) = handle_settled channel
  handle_state_change token_added = skip
  handle_state_change other_change = skip

  -- What `loop` does with the state changes that arrive.
  pub handle_all : List StateChange → M ⊤
  unfolding handle_state_change
  handle_all [] = skip
  handle_all (st ∷ sts) = do handle_state_change st; handle_all sts

  -- A goroutine that handleBlockNumber has started, run without interruption.
  pub run_job : Job → M ⊤
  run_job (unlocks_job d) = do_delegate_unlocks d
  run_job (update_and_unlocks_job d) = do
    d ← do_delegate_update_balance_proof d
    do_delegate_unlocks d
  run_job (punishes_job d) = do_delegate_punishes d
