-- ===== src/Chain/Events.antt =====
-- chainservice/events.go: the handlers of the channel events.
pub mod Settled
pub mod Closed
pub mod Updated
pub mod Invariant
use photon_monitoring.Base.{
  ℕ, ℤ, pos, ◌&&◌, Text, Option, none, some, List, [], ◌∷◌, ⊤, ◌==◌, if◌then◌else◌,
}
use photon_monitoring.Orm.{Fetch, found, not_found, failed}
use photon_monitoring.Platform.{Platform, ChannelInfo, Reply, reply, reply_err}
use photon_monitoring.World.{M, ◌>>=◌, ◌>>◌, skip, outer}
use photon_monitoring.Models.Rows.{Delegate, success_finished_by_other, delegator_update}
use photon_monitoring.Models.Delegate.{
  build_delegate_key, get_delegate_by_key, get_delegate_list_by_channel_identifier, update_object,
  delete_delegate,
}
use photon_monitoring.Models.Monitor.{add_delegate_monitor, wrap64}
use photon_monitoring.Models.Service.{is_init}

module _ ⦃p : Platform⦄ where
  -- The loop of handleClosedStateChange.
  settle_each : ℤ → List Delegate → M ⊤
  settle_each settle [] = skip
  settle_each settle (d ∷ ds) = do
    let d = record d { settle_block_number = settle }
    update_object d
    add_delegate_monitor d
    settle_each settle ds

  with_channel_info : List Delegate → Reply ChannelInfo → M ⊤
  unfolding settle_each
  with_channel_info ds (reply_err e) = skip
  with_channel_info ds (reply i) = settle_each (wrap64 (pos i.settle_block_number)) ds

  unless_token_err : ℕ → ℕ → List Delegate → Option Text → M ⊤
  unfolding with_channel_info
  unless_token_err token channel ds (some t) = skip
  unless_token_err token channel ds none = do
    i ← outer (p.channel_info token channel)
    with_channel_info ds i

  closed_delegates : ℕ → Reply (List Delegate) → M ⊤
  unfolding unless_token_err
  closed_delegates channel (reply_err e) = skip
  closed_delegates channel (reply []) = skip
  closed_delegates channel (reply (d ∷ ds)) = do
    let token = p.text_address d.token_address_str
    e ← outer (p.token_network token)
    unless_token_err token channel (d ∷ ds) e

  pub handle_closed : ℕ → M ⊤
  unfolding closed_delegates
  handle_closed channel = do
    ds ← get_delegate_list_by_channel_identifier channel
    closed_delegates channel ds

  abbrev pub finished_by_other : Delegate → Delegate
  finished_by_other d = record d { status = success_finished_by_other; error = delegator_update }

  updated_by : ℕ → Fetch Delegate → M ⊤
  updated_by participant not_found = skip
  updated_by participant (failed e) = skip
  updated_by participant (found d) =
      if is_init d.status && (p.text_address d.delegator_address_str == participant)
      then update_object (finished_by_other d)
      else skip

  pub handle_balance_proof_updated : ℕ → ℕ → M ⊤
  unfolding updated_by
  handle_balance_proof_updated channel participant = do
    r ← get_delegate_by_key (build_delegate_key channel participant)
    updated_by participant r

  delete_each : List Delegate → M ⊤
  delete_each [] = skip
  delete_each (d ∷ ds) = do e ← delete_delegate d.key; delete_each ds

  listed_or_none : Reply (List Delegate) → List Delegate
  listed_or_none (reply ds) = ds
  listed_or_none (reply_err e) = []

  -- handleSettledStateChange, and handleCooperativeSettledStateChange and
  -- handleWithdrawStateChange, whose bodies are the same.
  pub handle_settled : ℕ → M ⊤
  unfolding delete_each listed_or_none
  handle_settled channel = do
    r ← get_delegate_list_by_channel_identifier channel
    delete_each (listed_or_none r)
