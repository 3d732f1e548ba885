-- ===== src/Chain/Events/Invariant.antt =====
-- The handlers of the channel events leave the accounts solvent.
use photon_monitoring.Base.{ℕ, ℤ, List, [], ◌∷◌, Option, none, some, Text}
use photon_monitoring.Orm.{IsDocumented, Fetch, found, not_found, failed}
use photon_monitoring.Platform.{Platform, ChannelInfo, Reply, reply, reply_err}
use photon_monitoring.World.{◌>>◌}
use photon_monitoring.World.Preserve.{Preserves, Preserves-bind, Preserves-then, preserve_rules}
use photon_monitoring.Models.Rows.{Delegate}
use photon_monitoring.Models.Account.Invariant.{AllSolvent, solvent_rules}
use photon_monitoring.Models.Delegate.{update_object, delete_delegate}
use photon_monitoring.Models.Delegate.Invariant.{
  delegate_rules, update_object-Preserves, delete_delegate-Preserves,
}
use photon_monitoring.Models.Monitor.{add_delegate_monitor}
use photon_monitoring.Models.Monitor.Invariant.{add_delegate_monitor-Preserves}
use photon_monitoring.Chain.Events.{
  settle_each, with_channel_info, unless_token_err, closed_delegates, handle_closed, updated_by,
  handle_balance_proof_updated, delete_each, handle_settled,
}

module _ ⦃p : Platform⦄ where
  settle_each-Preserves : (n : ℤ) (ds : List Delegate) → Preserves AllSolvent (settle_each n ds)
  unfolding settle_each
  settle_each-Preserves n [] = search preserve_rules
  settle_each-Preserves n (d ∷ ds) =
      let d' = record d { settle_block_number = n } in
      Preserves-then (update_object d') (add_delegate_monitor d' >> settle_each n ds)
        (update_object-Preserves d')
        (Preserves-then (add_delegate_monitor d') (settle_each n ds)
          (add_delegate_monitor-Preserves d') (settle_each-Preserves n ds))

  with_channel_info-Preserves :
      (ds : List Delegate) (r : Reply ChannelInfo) → Preserves AllSolvent (with_channel_info ds r)
  unfolding with_channel_info
  with_channel_info-Preserves ds (reply_err e) = search preserve_rules
  with_channel_info-Preserves ds (reply i) = search (preserve_rules, settle_each-Preserves)

  unless_token_err-Preserves :
      (token channel : ℕ) (ds : List Delegate) (e : Option Text)
      → Preserves AllSolvent (unless_token_err token channel ds e)
  unfolding unless_token_err
  unless_token_err-Preserves token channel ds (some t) = search preserve_rules
  unless_token_err-Preserves token channel ds none =
      search (solvent_rules, with_channel_info-Preserves)

  closed_delegates-Preserves :
      (channel : ℕ) (r : Reply (List Delegate)) → Preserves AllSolvent (closed_delegates channel r)
  unfolding closed_delegates
  closed_delegates-Preserves channel (reply_err e) = search preserve_rules
  closed_delegates-Preserves channel (reply []) = search preserve_rules
  closed_delegates-Preserves channel (reply (d ∷ ds)) =
      search (solvent_rules, unless_token_err-Preserves)

  pub handle_closed-Preserves : (channel : ℕ) → Preserves AllSolvent (handle_closed channel)
  unfolding handle_closed
  handle_closed-Preserves channel =
      search (preserve_rules, delegate_rules, closed_delegates-Preserves)

  updated_by-Preserves :
      (participant : ℕ) (r : Fetch Delegate) → Preserves AllSolvent (updated_by participant r)
  unfolding updated_by
  updated_by-Preserves participant not_found = search preserve_rules
  updated_by-Preserves participant (failed e) = search preserve_rules
  updated_by-Preserves participant (found d) = search (preserve_rules, delegate_rules)

  pub handle_balance_proof_updated-Preserves :
      (channel participant : ℕ)
      → Preserves AllSolvent (handle_balance_proof_updated channel participant)
  unfolding handle_balance_proof_updated
  handle_balance_proof_updated-Preserves channel participant =
      search (preserve_rules, delegate_rules, updated_by-Preserves)

module _ ⦃p : Platform⦄ (g : IsDocumented p.gorm) where
  delete_each-Preserves : (ds : List Delegate) → Preserves AllSolvent (delete_each ds)
  unfolding delete_each
  delete_each-Preserves [] = search preserve_rules
  delete_each-Preserves (d ∷ ds) =
      Preserves-bind (delete_delegate d.key) (λ e. delete_each ds)
        (delete_delegate-Preserves g d.key) (λ e. delete_each-Preserves ds)

  pub handle_settled-Preserves : (channel : ℕ) → Preserves AllSolvent (handle_settled channel)
  unfolding handle_settled
  handle_settled-Preserves channel = search (preserve_rules, delegate_rules, delete_each-Preserves)
