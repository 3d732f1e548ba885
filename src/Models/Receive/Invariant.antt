-- ===== src/Models/Receive/Invariant.antt =====
-- A request keeps every account solvent: of the accounts it changes the needed fee alone.
use photon_monitoring.Base.{
  ℕ, ℤ, pos, inl, inr, Option, none, some, ◌+ℤ◌, ◌-ℤ◌, abs, eqb_ℤ, Bool-cases, arith,
}
use photon_monitoring.Orm.{IsDocumented, Fetch, found, not_found, failed}
use photon_monitoring.Platform.{Platform}
use photon_monitoring.World.{M}
use photon_monitoring.World.Preserve.{Preserves, Preserves-bind, preserve_rules}
use photon_monitoring.Models.Rows.{Account, Message, Delegate}
use photon_monitoring.Models.Dto.{ChannelFor3rd}
use photon_monitoring.Models.Account.{to_serialization, has_address}
use photon_monitoring.Models.Delegate.{build_delegate_key}
use photon_monitoring.Models.Account.Solvency.{IsSolvent}
use photon_monitoring.Models.Account.Rules.{account_of, account_get_account-read}
use photon_monitoring.Models.Account.Stored.{read-stored}
use photon_monitoring.Models.Account.Invariant.{
  AllSolvent, AllSolvent-OnlyAccount, Preserves-in_tx, solvent_rules,
}
use photon_monitoring.Models.Receive.{
  first_delegate, renew_proofs, stamp, old_delegate, finish_update, update_found, update_delegate,
  update_account_smt, unless_err, receive_steps, receive_delegate,
}
use photon_monitoring.Models.BlockNumber.{get_latest_block_number, get_latest_block_number-Keeps}
use photon_monitoring.Models.Delegate.Invariant.{
  update_balance_proof-Preserves, calc_need_smt-Preserves,
}
use photon_monitoring.Models.Monitor.Invariant.{add_delegate_monitor-Preserves}
use photon_monitoring.Models.Service.Invariant.{
  get_delegate_unlocks-Preserves, get_delete_secrets-Preserves, append_delegate_punish-Preserves,
  append_delegate_announce_dispose-Preserves,
}
use photon_monitoring.Models.Service.{append_delegate_punish, append_delegate_announce_dispose}
use photon_monitoring.Models.Account.Invariant.{Preserves-kept}

module _ ⦃p : Platform⦄ where
  get_latest_block_number-Preserves : Preserves AllSolvent get_latest_block_number
  get_latest_block_number-Preserves =
      Preserves-kept get_latest_block_number get_latest_block_number-Keeps

  first_delegate-Preserves :
      (c : ChannelFor3rd) (a : ℕ) (n : ℤ) (d : Delegate)
      → Preserves AllSolvent (first_delegate c a n d)
  unfolding first_delegate
  first_delegate-Preserves c a n d =
      search (solvent_rules, get_delegate_unlocks-Preserves, add_delegate_monitor-Preserves)

  renew_proofs-Preserves :
      (c : ChannelFor3rd) (d : Delegate) → Preserves AllSolvent (renew_proofs c d)
  unfolding renew_proofs
  renew_proofs-Preserves c d =
      search (preserve_rules, get_delegate_unlocks-Preserves, update_balance_proof-Preserves)

  stamp-Preserves : (n : ℤ) (r : Option Message × Delegate) → Preserves AllSolvent (stamp n r)
  unfolding stamp
  stamp-Preserves n (none, d) = search solvent_rules
  stamp-Preserves n (some e, d) = search solvent_rules

  old_delegate-Preserves :
      (c : ChannelFor3rd) (n : ℤ) (d : Delegate) → Preserves AllSolvent (old_delegate c n d)
  unfolding old_delegate
  old_delegate-Preserves c n d = search (preserve_rules, renew_proofs-Preserves, stamp-Preserves)

  finish_update-Preserves :
      (c : ChannelFor3rd) (x old : ℤ) (r : Option Message × Delegate)
      → Preserves AllSolvent (finish_update c x old r)
  unfolding finish_update
  finish_update-Preserves c x old (some e, d) = search preserve_rules
  finish_update-Preserves c x old (none, d) =
      search (solvent_rules, get_delete_secrets-Preserves, calc_need_smt-Preserves)

  update_found-Preserves :
      (c : ChannelFor3rd) (a : ℕ) (n x : ℤ) (k : ℕ) (r : Fetch Delegate)
      → Preserves AllSolvent (update_found c a n x k r)
  unfolding update_found
  update_found-Preserves c a n x k (found d) =
      search (preserve_rules, old_delegate-Preserves, finish_update-Preserves)
  update_found-Preserves c a n x k not_found =
      search (preserve_rules, first_delegate-Preserves, finish_update-Preserves)
  update_found-Preserves c a n x k (failed e) = search preserve_rules

  update_delegate-Preserves :
      (c : ChannelFor3rd) (a : ℕ) (n x : ℤ) → Preserves AllSolvent (update_delegate c a n x)
  unfolding update_delegate
  update_delegate-Preserves c a n x = search (preserve_rules, update_found-Preserves)

  unless_err-Preserves :
      (e : Option Message) (m : M (Option Message))
      → Preserves AllSolvent m
      → Preserves AllSolvent (unless_err e m)
  unless_err-Preserves none m k = k
  unless_err-Preserves (some e) m k = search preserve_rules

  with_need : {a : Account} (n : ℕ) → IsSolvent a → IsSolvent (record a { need_smt = pos n })
  with_need n s = record {
    used_nonneg = s.used_nonneg;
    locked_nonneg = s.locked_nonneg;
    need_nonneg = omega arith;
    covered = s.covered;
  }

module _ ⦃p : Platform⦄ (g : IsDocumented p.gorm) where
  update_account_smt-Preserves :
      (a : ℕ) (old new : ℤ) → Preserves AllSolvent (update_account_smt a old new)
  unfolding update_account_smt
  update_account_smt-Preserves addr old new = record {
    at = λ w h. elim (Bool-cases (eqb_ℤ old new)) [
      | inl same ↦ rw same h
      | inr changed ↦
          let held = account_of w addr in
          let x = held.need_smt +ℤ new -ℤ old in
          let a = record held { need_smt = x } in
          let save = p.gorm.save (has_address a.address) (to_serialization a) in
          let (e, rows', up') =
            g.save_up (has_address a.address) (to_serialization a) w.db.accounts h.up in
          let v = record w { db = record w.db { accounts = (save w.db.accounts).1 } } in
          rw (changed, account_get_account-read g addr w h.up, e)
            (AllSolvent-OnlyAccount w v addr (record held { need_smt = pos (abs x) }) h
              (with_need (abs x) (h.solvent addr)) up'
              (λ b. rw rows' (read-stored addr b x (p.gorm.rows w.db.accounts))))
    ];
  }

  receive_steps-Preserves :
      (c : ChannelFor3rd) (a : ℕ) (n : ℤ) → Preserves AllSolvent (receive_steps c a n)
  unfolding receive_steps
  receive_steps-Preserves c a n =
      let k = build_delegate_key c.channel_identifier a in
      Preserves-bind (append_delegate_punish k c.punishes) _
        (append_delegate_punish-Preserves k c.punishes)
        (λ fee. unless_err-Preserves fee.0 _ (
          Preserves-bind (append_delegate_announce_dispose k c.annouce_disposed) _
            (append_delegate_announce_dispose-Preserves k c.annouce_disposed)
            (λ e. unless_err-Preserves e _ (
              Preserves-bind (update_delegate c a n fee.1) _ (update_delegate-Preserves c a n fee.1)
                (λ r.
                  unless_err-Preserves r.0 _
                    (search (preserve_rules, update_account_smt-Preserves)))))))

  pub receive_delegate-Preserves :
      (c : ChannelFor3rd) (a : ℕ) → Preserves AllSolvent (receive_delegate c a)
  unfolding receive_delegate
  receive_delegate-Preserves c a = search (
    preserve_rules,
    get_latest_block_number-Preserves,
    Preserves-in_tx g,
    receive_steps-Preserves,
  )
