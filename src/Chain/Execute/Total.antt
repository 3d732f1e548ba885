-- ===== src/Chain/Execute/Total.antt =====
-- A contract call always ends, with a record, whatever the chain answers.
use photon_monitoring.Base.{ℕ, ℤ, List, Option, none, some, Text, Bool, arith}
use photon_monitoring.Orm.{IsDocumented}
use photon_monitoring.Platform.{Platform, Tx, Reply, reply, reply_err}
use photon_monitoring.World.{M}
use photon_monitoring.World.Total.{IsTotal, total_rules}
use photon_monitoring.Models.Rows.{
  Delegate, DelegateExecuteRecord, DelegateSecret, DelegateUnlock, DelegateAnnounceDispose,
  DelegatePunish, DelegateUpdateBalanceProof,
}
use photon_monitoring.Models.Record.Total.{new_record-IsTotal, save_record-IsTotal}
use photon_monitoring.Chain.Execute.{
  unless_network_err, load_block_number, receipt, sent_tx, execute_tx, saving, on_token_network,
  do_register_secret, do_update_balance_proof, do_unlock, do_punish,
}

module _ ⦃p : Platform⦄ (g : IsDocumented p.gorm) where
  load_block_number-IsTotal : (r : DelegateExecuteRecord) → IsTotal (load_block_number r)
  unfolding load_block_number
  load_block_number-IsTotal r = record {
    at = λ w h. let (b, e) = h.block_seen in (b, w, ground (arith, e), h);
  }

  receipt-IsTotal : (r : DelegateExecuteRecord) (x : Reply Bool) → IsTotal (receipt r x)
  unfolding receipt
  receipt-IsTotal r (reply_err e) = search total_rules
  receipt-IsTotal r (reply b) = search (total_rules, load_block_number-IsTotal)

  sent_tx-IsTotal : (r : DelegateExecuteRecord) (x : Reply ℕ) → IsTotal (sent_tx r x)
  unfolding sent_tx
  sent_tx-IsTotal r (reply_err e) = search total_rules
  sent_tx-IsTotal r (reply hash) = search (total_rules, load_block_number-IsTotal, receipt-IsTotal)

  execute_tx-IsTotal : (tx : Tx) (r : DelegateExecuteRecord) → IsTotal (execute_tx tx r)
  unfolding execute_tx
  execute_tx-IsTotal tx r = search (total_rules, sent_tx-IsTotal)

  saving-IsTotal : (m : M DelegateExecuteRecord) → IsTotal m → IsTotal (saving m)
  unfolding saving
  saving-IsTotal m km = search (total_rules, save_record-IsTotal g)

  unless_network_err-IsTotal :
      (tx : Tx) (r : DelegateExecuteRecord) (e : Option Text) → IsTotal (unless_network_err tx r e)
  unfolding unless_network_err
  unless_network_err-IsTotal tx r none = execute_tx-IsTotal tx r
  unless_network_err-IsTotal tx r (some t) = search total_rules

  on_token_network-IsTotal :
      (d : Delegate) (tx : Tx) (r : DelegateExecuteRecord) → IsTotal (on_token_network d tx r)
  unfolding on_token_network
  on_token_network-IsTotal d tx r = search (total_rules, unless_network_err-IsTotal)

  pub do_register_secret-IsTotal :
      (d : Delegate) (s : DelegateSecret) → IsTotal (do_register_secret d s)
  unfolding do_register_secret
  do_register_secret-IsTotal d s =
      search (total_rules, new_record-IsTotal g, saving-IsTotal, execute_tx-IsTotal)

  pub do_update_balance_proof-IsTotal :
      (d : Delegate) (du : DelegateUpdateBalanceProof) → IsTotal (do_update_balance_proof d du)
  unfolding do_update_balance_proof
  do_update_balance_proof-IsTotal d du =
      search (total_rules, new_record-IsTotal g, saving-IsTotal, on_token_network-IsTotal)

  pub do_unlock-IsTotal :
      (d : Delegate) (du : DelegateUnlock) (x : ℤ) (das : List DelegateAnnounceDispose)
      → IsTotal (do_unlock d du x das)
  unfolding do_unlock
  do_unlock-IsTotal d du x das =
      search (total_rules, new_record-IsTotal g, saving-IsTotal, on_token_network-IsTotal)

  pub do_punish-IsTotal : (d : Delegate) (dp : DelegatePunish) → IsTotal (do_punish d dp)
  unfolding do_punish
  do_punish-IsTotal d dp =
      search (total_rules, new_record-IsTotal g, saving-IsTotal, on_token_network-IsTotal)
