-- ===== src/Chain/Execute/Frame.antt =====
-- A contract call writes the records alone.
use photon_monitoring.Base.{ℕ, ℤ, List, Option, none, some, Text, Bool}
use photon_monitoring.Platform.{Platform, Tx, Reply, reply, reply_err}
use photon_monitoring.World.{M, World, outer, write, records}
use photon_monitoring.World.Frame.{Keeps, keeps_rules}
use photon_monitoring.Models.Rows.{
  Delegate, DelegateExecuteRecord, DelegateSecret, DelegateUnlock, DelegateAnnounceDispose,
  DelegatePunish, DelegateUpdateBalanceProof,
}
use photon_monitoring.Models.Record.Frame.{new_record-Keeps, save_record-Keeps}
use photon_monitoring.Chain.Execute.{
  asserted, unless_network_err, load_block_number, receipt, sent_tx, execute_tx, saving,
  on_token_network, do_register_secret, do_update_balance_proof, do_unlock, do_punish,
}

module _ ⦃p : Platform⦄ {B : Type 0} {f : World → B}
    (ko : (A : Type 0) (h : p.Outside → A × p.Outside) → Keeps f (outer h))
    (kr : (g : p.gorm.Table DelegateExecuteRecord
        → Option Text × p.gorm.Table DelegateExecuteRecord)
      → Keeps f (write records g)) where
  asserted-Keeps : (r : DelegateExecuteRecord) (n : Option ℤ) → Keeps f (asserted r n)
  unfolding asserted
  asserted-Keeps r none = search (keeps_rules, save_record-Keeps ko kr)
  asserted-Keeps r (some b) = search keeps_rules

  load_block_number-Keeps : (r : DelegateExecuteRecord) → Keeps f (load_block_number r)
  unfolding load_block_number
  load_block_number-Keeps r = search (keeps_rules, asserted-Keeps)

  receipt-Keeps : (r : DelegateExecuteRecord) (x : Reply Bool) → Keeps f (receipt r x)
  unfolding receipt
  receipt-Keeps r (reply_err e) = search keeps_rules
  receipt-Keeps r (reply b) = search (keeps_rules, load_block_number-Keeps)

  sent_tx-Keeps : (r : DelegateExecuteRecord) (x : Reply ℕ) → Keeps f (sent_tx r x)
  unfolding sent_tx
  sent_tx-Keeps r (reply_err e) = search keeps_rules
  sent_tx-Keeps r (reply hash) = search (keeps_rules, load_block_number-Keeps, receipt-Keeps)

  pub execute_tx-Keeps : (tx : Tx) (r : DelegateExecuteRecord) → Keeps f (execute_tx tx r)
  unfolding execute_tx
  execute_tx-Keeps tx r = search (keeps_rules, sent_tx-Keeps)

  saving-Keeps : (m : M DelegateExecuteRecord) → Keeps f m → Keeps f (saving m)
  unfolding saving
  saving-Keeps m km = search (keeps_rules, save_record-Keeps ko kr)

  unless_network_err-Keeps :
      (tx : Tx) (r : DelegateExecuteRecord) (e : Option Text) → Keeps f (unless_network_err tx r e)
  unfolding unless_network_err
  unless_network_err-Keeps tx r none = execute_tx-Keeps tx r
  unless_network_err-Keeps tx r (some t) = search keeps_rules

  on_token_network-Keeps :
      (d : Delegate) (tx : Tx) (r : DelegateExecuteRecord) → Keeps f (on_token_network d tx r)
  unfolding on_token_network
  on_token_network-Keeps d tx r = search (keeps_rules, unless_network_err-Keeps)

  pub do_register_secret-Keeps :
      (d : Delegate) (s : DelegateSecret) → Keeps f (do_register_secret d s)
  unfolding do_register_secret
  do_register_secret-Keeps d s =
      search (keeps_rules, new_record-Keeps ko kr, saving-Keeps, execute_tx-Keeps)

  pub do_update_balance_proof-Keeps :
      (d : Delegate) (du : DelegateUpdateBalanceProof) → Keeps f (do_update_balance_proof d du)
  unfolding do_update_balance_proof
  do_update_balance_proof-Keeps d du =
      search (keeps_rules, new_record-Keeps ko kr, saving-Keeps, on_token_network-Keeps)

  pub do_unlock-Keeps :
      (d : Delegate) (du : DelegateUnlock) (x : ℤ) (das : List DelegateAnnounceDispose)
      → Keeps f (do_unlock d du x das)
  unfolding do_unlock
  do_unlock-Keeps d du x das =
      search (keeps_rules, new_record-Keeps ko kr, saving-Keeps, on_token_network-Keeps)

  pub do_punish-Keeps : (d : Delegate) (dp : DelegatePunish) → Keeps f (do_punish d dp)
  unfolding do_punish
  do_punish-Keeps d dp =
      search (keeps_rules, new_record-Keeps ko kr, saving-Keeps, on_token_network-Keeps)
