-- ===== src/Models/Transfer/Invariant.antt =====
-- The table of transfers is apart from the accounts.
use photon_monitoring.Platform.{Platform}
use photon_monitoring.World.Preserve.{Preserves}
use photon_monitoring.Models.Rows.{ReceivedTransfer}
use photon_monitoring.Models.Account.Invariant.{AllSolvent, solvent_rules}
use photon_monitoring.Models.Transfer.{
  get_received_transfer, save_transfer, new_receive_transfer_from_receive_transfer,
}

module _ ⦃p : Platform⦄ where
  pub new_receive_transfer-Preserves :
      (tr : ReceivedTransfer) → Preserves AllSolvent (new_receive_transfer_from_receive_transfer tr)
  unfolding new_receive_transfer_from_receive_transfer get_received_transfer save_transfer
  new_receive_transfer-Preserves tr = search solvent_rules
