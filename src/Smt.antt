-- ===== src/Smt.antt =====
-- smt/listeningsmt.go: the transfers that Photon reports are credited to the accounts.
pub mod Credit
pub mod Invariant
pub mod Reply
use photon_monitoring.Base.{
  ℕ, ℤ, pos, Bool, true, false, Option, none, some, List, [], ◌∷◌, ⊤, ◌==◌, ltb_ℤ, if◌then◌else◌,
}
use photon_monitoring.Platform.{Platform, settings}
use photon_monitoring.Utils.{string_to_big_int}
use photon_monitoring.World.{M, World, ◌>>=◌, ◌>>◌, pure, skip}
use photon_monitoring.Models.Rows.{ReceivedTransfer}
use photon_monitoring.Models.Account.{account_add_smt}
use photon_monitoring.Models.Service.{deref}
use photon_monitoring.Models.Transfer.{new_receive_transfer_from_receive_transfer}

-- Query, without its connections: the block to ask from, and whether it was stopped.
pub record Query : Type 0 where
  pub from : ℤ
  pub stopped : Bool

pub stop : Query → Query
stop s = record s { stopped = true }

module _ ⦃p : Platform⦄ where
  -- The first condition in the loop, with its effects.
  pub credit : ReceivedTransfer → M ⊤
  credit tr =
      if p.text_address tr.token_address_str == settings.smt_address
      then (do
        is_new ← new_receive_transfer_from_receive_transfer tr
        if is_new
            then account_add_smt (p.text_address tr.from_address_str)
                (string_to_big_int tr.amount_str)
            else skip)
      else skip

  -- The loop; the result is maxBlock.
  credit_each : ℤ → List (Option ReceivedTransfer) → M ℤ
  unfolding credit
  credit_each max_block [] = pure max_block
  credit_each max_block (e ∷ es) = do
    tr ← deref e
    credit tr
    credit_each (if ltb_ℤ max_block tr.block_number then tr.block_number else max_block) es

  -- getNewTransfer, with what the request to Photon came to: `none` is an error on the way.
  pub get_new_transfer : Option (List (Option ReceivedTransfer)) → Query → M Query
  unfolding credit_each
  get_new_transfer none s = pure s
  get_new_transfer (some trs) s = if s.stopped then pure s else (do
    max_block ← credit_each (pos 0) trs
    pure (if ltb_ℤ s.from max_block then record s { from = max_block } else s))
