-- ===== src/Models/Transfer.antt =====
-- models/transfer.go: the transfers of smt that the service has received, each under a unique key.
pub mod Once
pub mod Invariant
use photon_monitoring.Base.{
  ℕ, ℤ, pos, Bool, true, false, ◌&&◌, ◌||◌, not, Option, none, some, List, [], ◌∷◌, ◌++◌, Text, ⊤,
  text_eq, ltb_ℤ, leb_ℤ, if◌then◌else◌,
}
use photon_monitoring.Orm.{Fetch, found, not_found, failed, unless_blank}
use photon_monitoring.Platform.{Platform, Reply}
use photon_monitoring.Utils.{big_int_to_string}
use photon_monitoring.World.{M, World, ◌>>=◌, pure, skip, first, find, write, transfers}
use photon_monitoring.Models.Rows.{ReceivedTransfer}
use photon_monitoring.Models.Delegate.{listed}

-- The condition of a struct that has its key alone: none, if that is empty.
pub has_transfer_key : Text → ReceivedTransfer → Bool
has_transfer_key key = unless_blank (text_eq key []) (λ r. text_eq r.key key)

abbrev is_found {ℓ} : {A : Type ℓ} → Fetch A → Bool
is_found (found a) = true
is_found not_found = false
is_found (failed e) = false

module _ ⦃p : Platform⦄ where
  pub get_received_transfer : Text → M (Fetch ReceivedTransfer)
  get_received_transfer key = first transfers (has_transfer_key key)

  pub is_received_transfer_exist : Text → M Bool
  is_received_transfer_exist key = do r ← first transfers (has_transfer_key key); pure (is_found r)

  save_transfer : ReceivedTransfer → M (Option Text)
  save_transfer r = write transfers (p.gorm.save (λ x. text_eq x.key r.key) r)

  -- NewReceivedTransfer, and its key `%s-%d-%d`.
  transfer_key : ℕ → ℤ → ℤ → Text
  transfer_key channel open_block nonce =
      p.hash_text channel
      ++ b'-' ∷ big_int_to_string (some open_block)
      ++ b'-' ∷ big_int_to_string (some nonce)

  pub new_received_transfer : ℤ → ℕ → ℤ → ℕ → ℕ → ℤ → ℤ → M ⊤
  unfolding get_received_transfer save_transfer transfer_key
  new_received_transfer block channel open_block token from nonce amount = do
    let key = transfer_key channel open_block nonce
    old ← get_received_transfer key
    if is_found old then skip else (do
      e ← save_transfer (record {
        key = key;
        block_number = block;
        channel_identifier_str = p.hash_text channel;
        open_block_number = open_block;
        token_address_str = p.address_text token;
        from_address_str = p.address_text from;
        nonce = nonce;
        amount_str = big_int_to_string (some amount);
      })
      skip)

  -- Whether the transfer is new. An error of the query counts as new, and one of the
  -- save is logged.
  pub new_receive_transfer_from_receive_transfer : ReceivedTransfer → M Bool
  unfolding get_received_transfer save_transfer
  new_receive_transfer_from_receive_transfer tr = do
    old ← get_received_transfer tr.key
    if is_found old then pure false else (do e ← save_transfer tr; pure true)

  -- The condition on the blocks: no lower bound from 0 down, no upper bound at 0, and the greatest
  -- int64 as the upper bound below 0.
  in_range : ℤ → ℤ → ReceivedTransfer → Bool
  in_range from to r =
      (leb_ℤ from (pos 0) || leb_ℤ from r.block_number)
      && (if ltb_ℤ to (pos 0)
          then ltb_ℤ r.block_number (pos 9223372036854775807)
          else not (ltb_ℤ (pos 0) to) || ltb_ℤ r.block_number to)

  pub get_received_transfer_in_block_range : ℤ → ℤ → M (Reply (List ReceivedTransfer))
  unfolding in_range
  get_received_transfer_in_block_range from to = do
    r ← find transfers (in_range from to)
    pure (listed r)
