-- ===== src/Tests/Deposits.antt =====
-- The theorems on received transfers, applied to the sample data.
use photon_monitoring.Base.{pos, ◌≡◌, refl, some, true, [], ◌∷◌, text_eq}
use photon_monitoring.Orm.Memory.{memory-IsDocumented}
use photon_monitoring.Utils.{big_int_to_string}
use photon_monitoring.World.{◌>>◌}
use photon_monitoring.World.Total.{Returns}
use photon_monitoring.Models.Rows.{ReceivedTransfer}
use photon_monitoring.Smt.{credit}
use photon_monitoring.Smt.Credit.{Credited, credit-Credited, credit-twice}
use photon_monitoring.Tests.{test_platform, sample_world}
use photon_monitoring.Tests.Accounts.{sample-IsSolvent, sample_amount-nonneg}

abbrev pub sample_transfer : ReceivedTransfer
sample_transfer = record {
  key = b'k' ∷ [];
  block_number = pos 49;
  channel_identifier_str = 2 ∷ [];
  open_block_number = pos 1;
  token_address_str = 1 ∷ [];
  from_address_str = 7 ∷ [];
  nonce = pos 1;
  amount_str = big_int_to_string (some (pos 5));
}

credit-Credited_example :
    Returns
      (credit sample_transfer)
      sample_world
      (λ _ v. Credited sample_transfer sample_world v × (true ≡ true))
unfolding text_eq
credit-Credited_example =
    credit-Credited memory-IsDocumented sample_transfer sample_world refl refl refl sample-IsSolvent
      sample_amount-nonneg

credit-twice_example :
    (credit sample_transfer >> credit sample_transfer) sample_world
    ≡ credit sample_transfer sample_world
unfolding text_eq
credit-twice_example =
    credit-twice memory-IsDocumented sample_transfer sample_world refl refl refl sample-IsSolvent
      sample_amount-nonneg
