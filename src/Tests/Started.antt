-- ===== src/Tests/Started.antt =====
-- The theorems on the start of the service, applied to two command lines.
use photon_monitoring.Base.{pos, negsuc, ◌≡◌, refl, some, [], ◌∷◌, true, ◌++◌}
use photon_monitoring.Utils.{big_int_to_string}
use photon_monitoring.Start.{Flags, config, http, starts_with}
use photon_monitoring.Start.Reads.{config-big_int_to_string, config-Decides, Decides, IsAcceptable}
use photon_monitoring.Tests.{one_number}

-- No fee but that of a secret is positive, and one is negative.
abbrev command_line : Flags
command_line = record {
  smt = 1 ∷ [];
  unlock_fee = big_int_to_string (some (pos 0));
  punish_fee = big_int_to_string (some (negsuc 4));
  update_transfer_fee = big_int_to_string (some (pos 0));
  secret_register_fee = big_int_to_string (some (pos 2));
  photon_url = http ++ b'p' ∷ [];
  debug = true;
}

config-big_int_to_string_example :
    config one_number command_line
    ≡ some (record {
      params = record {
        smt_unlock = pos 0;
        smt_update_transfer = pos 0;
        smt_punish = negsuc 4;
        smt_secret = pos 2;
        smt_address = 1;
        debug_mode = true;
        reveal_timeout = pos 30;
      };
      photon_url = http ++ b'p' ∷ [];
    })
unfolding starts_with
config-big_int_to_string_example =
    config-big_int_to_string one_number (pos 0) (negsuc 4) (pos 0) (pos 2) (1 ∷ [])
      (http ++ b'p' ∷ []) true refl

config-Decides_example : Decides (IsAcceptable command_line) (config one_number command_line)
config-Decides_example = config-Decides one_number command_line
