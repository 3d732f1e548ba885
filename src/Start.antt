-- ===== src/Start.antt =====
-- cmd/photonmonitoring/main.go: the settings that config takes from the command line, and the
-- condition under which mainCtx starts the query of received smt.
pub mod Reads
use photon_monitoring.Base.{
  ℕ, ℤ, pos, Bool, true, false, not, ◌&&◌, ◌||◌, Option, none, some, [], ◌∷◌, Text, ◌==◌, ltb_ℤ,
  if◌then◌else◌,
}
use photon_monitoring.Params.{Params}
use photon_monitoring.Utils.{set_string}

-- The flags that the settings of the core are read from; --debug is one of internal/debug.
pub record Flags : Type 0 where
  pub smt : Text
  pub unlock_fee : Text
  pub punish_fee : Text
  pub update_transfer_fee : Text
  pub secret_register_fee : Text
  pub photon_url : Text
  pub debug : Bool

pub record Config : Type 0 where
  pub params : Params
  pub photon_url : Text

-- strings.Index(s, p) == 0
unfoldable pub starts_with : Text → Text → Bool
starts_with [] s = true
starts_with (c ∷ p) [] = false
starts_with (c ∷ p) (d ∷ s) = c == d && starts_with p s

abbrev pub http : Text
http = b'h' ∷ b't' ∷ b't' ∷ b'p' ∷ b':' ∷ b'/' ∷ b'/' ∷ []

-- What follows an argument that was read; `none` is SystemExit.
pub or_exit : {A B : Type 0} → Option A → (A → Option B) → Option B
or_exit none f = none
or_exit (some a) f = f a

checked_url : Text → Config → Option Config
checked_url [] c = none
checked_url (x ∷ s) c = if not (starts_with http (x ∷ s)) then none else some c

-- config from its `params.SmtAddress = …` on, with common.HexToAddress.
pub config : (Text → ℕ) → Flags → Option Config
unfolding or_exit checked_url
config hex_to_address f = or_exit (set_string f.unlock_fee) (λ unlock.
    or_exit (set_string f.punish_fee) (λ punish.
      or_exit (set_string f.update_transfer_fee) (λ update_transfer.
        or_exit (set_string f.secret_register_fee) (λ secret. checked_url f.photon_url (record {
          params = record {
            smt_unlock = unlock;
            smt_update_transfer = update_transfer;
            smt_punish = punish;
            smt_secret = secret;
            smt_address = hex_to_address f.smt;
            debug_mode = f.debug;
            reveal_timeout = pos 30;
          };
          photon_url = f.photon_url;
        })))))

-- The condition in mainCtx of `sq.Start()`.
pub starts_query : Params → Bool
starts_query p =
    ltb_ℤ (pos 0) p.smt_update_transfer || ltb_ℤ (pos 0) p.smt_punish || ltb_ℤ (pos 0) p.smt_unlock
