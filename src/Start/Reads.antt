-- ===== src/Start/Reads.antt =====
-- Which command lines config accepts, and the settings that it takes from them.
use photon_monitoring.Base.{
  ℕ, ℤ, pos, Bool, true, ◌≡◌, refl, ◌⊎◌, inl, inr, Option, none, some, [], ◌∷◌, Text, arith,
  Bool-cases, if◌then◌else◌,
}
use photon_monitoring.Utils.{set_string, big_int_to_string}
use photon_monitoring.Utils.RoundTrip.{set_string-big_int_to_string}
use photon_monitoring.Utils.Decimal.{IsDecimal, set_string-cases}
use photon_monitoring.Start.{Flags, Config, starts_with, http, or_exit, checked_url, config}

abbrev pub IsHttp : Text → Type 0
IsHttp url = starts_with http url ≡ true

-- The four fees are decimal numbers, and the url begins as one of http.
abbrev pub IsAcceptable : Flags → Type 0
IsAcceptable f =
    IsDecimal f.unlock_fee
    × (IsDecimal f.punish_fee
        × (IsDecimal f.update_transfer_fee
            × (IsDecimal f.secret_register_fee × IsHttp f.photon_url)))

-- Either `P` holds and the settings are taken, or it does not and the program exits.
abbrev pub Decides : Type 0 → Option Config → Type 0
Decides P m = (P × (c : Config) × (m ≡ some c)) ⊎ (¬ P × (m ≡ none))

Decides-or_exit :
    (P : Type 0) (s : Text) (k : ℤ → Option Config)
    → ((b : ℤ) → Decides P (k b))
    → Decides (IsDecimal s × P) (or_exit (set_string s) k)
unfolding or_exit
Decides-or_exit P s k h = elim (set_string-cases s) [
  | inr (short, e) ↦ inr (λ x. short x.0, rw e refl)
  | inl (d, b, e) ↦ elim (h b) [
    | inl (x, c, e') ↦ inl ((d, x), c, rw e e')
    | inr (fails, e') ↦ inr (λ x. fails x.1, rw e e')
  ]
]

checked_url-starts :
    (s : Text) (c : Config) → checked_url s c ≡ (if starts_with http s then some c else none)
unfolding checked_url starts_with
checked_url-starts [] c = refl
checked_url-starts (x ∷ s) c = ground arith

-- config of four fees that were printed, of either sign, and a url of http gives these fees, the
-- address of the token, the debug mode and the url.
pub config-big_int_to_string :
    (hex_to_address : Text → ℕ) (unlock punish update secret : ℤ) (smt url : Text) (debug : Bool)
    → starts_with http url ≡ true
    → config hex_to_address (record {
      smt = smt;
      unlock_fee = big_int_to_string (some unlock);
      punish_fee = big_int_to_string (some punish);
      update_transfer_fee = big_int_to_string (some update);
      secret_register_fee = big_int_to_string (some secret);
      photon_url = url;
      debug = debug;
    })
      ≡ some (record {
        params = record {
          smt_unlock = unlock;
          smt_update_transfer = update;
          smt_punish = punish;
          smt_secret = secret;
          smt_address = hex_to_address smt;
          debug_mode = debug;
          reveal_timeout = pos 30;
        };
        photon_url = url;
      })
unfolding config or_exit
config-big_int_to_string hex_to_address unlock punish update secret smt url debug http_url =
    rw
      (
        set_string-big_int_to_string unlock,
        set_string-big_int_to_string punish,
        set_string-big_int_to_string update,
        set_string-big_int_to_string secret,
        checked_url-starts url _,
        http_url,
      )
      refl

Decides-checked_url : (url : Text) (c : Config) → Decides (IsHttp url) (checked_url url c)
Decides-checked_url url c = elim (Bool-cases (starts_with http url)) [
  | inl t ↦ inl (t, c, rw (checked_url-starts url c, t) refl)
  | inr t ↦ inr (λ h. ground (arith, t, h), rw (checked_url-starts url c, t) refl)
]

-- config takes its settings exactly if the four fees are decimal numbers with an optional sign and
-- the url begins with http://, and otherwise exits.
pub config-Decides :
    (hex_to_address : Text → ℕ) (f : Flags) → Decides (IsAcceptable f) (config hex_to_address f)
unfolding config
config-Decides hex_to_address f = Decides-or_exit _ f.unlock_fee _ (λ unlock.
    Decides-or_exit _ f.punish_fee _ (λ punish. Decides-or_exit _ f.update_transfer_fee _ (λ update.
      Decides-or_exit _ f.secret_register_fee _ (λ secret. Decides-checked_url f.photon_url _))))
