-- ===== src/Tests/Requests.antt =====
-- The theorems on requests, delegates and texts, applied to the sample data.
use photon_monitoring.Base.{
  ℕ, pos, negsuc, ◌≡◌, refl, none, some, [], ◌∷◌, ◌+ℤ◌, ◌-ℤ◌, ◌*ℤ◌, abs, arith, ltb_ℤ,
  if◌then◌else◌,
}
use photon_monitoring.Orm.{drop_where}
use photon_monitoring.Orm.Memory.{memory-IsDocumented}
use photon_monitoring.Utils.{big_int_to_string, string_to_big_int}
use photon_monitoring.Utils.RoundTrip.{string_to_big_int-big_int_to_string}
use photon_monitoring.World.{ret}
use photon_monitoring.World.Total.{IsHealthy, Returns}
use photon_monitoring.Models.Dto.{ChannelFor3rd, Punish}
use photon_monitoring.Models.Account.Rules.{account_of, OnlyAccount}
use photon_monitoring.Models.Delegate.{calc_need_smt, need_smt, delete_delegate, has_key}
use photon_monitoring.Models.Delegate.Fees.{build_delegate_key-injective, need_smt-calc_need_smt}
use photon_monitoring.Models.Delegate.Deletion.{delete_delegate-rows}
use photon_monitoring.Models.Receive.{
  old_delegate, receive_steps, receive_delegate, update_account_smt,
}
use photon_monitoring.Models.Receive.Update.{SameRows, ends_in_error, receive_delegate-ends}
use photon_monitoring.Models.Receive.Renewal.{Renewal, old_delegate-Renewal}
use photon_monitoring.Models.Receive.Need.{update_account_smt-need}
use photon_monitoring.Tests.{
  test_platform, sample_world, sample_delegate, sample_proof, sample_unlock, sample_secret,
}
use photon_monitoring.Tests.Accounts.{sample-IsHealthy}

-- A request that has nothing but a newer balance proof.
abbrev sample_request : ChannelFor3rd
sample_request = record {
  channel_identifier = 2;
  open_block_number = pos 1;
  token_address = 3;
  partner_address = 8;
  update_transfer = record {
    nonce = pos 7;
    transfer_amount = some (pos 9);
    locksroot = 11;
    extra_hash = 12;
    closing_signature = [];
    non_closing_signature = [];
  };
  unlocks = [];
  punishes = [];
  annouce_disposed = [];
  secrets = [];
  settle_block_number = pos 0;
}

abbrev known_punish : Punish
known_punish = record { lock_hash = 51; additional_hash = 52; signature = [] }

abbrev other_punish : Punish
other_punish = record { lock_hash = 53; additional_hash = 54; signature = [] }

receive_delegate-ends_example :
    let (r, u) = receive_steps sample_request 7 (pos 0) sample_world in
    let (r', v) = receive_delegate sample_request 7 sample_world in
    (r' ≡ r) × SameRows (if ends_in_error r then sample_world else u) v
receive_delegate-ends_example =
    receive_delegate-ends memory-IsDocumented sample_request 7 sample_world sample-IsHealthy

-- A delegate that needs less than before, by more than the account needs: 30 becomes 20, not -20.
update_account_smt-need_example :
    let held = account_of sample_world 7 in
    Returns (update_account_smt 7 (pos 60) (pos 10)) sample_world (λ _ v.
      IsHealthy v
      × OnlyAccount sample_world 7
          (record held { need_smt = pos (abs (held.need_smt +ℤ pos 10 -ℤ pos 60)) })
          v)
update_account_smt-need_example =
    update_account_smt-need memory-IsDocumented 7 (pos 60) (pos 10) sample_world sample-IsHealthy

need_smt-calc_need_smt_example :
    Returns (calc_need_smt (pos 4) sample_delegate) sample_world (λ d' v.
      (v ≡ sample_world)
      × (d' ≡ record sample_delegate { need_smt_str = d'.need_smt_str })
      × (need_smt d'
          ≡ (if ltb_ℤ (pos 0) (pos 6) then pos 5 else pos 0)
            +ℤ pos 2 *ℤ pos 3
            +ℤ pos 1 *ℤ pos 2
            +ℤ pos 4))
need_smt-calc_need_smt_example =
    need_smt-calc_need_smt (pos 4) sample_delegate sample_proof (sample_unlock ∷ sample_unlock ∷ [])
      (sample_secret ∷ []) sample_world refl refl refl

delete_delegate-rows_example :
    let (r, v) = delete_delegate 40 sample_world in
    (r ≡ ret none)
    × (v.db.delegates ≡ drop_where (has_key 40) (sample_delegate ∷ []))
    × (v.db.punishes ≡ [])
    × (v.db.announce_disposes ≡ [])
    × (v.db.accounts ≡ sample_world.db.accounts)
delete_delegate-rows_example =
    delete_delegate-rows memory-IsDocumented 40 sample_world sample-IsHealthy

string_to_big_int-big_int_to_string_example :
    string_to_big_int (big_int_to_string (some (negsuc 41))) ≡ negsuc 41
string_to_big_int-big_int_to_string_example = string_to_big_int-big_int_to_string (negsuc 41)

build_delegate_key-injective_example : ◌≡◌ {A = ℕ} 2 2 × ◌≡◌ {A = ℕ} 7 7
build_delegate_key-injective_example =
    build_delegate_key-injective 2 2 7 7 (omega arith) (omega arith) refl

old_delegate-Renewal_example :
    Renewal sample_request
      (pos 0)
      (pos 0)
      sample_delegate
      sample_proof
      (old_delegate sample_request (pos 0) sample_delegate sample_world).0
old_delegate-Renewal_example =
    old_delegate-Renewal sample_request (pos 0) sample_delegate sample_proof sample_world refl refl
