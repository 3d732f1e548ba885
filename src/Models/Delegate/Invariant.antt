-- ===== src/Models/Delegate/Invariant.antt =====
-- The getters of a delegate and its fee leave the accounts solvent.
use photon_monitoring.Base.{ℕ, ℤ, Option, none, some, List}
use photon_monitoring.Orm.{IsDocumented, Fetch, found, not_found, failed}
use photon_monitoring.Platform.{Platform}
use photon_monitoring.World.Preserve.{Preserves, preserve_rules}
use photon_monitoring.Models.Rows.{Delegate}
use photon_monitoring.Models.Account.Invariant.{AllSolvent, Preserves-in_tx, solvent_rules}
use photon_monitoring.Models.Delegate.{
  decode, update_balance_proof, unlocks, secrets, calc_need_smt, all_or_panic, get_all_delegate,
  get_delegate_by_key, get_delegate_list_by_channel_identifier,
  get_delegate_punish_list_by_delegate_key, get_delegate_announce_dispose_list_by_delegate_key,
  update_delegate_status, update_object, delete_delegate,
}
use photon_monitoring.Models.Rows.{DelegateStatus}

module _ ⦃p : Platform⦄ where
  decode-Preserves : {A : Type 0} (x : Option A) → Preserves AllSolvent (decode x)
  unfolding decode
  decode-Preserves none = search preserve_rules
  decode-Preserves (some x) = search preserve_rules

  pub update_balance_proof-Preserves :
      (d : Delegate) → Preserves AllSolvent (update_balance_proof d)
  unfolding update_balance_proof
  update_balance_proof-Preserves d = decode-Preserves d.update_balance_proof_gob

  pub unlocks-Preserves : (d : Delegate) → Preserves AllSolvent (unlocks d)
  unfolding unlocks
  unlocks-Preserves d = decode-Preserves d.unlocks_gob

  pub secrets-Preserves : (d : Delegate) → Preserves AllSolvent (secrets d)
  unfolding secrets
  secrets-Preserves d = decode-Preserves d.secrets_gob

  pub calc_need_smt-Preserves : (x : ℤ) (d : Delegate) → Preserves AllSolvent (calc_need_smt x d)
  unfolding calc_need_smt
  calc_need_smt-Preserves x d =
      search (preserve_rules, update_balance_proof-Preserves, unlocks-Preserves, secrets-Preserves)

  all_or_panic-Preserves : (r : Fetch (List Delegate)) → Preserves AllSolvent (all_or_panic r)
  unfolding all_or_panic
  all_or_panic-Preserves (found ds) = search preserve_rules
  all_or_panic-Preserves not_found = search preserve_rules
  all_or_panic-Preserves (failed e) = search preserve_rules

  pub get_all_delegate-Preserves : Preserves AllSolvent get_all_delegate
  unfolding get_all_delegate
  get_all_delegate-Preserves = search (preserve_rules, all_or_panic-Preserves)

  pub get_delegate_by_key-Preserves : (k : ℕ) → Preserves AllSolvent (get_delegate_by_key k)
  unfolding get_delegate_by_key
  get_delegate_by_key-Preserves k = search preserve_rules

  pub get_delegate_list-Preserves :
      (c : ℕ) → Preserves AllSolvent (get_delegate_list_by_channel_identifier c)
  unfolding get_delegate_list_by_channel_identifier
  get_delegate_list-Preserves c = search preserve_rules

  pub get_delegate_punish_list-Preserves :
      (k : ℕ) → Preserves AllSolvent (get_delegate_punish_list_by_delegate_key k)
  unfolding get_delegate_punish_list_by_delegate_key
  get_delegate_punish_list-Preserves k = search preserve_rules

  pub get_delegate_announce_dispose_list-Preserves :
      (k : ℕ) → Preserves AllSolvent (get_delegate_announce_dispose_list_by_delegate_key k)
  unfolding get_delegate_announce_dispose_list_by_delegate_key
  get_delegate_announce_dispose_list-Preserves k = search preserve_rules

  pub update_delegate_status-Preserves :
      (d : Delegate) (s : DelegateStatus) → Preserves AllSolvent (update_delegate_status d s)
  unfolding update_delegate_status
  update_delegate_status-Preserves d s = search solvent_rules

  pub update_object-Preserves : (d : Delegate) → Preserves AllSolvent (update_object d)
  unfolding update_object
  update_object-Preserves d = search solvent_rules

module _ ⦃p : Platform⦄ (g : IsDocumented p.gorm) where
  pub delete_delegate-Preserves : (k : ℕ) → Preserves AllSolvent (delete_delegate k)
  unfolding delete_delegate
  delete_delegate-Preserves k = search (solvent_rules, Preserves-in_tx g)

pub ruleset delegate_rules = (
  update_balance_proof-Preserves, unlocks-Preserves, secrets-Preserves, get_all_delegate-Preserves,
  get_delegate_by_key-Preserves, get_delegate_list-Preserves, get_delegate_punish_list-Preserves,
  get_delegate_announce_dispose_list-Preserves, update_delegate_status-Preserves,
  update_object-Preserves,
)
