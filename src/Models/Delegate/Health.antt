-- ===== src/Models/Delegate/Health.antt =====
-- The getters of a delegate and CalcNeedSMT harm nothing.
use photon_monitoring.Base.{ℤ, Option, none, some}
use photon_monitoring.Platform.{Platform}
use photon_monitoring.World.Health.{IsSafe, safe_rules}
use photon_monitoring.Models.Rows.{Delegate}
use photon_monitoring.Models.Delegate.{
  decode, update_balance_proof, unlocks, secrets, calc_need_smt,
}

module _ ⦃p : Platform⦄ where
  decode-IsSafe : {A : Type 0} (x : Option A) → IsSafe (decode x)
  unfolding decode
  decode-IsSafe none = search safe_rules
  decode-IsSafe (some x) = search safe_rules

  pub update_balance_proof-IsSafe : (d : Delegate) → IsSafe (update_balance_proof d)
  unfolding update_balance_proof
  update_balance_proof-IsSafe d = decode-IsSafe d.update_balance_proof_gob

  unlocks-IsSafe : (d : Delegate) → IsSafe (unlocks d)
  unfolding unlocks
  unlocks-IsSafe d = decode-IsSafe d.unlocks_gob

  secrets-IsSafe : (d : Delegate) → IsSafe (secrets d)
  unfolding secrets
  secrets-IsSafe d = decode-IsSafe d.secrets_gob

  pub calc_need_smt-IsSafe : (x : ℤ) (d : Delegate) → IsSafe (calc_need_smt x d)
  unfolding calc_need_smt
  calc_need_smt-IsSafe x d =
      search (safe_rules, update_balance_proof-IsSafe, unlocks-IsSafe, secrets-IsSafe)
