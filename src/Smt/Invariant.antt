-- ===== src/Smt/Invariant.antt =====
-- A reply of Photon that reports no negative amount keeps every account solvent.
use photon_monitoring.Base.{
  subst, ℤ, pos, ⊤, ◌≤ℤ◌, List, [], ◌∷◌, Option, none, some, ltb_ℤ, if◌then◌else◌,
}
use photon_monitoring.Orm.{IsDocumented}
use photon_monitoring.Platform.{Platform}
use photon_monitoring.Utils.{string_to_big_int}
use photon_monitoring.World.Preserve.{Preserves, Preserves-then, preserve_rules}
use photon_monitoring.Models.Rows.{ReceivedTransfer}
use photon_monitoring.Models.Account.Invariant.{AllSolvent, account_add_smt-Preserves}
use photon_monitoring.Models.Service.Invariant.{deref-then-Preserves}
use photon_monitoring.Models.Transfer.Invariant.{new_receive_transfer-Preserves}
use photon_monitoring.Smt.{Query, credit, credit_each, get_new_transfer}

-- No amount of the reply is negative.
abbrev pub IsNonneg : ReceivedTransfer → Type 0
IsNonneg tr = pos 0 ≤ℤ string_to_big_int tr.amount_str

abbrev pub NoneNegative : List (Option ReceivedTransfer) → Type 0
NoneNegative [] = ⊤
NoneNegative (none ∷ es) = NoneNegative es
NoneNegative (some tr ∷ es) = IsNonneg tr × NoneNegative es

NoneNegative-split :
    (tr : ReceivedTransfer) (es : List (Option ReceivedTransfer))
    → NoneNegative (some tr ∷ es)
    → IsNonneg tr × NoneNegative es
NoneNegative-split tr es h = h

module _ ⦃p : Platform⦄ (g : IsDocumented p.gorm) where
  pub credit-Preserves : (tr : ReceivedTransfer) → IsNonneg tr → Preserves AllSolvent (credit tr)
  unfolding credit
  credit-Preserves tr nonneg = search (
    preserve_rules,
    new_receive_transfer-Preserves,
    account_add_smt-Preserves g (string_to_big_int tr.amount_str) nonneg,
  )

  credit_each-Preserves :
      (n : ℤ) (es : List (Option ReceivedTransfer))
      → NoneNegative es
      → Preserves AllSolvent (credit_each n es)
  unfolding credit_each
  credit_each-Preserves n [] h = search preserve_rules
  credit_each-Preserves n (e ∷ es) h = deref-then-Preserves e _ (λ tr at.
      let max_block = if ltb_ℤ n tr.block_number then tr.block_number else n in
      let (nonneg, rest) = NoneNegative-split tr es (subst (λ x. NoneNegative (x ∷ es)) at h) in
      Preserves-then (credit tr) (credit_each max_block es) (credit-Preserves tr nonneg)
        (credit_each-Preserves max_block es rest))

  pub get_new_transfer-Preserves :
      (s : Query) (es : List (Option ReceivedTransfer))
      → NoneNegative es
      → Preserves AllSolvent (get_new_transfer (some es) s)
  unfolding get_new_transfer
  get_new_transfer-Preserves s es h = search (preserve_rules, credit_each-Preserves)
