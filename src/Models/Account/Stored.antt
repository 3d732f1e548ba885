-- ===== src/Models/Account/Stored.antt =====
-- An account that is saved without a check of its sanity: what is read back has lost the sign.
use photon_monitoring.Base.{
  ℕ, ℤ, pos, ◌≡◌, ap, ◌∙◌, List, ◌==◌, ◌≤ℤ◌, abs, arith, find?, upsert, if◌then◌else◌,
}
use photon_monitoring.Base.Keyed.{find?-upsert}
use photon_monitoring.Models.Rows.{AccountSerialization}
use photon_monitoring.Models.Account.{to_account, to_serialization, has_address, filled, blank}
use photon_monitoring.Orm.{pick}
use photon_monitoring.Models.Account.Rules.{read, read-address}

pub read-need : (addr : ℕ) (rs : List AccountSerialization) → pos 0 ≤ℤ (read addr rs).need_smt
unfolding to_account
read-need addr rs = omega arith

-- An account that was read, with another needed fee.
to_account-stored :
    (x : ℤ) (r : AccountSerialization)
    → to_account (to_serialization (record (to_account r) { need_smt = x }))
      ≡ record (to_account r) { need_smt = pos (abs x) }
unfolding to_account to_serialization
to_account-stored x r = ground arith

-- The table after that account was saved.
pub read-stored :
    (addr b : ℕ) (x : ℤ) (rs : List AccountSerialization)
    → let held = read addr rs in
      read b
        (upsert (has_address held.address) (to_serialization (record held { need_smt = x })) rs)
      ≡ (if addr == b then record held { need_smt = pos (abs x) } else read b rs)
unfolding to_serialization
read-stored addr b x rs =
    let held = read addr rs in
    let a = record held { need_smt = x } in
    let at = read-address addr rs in
    ap (λ k. read b (upsert (has_address k) (to_serialization a) rs)) at
    ∙ ground (
      arith,
      find?-upsert (λ (r : AccountSerialization). r.address) b addr (to_serialization a) rs at,
      to_account-stored x (filled (blank addr) (pick (find? (has_address addr) rs))),
    )
