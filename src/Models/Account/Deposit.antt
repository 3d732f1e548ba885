-- ===== src/Models/Account/Deposit.antt =====
-- AccountAddSmt on the table of accounts.
use photon_monitoring.Base.{
  ℕ, ℤ, pos, ◌≡◌, refl, sym, ap, subst, ◌∙◌, List, ◌==◌, ◌+ℤ◌, ◌≤ℤ◌, abs, arith, int_laws, none,
  some, find?, find?-sound, ==_iff, adjust, if◌then◌else◌, Option-cases, inl, inr,
}
use photon_monitoring.Base.Keyed.{find?-upsert, find?-adjust}
use photon_monitoring.Orm.{IsDocumented}
use photon_monitoring.Platform.{Platform}
use photon_monitoring.World.{World, ret}
use photon_monitoring.Models.Rows.{Account, AccountSerialization}
use photon_monitoring.Models.Account.Solvency.{
  IsSolvent, IsSolvent-sane, deposited, deposited-IsSolvent,
}
use photon_monitoring.Models.Account.{
  to_account, to_serialization, blank, has_address, account_add_smt, account_sanity, find_or_create,
  add_received, create_if_missing, panic_if_err,
}
use photon_monitoring.Models.Account.Rules.{read, account_of, IsUp, Sets}

abbrev with_total : ℕ → AccountSerialization → AccountSerialization
with_total n s = record s { total_received_smt_bytes = n }

-- The table after the update, from a table that has a row for the address.
read-adjust :
    (addr b : ℕ) (x : ℤ) (rs : List AccountSerialization) (r : AccountSerialization)
    → find? (has_address addr) rs ≡ some r
    → IsSolvent (to_account r)
    → pos 0 ≤ℤ x
    → read b
        (adjust (has_address addr) (with_total (abs ((to_account r).total_received_smt +ℤ x))) rs)
      ≡ (if addr == b then deposited x (to_account r) else read b rs)
unfolding to_account
read-adjust addr b x rs r e s nonneg = grind (
  int_laws,
  find?-adjust (λ (r : AccountSerialization). r.address) b addr
      (with_total (abs ((to_account r).total_received_smt +ℤ x))) rs (λ y. refl),
  e,
)

module _ ⦃p : Platform⦄ where
  abbrev on_accounts : p.gorm.Table AccountSerialization → World → World
  on_accounts t w = record w { db = record w.db { accounts = t } }

  -- The table after a row has its column updated.
  abbrev raised :
      ℤ
      → AccountSerialization
      → p.gorm.Table AccountSerialization
      → p.gorm.Table AccountSerialization
  raised x r t =
      (p.gorm.update (has_address r.address)
        (with_total (abs ((to_account r).total_received_smt +ℤ x))) t).1

module _ ⦃p : Platform⦄ (g : IsDocumented p.gorm) (addr : ℕ) (w : World) (h : IsUp w) where
  find_or_create-old :
      (r : AccountSerialization)
      → find? (has_address addr) (p.gorm.rows w.db.accounts) ≡ some r
      → find_or_create addr w ≡ (ret r, w)
  unfolding find_or_create create_if_missing
  find_or_create-old r e = ground (arith, g.first_up (has_address addr) w.db.accounts h, e)

  find_or_create-new :
      find? (has_address addr) (p.gorm.rows w.db.accounts) ≡ none
      → find_or_create addr w ≡ (
        ret (blank addr),
        on_accounts (p.gorm.save (has_address addr) (blank addr) w.db.accounts).1 w,
      )
  unfolding find_or_create create_if_missing
  find_or_create-new e = ground (arith, g.first_up (has_address addr) w.db.accounts h, e)

module _ ⦃p : Platform⦄ (g : IsDocumented p.gorm) (r : AccountSerialization) (amount : ℤ)
    (w : World) (h : IsUp w) (s : IsSolvent (to_account r)) (nonneg : pos 0 ≤ℤ amount) where
  add_received-eq :
      add_received r amount w ≡ (ret tt, on_accounts (raised amount r w.db.accounts) w)
  unfolding add_received account_sanity to_serialization panic_if_err to_account
  add_received-eq =
      let (ok, _, _) =
        g.update_up (has_address r.address)
          (with_total (abs ((to_account r).total_received_smt +ℤ amount))) w.db.accounts h in
      let sane = IsSolvent-sane (deposited-IsSolvent amount s nonneg) in ground (arith, ok, sane)

  -- The update of a row that the table has.
  add_received-Sets :
      find? (has_address r.address) (p.gorm.rows w.db.accounts) ≡ some r
      → let (e, w') = add_received r amount w in
        (e ≡ ret tt) × Sets w r.address (deposited amount (to_account r)) w'
  add_received-Sets e =
      let (ok, rows', up') =
        g.update_up (has_address r.address)
          (with_total (abs ((to_account r).total_received_smt +ℤ amount))) w.db.accounts h in
      rw add_received-eq (
        refl,
        (
          λ b. rw rows' (read-adjust r.address b amount (p.gorm.rows w.db.accounts) r e s nonneg),
          up',
          refl,
        ),
      )

-- Changes of one account, one after the other.
pub Sets-again :
    ⦃p : Platform⦄ (addr : ℕ) (a b : Account) (w u v : World)
    → Sets w addr a u
    → Sets u addr b v
    → Sets w addr b v
Sets-again addr a b w u v (r, up', s) (r', up'', s') = (
  λ c. ground (arith, r c, r' c),
  up'',
  s' ∙ ap (λ (x : World). record x { db = record x.db { accounts = v.db.accounts } }) s,
)

module _ ⦃p : Platform⦄ (g : IsDocumented p.gorm) (addr : ℕ) (amount : ℤ) (w : World) (h : IsUp w)
    (solvent : IsSolvent (account_of w addr)) (nonneg : pos 0 ≤ℤ amount) where
  deposit_old :
      (r : AccountSerialization)
      → find? (has_address addr) (p.gorm.rows w.db.accounts) ≡ some r
      → let (e, w') = account_add_smt addr amount w in
        (e ≡ ret tt) × Sets w addr (deposited amount (account_of w addr)) w'
  unfolding account_add_smt
  deposit_old r e =
      let at : r.address ≡ addr = (==_iff _ _).0 (find?-sound (has_address addr) _ e) in
      let run : account_add_smt addr amount w ≡ add_received r amount w =
        ground (arith, find_or_create-old g addr w h r e) in
      let s : IsSolvent (to_account r) = rw e at solvent in
      let here' =
        subst (λ x. find? (has_address x) (p.gorm.rows w.db.accounts) ≡ some r) (sym at) e in
      rw (run, e)
        (subst
          (λ x.
            ((add_received r amount w).0 ≡ ret tt)
            × Sets w x (deposited amount (to_account r)) (add_received r amount w).1)
          at (add_received-Sets g r amount w h s nonneg here'))

  deposit_new :
      find? (has_address addr) (p.gorm.rows w.db.accounts) ≡ none
      → let (e, w') = account_add_smt addr amount w in
        (e ≡ ret tt) × Sets w addr (deposited amount (account_of w addr)) w'
  unfolding account_add_smt to_account
  deposit_new e =
      let u = on_accounts (p.gorm.save (has_address addr) (blank addr) w.db.accounts).1 w in
      let run : account_add_smt addr amount w ≡ add_received (blank addr) amount u =
        ground (arith, find_or_create-new g addr w h e) in
      let (_, rows', up') = g.save_up (has_address addr) (blank addr) w.db.accounts h in
      let found' = λ (b : ℕ).
        find?-upsert (λ (r : AccountSerialization). r.address) b addr (blank addr)
          (p.gorm.rows w.db.accounts) refl in
      let opened : Sets w addr (to_account (blank addr)) u =
        (λ b. rw rows' (ground (arith, found' b)), up', refl) in
      let s : IsSolvent (to_account (blank addr)) = rw e at solvent in
      let here' : find? (has_address addr) (p.gorm.rows u.db.accounts) ≡ some (blank addr) =
        rw rows' (ground (arith, found' addr)) in
      let (done, sets) = add_received-Sets g (blank addr) amount u up' s nonneg here' in
      rw (run, e)
        (
          done,
          Sets-again addr (to_account (blank addr)) (deposited amount (to_account (blank addr))) w u
              (add_received (blank addr) amount u).1 opened sets,
        )

  -- While the table answers, a deposit of no negative amount is added to what a solvent account has
  -- received, in that account alone, whether the account has a row yet or not.
  pub account_add_smt_lem :
      let (r, w') = account_add_smt addr amount w in
      (r ≡ ret tt) × Sets w addr (deposited amount (account_of w addr)) w'
  account_add_smt_lem = elim (Option-cases (find? (has_address addr) (p.gorm.rows w.db.accounts))) [
    | inl e ↦ deposit_new e
    | inr (r, e) ↦ deposit_old r e
  ]
