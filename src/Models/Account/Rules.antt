-- ===== src/Models/Account/Rules.antt =====
-- The rules of charging, on one account: what each operation of account.go may do to a balance.
-- `read` and `account_of` are the abstract view of the table: the account that each address reads.
use photon_monitoring.Base.{
  ℕ, ℤ, pos, ◌≡◌, refl, ◌∙◌, true, List, ◌==◌, ==_iff, ◌≤ℤ◌, arith, none, some, find?, find?-sound,
  upsert, if◌then◌else◌, Option-cases, inl, inr,
}
use photon_monitoring.Base.Keyed.{find?-upsert}
use photon_monitoring.Orm.{pick, IsDocumented}
use photon_monitoring.Platform.{Platform}
use photon_monitoring.World.{World, ret}
use photon_monitoring.Models.Rows.{
  balance_not_enough, need_smt_smaller, error_unlock_smt, Account, AccountSerialization,
}
use photon_monitoring.Models.Account.Solvency.{
  IsSolvent, IsSolvent-sane, locked, unlocked, used, locked-IsSolvent, unlocked-IsSolvent,
  used-IsSolvent,
}
use photon_monitoring.Models.Account.{
  to_account, to_serialization, blank, account_available, is_sane, has_address, filled,
  account_lock_smt, account_unlock_smt, account_use_smt, account_get_account, account_sanity,
  save_account, checked_save,
}

abbrev pub read : ℕ → List AccountSerialization → Account
read addr rs = to_account (filled (blank addr) (pick (find? (has_address addr) rs)))

module _ ⦃p : Platform⦄ where
  abbrev pub account_of : World → ℕ → Account
  account_of w addr = read addr (p.gorm.rows w.db.accounts)

  -- From `w` to `v` the account of `addr` has become `a`, and no other account has changed.
  abbrev pub OnlyAccount : World → ℕ → Account → World → Type 0
  OnlyAccount w addr a v = (b : ℕ) → account_of v b ≡ (if addr == b then a else account_of w b)

  pub OnlyAccount-self :
      (addr : ℕ) (a : Account) (w v : World) → OnlyAccount w addr a v → account_of v addr ≡ a
  OnlyAccount-self addr a w v r = ground (arith, r addr)

  -- The accounts table answers.
  abbrev pub IsUp : World → Type 0
  IsUp w = p.gorm.up w.db.accounts ≡ true

  -- From `w` to `w'` the account of `addr` has become `a`; nothing else has changed.
  abbrev pub Sets : World → ℕ → Account → World → Type 0
  Sets w addr a w' =
      ((b : ℕ) → account_of w' b ≡ (if addr == b then a else account_of w b))
      × IsUp w'
      × (w' ≡ record w { db = record w.db { accounts = w'.db.accounts } })

-- An account is read back under the address that it is asked for.
pub read-address : (addr : ℕ) (rs : List AccountSerialization) → (read addr rs).address ≡ addr
unfolding to_account
read-address addr rs = elim (Option-cases (find? (has_address addr) rs)) [
  | inl e ↦ rw e
  | inr (r, e) ↦ rw e ((==_iff _ _).0 (find?-sound (has_address addr) rs e))
]

-- A balance that is not negative is stored as it is.
pub to_account-to_serialization :
    (a : Account) → is_sane a ≡ true → to_account (to_serialization a) ≡ a
unfolding to_account to_serialization is_sane
to_account-to_serialization a h = ground arith

-- A table after the account of one address has been saved.
read-save :
    (a : Account) (b : ℕ) (rs : List AccountSerialization)
    → is_sane a ≡ true
    → read b (upsert (has_address a.address) (to_serialization a) rs)
      ≡ (if a.address == b then a else read b rs)
unfolding to_serialization
read-save a b rs h = ground (
  arith,
  find?-upsert (λ (r : AccountSerialization). r.address) b a.address (to_serialization a) rs refl,
  to_account-to_serialization a h,
)

-- The world after an account has been saved.
module _ ⦃p : Platform⦄ where
  abbrev pub saved : Account → World → World
  saved a w = record w {
    db = record w.db {
      accounts = (p.gorm.save (has_address a.address) (to_serialization a) w.db.accounts).1;
    };
  }

module _ ⦃p : Platform⦄ (g : IsDocumented p.gorm) where
  pub account_get_account-read :
      (addr : ℕ) (w : World) → IsUp w → account_get_account addr w ≡ (ret (account_of w addr), w)
  unfolding account_get_account
  account_get_account-read addr w h = rw (g.first_up (has_address addr) w.db.accounts h)

  save_account-eq : (a : Account) (w : World) → IsUp w → save_account a w ≡ (ret none, saved a w)
  unfolding save_account
  save_account-eq a w h =
      ground (arith, (g.save_up (has_address a.address) (to_serialization a) w.db.accounts h).0)

  pub saved-Sets :
      (addr : ℕ) (a : Account) (w : World)
      → IsUp w
      → a.address ≡ addr
      → is_sane a ≡ true
      → Sets w addr a (saved a w)
  saved-Sets addr a w h at s =
      let (e, r, u) = g.save_up (has_address a.address) (to_serialization a) w.db.accounts h in
      (λ b. rw (← at, r) (read-save a b (p.gorm.rows w.db.accounts) s), u, refl)

  pub checked_save-eq :
      (a : Account) (w : World)
      → IsUp w
      → is_sane a ≡ true
      → checked_save a w ≡ (ret none, saved a w)
  unfolding checked_save account_sanity
  checked_save-eq a w h s = ground (arith, save_account-eq a w h)

module _ ⦃p : Platform⦄ (g : IsDocumented p.gorm) (addr : ℕ) (amount : ℤ) (w : World) (h : IsUp w)
    (solvent : IsSolvent (account_of w addr)) (nonneg : pos 0 ≤ℤ amount) where
  abbrev held : Account
  held = account_of w addr

  save_movement :
      (f : Account → Account)
      → (f held).address ≡ held.address
      → IsSolvent (f held)
      → (checked_save (f held) w ≡ (ret none, saved (f held) w))
        × Sets w addr (f held) (saved (f held) w)
  save_movement f same s =
      let at = same ∙ read-address addr (p.gorm.rows w.db.accounts) in
      (
        checked_save-eq g (f held) w h (IsSolvent-sane s),
        saved-Sets g addr (f held) w h at (IsSolvent-sane s),
      )

  -- When the account has the amount available and needs it, a lock moves it from what is needed
  -- to what is locked, in that account alone. Otherwise the lock is refused and changes nothing.
  pub account_lock_smt_lem :
      let (r, w') = account_lock_smt addr amount w in
      (amount ≤ℤ account_available held
        → amount ≤ℤ held.need_smt
        → (r ≡ ret none) × Sets w addr (locked amount held) w')
      × (¬ (amount ≤ℤ account_available held)
          → (r ≡ ret (some (balance_not_enough (account_available held) amount))) × (w' ≡ w))
      × (amount ≤ℤ account_available held
          → ¬ (amount ≤ℤ held.need_smt)
          → (r ≡ ret (some (need_smt_smaller held.need_smt amount))) × (w' ≡ w))
  unfolding account_lock_smt
  account_lock_smt_lem =
      let r = account_get_account-read g addr w h in
      (
        λ fits needs.
            let (e, sets) =
              save_movement (locked amount) refl
                (locked-IsSolvent amount solvent nonneg fits needs) in
            let run : account_lock_smt addr amount w ≡ (ret none, saved (locked amount held) w) =
              ground (arith, r, e) in
            rw run (refl, sets),
        λ short. ground (arith, r),
        λ fits short. ground (arith, r),
      )

  -- When the account has the amount locked, a failed transaction returns it to what is available,
  -- in that account alone. Otherwise the call is refused and changes nothing.
  pub account_unlock_smt_lem :
      let (r, w') = account_unlock_smt addr amount w in
      (amount ≤ℤ held.locked_smt → (r ≡ ret none) × Sets w addr (unlocked amount held) w')
      × (¬ (amount ≤ℤ held.locked_smt)
          → (r ≡ ret (some (error_unlock_smt amount held.locked_smt))) × (w' ≡ w))
  unfolding account_unlock_smt
  account_unlock_smt_lem =
      let r = account_get_account-read g addr w h in
      (
        λ fits.
            let (e, sets) =
              save_movement (unlocked amount) refl
                (unlocked-IsSolvent amount solvent nonneg fits) in
            let run : account_unlock_smt addr amount w
                ≡ (ret none, saved (unlocked amount held) w) =
              ground (arith, r, e) in
            rw run (refl, sets),
        λ short. ground (arith, r),
      )

  -- When the account has the amount locked, a successful transaction moves it to what is used, in
  -- that account alone. Otherwise the call is refused and changes nothing.
  pub account_use_smt_lem :
      let (r, w') = account_use_smt addr amount w in
      (amount ≤ℤ held.locked_smt → (r ≡ ret none) × Sets w addr (used amount held) w')
      × (¬ (amount ≤ℤ held.locked_smt)
          → (r ≡ ret (some (error_unlock_smt amount held.locked_smt))) × (w' ≡ w))
  unfolding account_use_smt
  account_use_smt_lem =
      let r = account_get_account-read g addr w h in
      (
        λ fits.
            let (e, sets) =
              save_movement (used amount) refl (used-IsSolvent amount solvent nonneg fits) in
            let run : account_use_smt addr amount w ≡ (ret none, saved (used amount held) w) =
              ground (arith, r, e) in
            rw run (refl, sets),
        λ short. ground (arith, r),
      )
