-- ===== src/Smt/Credit.antt =====
-- How a reported transfer is handled, and handled again.
use photon_monitoring.Base.{
  ℕ, ℤ, pos, ◌≡◌, refl, ap, ◌∙◌, true, false, Bool-cases, Option-cases, inl, inr, none, some, [],
  text_eq, ◌==◌, ◌≤ℤ◌, arith, ⊤,
}
use photon_monitoring.Orm.{IsDocumented}
use photon_monitoring.Platform.{Platform, settings}
use photon_monitoring.Utils.{string_to_big_int}
use photon_monitoring.World.{World, ret, ◌>>◌}
use photon_monitoring.World.Total.{Returns}
use photon_monitoring.Models.Rows.{ReceivedTransfer}
use photon_monitoring.Models.Account.{account_add_smt}
use photon_monitoring.Models.Account.Rules.{account_of, OnlyAccount, IsUp}
use photon_monitoring.Models.Account.Solvency.{IsSolvent, deposited}
use photon_monitoring.Models.Account.Deposit.{account_add_smt_lem}
use photon_monitoring.Models.Transfer.Once.{
  stored_transfer, with_transfer, known_transfer, new_transfer, new_transfer-stored,
}
use photon_monitoring.Smt.{credit}

-- How the crediting of `tr` ends, from `w` in `v`.
pub data Credited ⦃p : Platform⦄ (tr : ReceivedTransfer) (w v : World) : Type 0 where
  -- it is of another token, and nothing changes
  other_token :
      (p.text_address tr.token_address_str == settings.smt_address) ≡ false
      → v ≡ w
      → Credited tr w v
  -- it is of the token, but stored already, and nothing changes
  known :
      (r : ReceivedTransfer)
      → (p.text_address tr.token_address_str == settings.smt_address) ≡ true
      → stored_transfer tr.key w ≡ some r
      → v ≡ w
      → Credited tr w v
  -- it is of the token and was not stored: it is stored, and its amount deposited in the account of
  -- its sender
  credited :
      (p.text_address tr.token_address_str == settings.smt_address) ≡ true
      → stored_transfer tr.key w ≡ none
      → stored_transfer tr.key v ≡ some tr
      → OnlyAccount w
          (p.text_address tr.from_address_str)
          (deposited
            (string_to_big_int tr.amount_str)
            (account_of w (p.text_address tr.from_address_str)))
          v
      → Credited tr w v

module _ ⦃p : Platform⦄ (g : IsDocumented p.gorm) (tr : ReceivedTransfer) (w : World)
    (up : p.gorm.up w.db.transfers ≡ true) where
  abbrev sender : ℕ
  sender = p.text_address tr.from_address_str

  abbrev amount : ℤ
  amount = string_to_big_int tr.amount_str

  abbrev Ends : ⊤ → World → Type 0
  Ends r v = Credited tr w v × (p.gorm.up v.db.transfers ≡ true)

  credit_new :
      (p.text_address tr.token_address_str == settings.smt_address) ≡ true
      → stored_transfer tr.key w ≡ none
      → text_eq tr.key [] ≡ false
      → IsUp w
      → IsSolvent (account_of w sender)
      → pos 0 ≤ℤ amount
      → Returns (credit tr) w Ends
  unfolding credit
  credit_new token fresh named h solvent nonneg =
      let u = with_transfer tr w in
      let (done, (only, up', frame)) = account_add_smt_lem g sender amount u h solvent nonneg in
      let (at, up'') = new_transfer-stored g tr w up named in
      let v = (account_add_smt sender amount u).1 in
      (
        tt,
        v,
        ground (arith, new_transfer g tr w up fresh, done),
        (
          credited token fresh (ap (λ (x : World). stored_transfer tr.key x) frame ∙ at) only,
          ap (λ (x : World). p.gorm.up x.db.transfers) frame ∙ up'',
        ),
      )

  -- While the tables answer, a transfer with a key, of no negative amount, from a
  -- sender whose account is solvent, is handled in one of the three ways of
  -- `Credited`: it is of another token, or stored already, and nothing changes; or it
  -- is new, and it is stored and its amount deposited in the account of its sender
  -- alone.
  pub credit-Credited :
      text_eq tr.key [] ≡ false
      → IsUp w
      → IsSolvent (account_of w sender)
      → pos 0 ≤ℤ amount
      → Returns (credit tr) w (λ _ v. Credited tr w v × (p.gorm.up v.db.transfers ≡ true))
  unfolding credit
  credit-Credited named h solvent nonneg =
      elim (Bool-cases (p.text_address tr.token_address_str == settings.smt_address)) [
        | inr other ↦ (tt, w, ground arith, (other_token other refl, up))
        | inl token ↦ elim (Option-cases (stored_transfer tr.key w)) [
          | inl fresh ↦ credit_new token fresh named h solvent nonneg
          | inr (r, e) ↦
              (tt, w, ground (arith, known_transfer g tr w up r e), (known r token e refl, up))
        ]
      ]

module _ ⦃p : Platform⦄ (g : IsDocumented p.gorm) (tr : ReceivedTransfer) (w : World)
    (up : p.gorm.up w.db.transfers ≡ true) where
  credit_known :
      (r : ReceivedTransfer) → stored_transfer tr.key w ≡ some r → credit tr w ≡ (ret tt, w)
  unfolding credit
  credit_known r e =
      elim (Bool-cases (p.text_address tr.token_address_str == settings.smt_address)) [
        | inr other ↦ ground arith
        | inl token ↦ ground (arith, known_transfer g tr w up r e)
      ]

  credit_other :
      (p.text_address tr.token_address_str == settings.smt_address) ≡ false
      → credit tr w ≡ (ret tt, w)
  unfolding credit
  credit_other other = ground arith

  -- From where a transfer was handled, handling it again changes nothing.
  credit_handled : (u : World) → Credited tr u w → credit tr w ≡ (ret tt, w)
  credit_handled u (other_token other same) = credit_other other
  credit_handled u (known r token e same) =
      credit_known r (ap (λ (x : World). stored_transfer tr.key x) same ∙ e)
  credit_handled u (credited token fresh at only) = credit_known tr at

module _ ⦃p : Platform⦄ (g : IsDocumented p.gorm) (tr : ReceivedTransfer) (w : World)
    (up : p.gorm.up w.db.transfers ≡ true) where
  -- A transfer that Photon reports twice is credited once: handling it twice is
  -- handling it once, while the tables answer, for a transfer with a key, of no
  -- negative amount, from a sender whose account is solvent.
  pub credit-twice :
      text_eq tr.key [] ≡ false
      → IsUp w
      → IsSolvent (account_of w (p.text_address tr.from_address_str))
      → pos 0 ≤ℤ string_to_big_int tr.amount_str
      → (credit tr >> credit tr) w ≡ credit tr w
  credit-twice named h solvent nonneg =
      let (r, v, run, (how, up')) = credit-Credited g tr w up named h solvent nonneg in
      ground (arith, run, credit_handled g tr v up' w how)
