-- ===== src/Smt/Reply.antt =====
-- A whole reply of Photon: its transfers are credited one by one, and the next request asks from
-- the greatest block that was seen.
use photon_monitoring.Base.{
  ℤ, pos, ◌≡◌, refl, subst, true, false, some, List, [], ◌∷◌, map, All, ◌≤ℤ◌, ltb_ℤ, text_eq, arith,
  if◌then◌else◌, Bool-cases, inl, inr,
}
use photon_monitoring.Orm.{IsDocumented}
use photon_monitoring.Platform.{Platform}
use photon_monitoring.World.{World}
use photon_monitoring.World.Total.{Returns}
use photon_monitoring.Models.Rows.{ReceivedTransfer}
use photon_monitoring.Models.Account.Invariant.{AllSolvent}
use photon_monitoring.Models.Service.Invariant.{deref-some}
use photon_monitoring.Smt.{Query, credit_each, get_new_transfer}
use photon_monitoring.Smt.Credit.{Credited, credit-Credited}
use photon_monitoring.Smt.Invariant.{IsNonneg, credit-Preserves}

-- A transfer with a key, of no negative amount.
abbrev pub IsCreditable : ReceivedTransfer → Type 0
IsCreditable tr = (text_eq tr.key [] ≡ false) × IsNonneg tr

-- The transfers are credited in their order, each from the state that the one before has left.
pub data CreditedAll ⦃p : Platform⦄ : List ReceivedTransfer → World → World → Type 0 where
  none_left : (w : World) → CreditedAll [] w w
  credited_first :
      {tr : ReceivedTransfer} {trs : List ReceivedTransfer} {w u v : World}
      → Credited tr w u
      → CreditedAll trs u v
      → CreditedAll (tr ∷ trs) w v

abbrev pub UpTo : ℤ → ReceivedTransfer → Type 0
UpTo n tr = tr.block_number ≤ℤ n

UpTo-mono : (m n : ℤ) → m ≤ℤ n → (trs : List ReceivedTransfer) → All (UpTo m) trs → All (UpTo n) trs
UpTo-mono m n h [] a = tt
UpTo-mono m n h (tr ∷ trs) a = (omega arith, UpTo-mono m n h trs a.1)

module _ ⦃p : Platform⦄ where
  -- What a request that has come back makes of the query and the state.
  pub record Replied (s : Query) (trs : List ReceivedTransfer) (w : World) (s' : Query) (v : World)
      : Type 0 where
    pub credited_all : CreditedAll trs w v
    pub later : s.from ≤ℤ s'.from
    pub covers : All (UpTo s'.from) trs
    pub running : s'.stopped ≡ false
    pub solvent : AllSolvent v

module _ ⦃p : Platform⦄ (g : IsDocumented p.gorm) where
  credit_each-CreditedAll :
      (n : ℤ) (trs : List ReceivedTransfer) (w : World)
      → All IsCreditable trs
      → p.gorm.up w.db.transfers ≡ true
      → AllSolvent w
      → Returns
          (credit_each n (map some trs))
          w
          (λ m v. CreditedAll trs w v × (n ≤ℤ m) × All (UpTo m) trs × AllSolvent v)
  unfolding credit_each
  credit_each-CreditedAll n [] w c up' s = (n, w, refl, (none_left w, omega arith, tt, s))
  credit_each-CreditedAll n (tr ∷ trs) w c up' s =
      let sender = p.text_address tr.from_address_str in
      let (r, u, run, (one, up'')) =
        credit-Credited g tr w up' c.0.0 s.up (s.solvent sender) c.0.1 in
      let kept : AllSolvent u =
        subst (λ x. AllSolvent x.1) run ((credit-Preserves g tr c.0.1).at w s) in
      let next = if ltb_ℤ n tr.block_number then tr.block_number else n in
      let (m, v, run', (rest, below, all, s')) = credit_each-CreditedAll next trs u c.1 up'' kept in
      let least : n ≤ℤ m = ground (arith, below) in
      let seen : tr.block_number ≤ℤ m = ground (arith, below) in
      (
        m,
        v,
        ground (arith, deref-some tr w, run, run'),
        (credited_first one rest, least, (seen, all), s'),
      )

  -- While the tables answer and all accounts are solvent, a reply whose transfers have a key and no
  -- negative amount is handled to its end, unless the query was stopped: every transfer is
  -- credited, in order; the block to ask from next is not below what it was nor below the block of
  -- a transfer of the reply; and all accounts are solvent again.
  pub get_new_transfer-Replied :
      (s : Query) (trs : List ReceivedTransfer) (w : World)
      → s.stopped ≡ false
      → All IsCreditable trs
      → p.gorm.up w.db.transfers ≡ true
      → AllSolvent w
      → Returns (get_new_transfer (some (map some trs)) s) w (λ s' v. Replied s trs w s' v)
  unfolding get_new_transfer
  get_new_transfer-Replied s trs w on c up' solvent =
      let (m, v, run, (all, below, seen, s')) =
        credit_each-CreditedAll (pos 0) trs w c up' solvent in
      elim (Bool-cases (ltb_ℤ s.from m)) [
        | inl e ↦ (
          record s { from = m },
          v,
          ground (arith, run, e, on),
          record {
            credited_all = all;
            later = ground arith;
            covers = seen;
            running = on;
            solvent = s';
          },
        )
        | inr e ↦ (
          s,
          v,
          ground (arith, run, e, on),
          record {
            credited_all = all;
            later = omega arith;
            covers = UpTo-mono m s.from (ground arith) trs seen;
            running = on;
            solvent = s';
          },
        )
      ]
