-- ===== src/Models/Delegate/Saving.antt =====
-- The calls on one delegate, from a healthy state: UpdateObject replaces its row and nothing else.
use photon_monitoring.Base.{
  Bool, text_eq, ℕ, ◌≡◌, refl, ap, List, select, ◌==◌, none, some, find?, arith, upsert,
}
use photon_monitoring.Orm.{IsDocumented, pick}
use photon_monitoring.Platform.{Platform, reply}
use photon_monitoring.World.{World, ret}
use photon_monitoring.World.Total.{IsHealthy, Returns}
use photon_monitoring.Models.Rows.{
  Delegate, DelegateStatus, DelegateUpdateBalanceProof, DelegateUnlock, DelegateSecret,
}
use photon_monitoring.Models.Delegate.{
  has_key, set_status, get_delegate_by_key, update_delegate_status, update_object,
  get_delegate_list_by_channel_identifier, set_unlocks, set_update_balance_proof,
  update_balance_proof, unlocks, secrets, decode, listed,
  get_delegate_announce_dispose_list_by_delegate_key, get_delegate_punish_list_by_delegate_key,
}

module _ ⦃p : Platform⦄ where
  -- From `w` to `v` the row of `d` has been saved, and nothing else has changed.
  abbrev pub SavesDelegate : World → Delegate → World → Type 0
  SavesDelegate w d v =
      (p.gorm.rows v.db.delegates ≡ upsert (has_key d.key) d (p.gorm.rows w.db.delegates))
      × (v ≡ record w { db = record w.db { delegates = v.db.delegates } })

  pub update_object-saves :
      (g : IsDocumented p.gorm) (d : Delegate) (w : World)
      → IsHealthy w
      → Returns (update_object d) w (λ _ v. SavesDelegate w d v × IsHealthy v)
  unfolding update_object
  update_object-saves g d w h =
      let (e, rows', up') = g.save_up (has_key d.key) d w.db.delegates h.delegates_up in
      let t = (p.gorm.save (has_key d.key) d w.db.delegates).1 in
      (
        tt,
        record w { db = record w.db { delegates = t } },
        ground (arith, e),
        (
          (rows', refl),
          record {
            delegates_up = up';
            punishes_up = h.punishes_up;
            disposes_up = h.disposes_up;
            accounts_up = h.accounts_up;
            monitors_up = h.monitors_up;
            records_up = h.records_up;
            block_seen = h.block_seen;
          },
        ),
      )

  -- The getters of a delegate that has its columns, and the queries of its rows.
  pub update_balance_proof-has :
      (d : Delegate) (x : DelegateUpdateBalanceProof) (w : World)
      → d.update_balance_proof_gob ≡ some x
      → update_balance_proof d w ≡ (ret x, w)
  unfolding update_balance_proof decode
  update_balance_proof-has d x w e = rw e refl

  pub unlocks-has :
      (d : Delegate) (x : List DelegateUnlock) (w : World)
      → d.unlocks_gob ≡ some x
      → unlocks d w ≡ (ret x, w)
  unfolding unlocks decode
  unlocks-has d x w e = rw e refl

  pub secrets-has :
      (d : Delegate) (x : List DelegateSecret) (w : World)
      → d.secrets_gob ≡ some x
      → secrets d w ≡ (ret x, w)
  unfolding secrets decode
  secrets-has d x w e = rw e refl

  pub disposes-found :
      (g : IsDocumented p.gorm) (k : ℕ) (w : World)
      → IsHealthy w
      → get_delegate_announce_dispose_list_by_delegate_key k w
        ≡ (ret (reply (select (λ x. x.delegate_key == k) (p.gorm.rows w.db.announce_disposes))), w)
  unfolding get_delegate_announce_dispose_list_by_delegate_key
  disposes-found g k w h =
      ap (λ r. (ret (listed r), w))
        (g.find_up (λ x. x.delegate_key == k) w.db.announce_disposes h.disposes_up)

  pub punishes-found :
      (g : IsDocumented p.gorm) (k : ℕ) (w : World)
      → IsHealthy w
      → get_delegate_punish_list_by_delegate_key k w
        ≡ (ret (reply (select (λ x. x.delegate_key == k) (p.gorm.rows w.db.punishes))), w)
  unfolding get_delegate_punish_list_by_delegate_key
  punishes-found g k w h =
      ap (λ r. (ret (listed r), w))
        (g.find_up (λ x. x.delegate_key == k) w.db.punishes h.punishes_up)

module _ ⦃p : Platform⦄ where
  abbrev pub in_channel : ℕ → Delegate → Bool
  in_channel c d = text_eq d.channel_identifier_str (p.hash_text c)

  pub channel_delegates-found :
      (g : IsDocumented p.gorm) (c : ℕ) (w : World)
      → IsHealthy w
      → get_delegate_list_by_channel_identifier c w
        ≡ (ret (reply (select (in_channel c) (p.gorm.rows w.db.delegates))), w)
  unfolding get_delegate_list_by_channel_identifier
  channel_delegates-found g c w h =
      ap (λ r. (ret (listed r), w)) (g.find_up (in_channel c) w.db.delegates h.delegates_up)

pub set_unlocks-set_update_balance_proof :
    (d : Delegate) (x : DelegateUpdateBalanceProof) (us : List DelegateUnlock)
    → set_unlocks (set_update_balance_proof d x) us
      ≡ record d { update_balance_proof_gob = some x; unlocks_gob = some us }
unfolding set_unlocks set_update_balance_proof
set_unlocks-set_update_balance_proof d x us = refl

module _ ⦃p : Platform⦄ (g : IsDocumented p.gorm) (w : World) (h : IsHealthy w) where
  pub get_delegate_by_key-found :
      (k : ℕ)
      → get_delegate_by_key k w ≡ (ret (pick (find? (has_key k) (p.gorm.rows w.db.delegates))), w)
  unfolding get_delegate_by_key
  get_delegate_by_key-found k =
      ap (λ r. (ret r, w)) (g.first_up (has_key k) w.db.delegates h.delegates_up)

  pub update_delegate_status-saved :
      (d : Delegate) (s : DelegateStatus)
      → update_delegate_status d s w ≡ (
        ret (set_status s d, none),
        record w {
          db = record w.db {
            delegates = (p.gorm.update (has_key d.key) (set_status s) w.db.delegates).1;
          };
        },
      )
  unfolding update_delegate_status
  update_delegate_status-saved d s =
      let (e, _, _) = g.update_up (has_key d.key) (set_status s) w.db.delegates h.delegates_up in
      rw e refl
