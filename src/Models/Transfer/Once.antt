-- ===== src/Models/Transfer/Once.antt =====
-- When a transfer is new, and what is stored then.
use photon_monitoring.Base.{
  ◌≡◌, refl, true, false, none, some, Option, [], Text, text_eq, text_eq_refl, find?,
  find?-upsert_self,
}
use photon_monitoring.Orm.{IsDocumented}
use photon_monitoring.Platform.{Platform}
use photon_monitoring.World.{World, ret}
use photon_monitoring.Models.Rows.{ReceivedTransfer}
use photon_monitoring.Models.Transfer.{
  has_transfer_key, get_received_transfer, save_transfer,
  new_receive_transfer_from_receive_transfer,
}

module _ ⦃p : Platform⦄ where
  -- The stored transfer of a key, and the table after a transfer was stored.
  abbrev pub stored_transfer : Text → World → Option ReceivedTransfer
  stored_transfer key w = find? (has_transfer_key key) (p.gorm.rows w.db.transfers)

  abbrev pub with_transfer : ReceivedTransfer → World → World
  with_transfer tr w = record w {
    db = record w.db { transfers = (p.gorm.save (λ x. text_eq x.key tr.key) tr w.db.transfers).1 };
  }

module _ ⦃p : Platform⦄ (g : IsDocumented p.gorm) (tr : ReceivedTransfer) (w : World)
    (up : p.gorm.up w.db.transfers ≡ true) where
  pub known_transfer :
      (r : ReceivedTransfer)
      → stored_transfer tr.key w ≡ some r
      → new_receive_transfer_from_receive_transfer tr w ≡ (ret false, w)
  unfolding new_receive_transfer_from_receive_transfer get_received_transfer
  known_transfer r e = rw (g.first_up (has_transfer_key tr.key) w.db.transfers up, e) refl

  pub new_transfer :
      stored_transfer tr.key w ≡ none
      → new_receive_transfer_from_receive_transfer tr w ≡ (ret true, with_transfer tr w)
  unfolding new_receive_transfer_from_receive_transfer get_received_transfer save_transfer
  new_transfer e = rw (g.first_up (has_transfer_key tr.key) w.db.transfers up, e) refl

  -- After that it is stored, and the table is up.
  pub new_transfer-stored :
      text_eq tr.key [] ≡ false
      → (stored_transfer tr.key (with_transfer tr w) ≡ some tr)
        × (p.gorm.up (with_transfer tr w).db.transfers ≡ true)
  unfolding has_transfer_key
  new_transfer-stored named =
      let (_, rows', up') = g.save_up (λ x. text_eq x.key tr.key) tr w.db.transfers up in
      (
        rw (named, rows')
            (find?-upsert_self (λ x. text_eq x.key tr.key) tr (p.gorm.rows w.db.transfers)
              (text_eq_refl tr.key)),
        up',
      )
