-- ===== src/Models/Delegate/Deletion.antt =====
-- What DeleteDelegate deletes.
use photon_monitoring.Base.{ℕ, ◌≡◌, refl, ◌∙◌, Bool, true, false, none, List, [], ◌∷◌, select, ◌==◌}
use photon_monitoring.Orm.{IsDocumented, drop_where, unless_blank}
use photon_monitoring.Platform.{Platform}
use photon_monitoring.World.{World, ret}
use photon_monitoring.World.Health.{IsSafe}
use photon_monitoring.World.Total.{IsHealthy}
use photon_monitoring.Models.Rows.{DelegatePunish, DelegateAnnounceDispose}
use photon_monitoring.Models.Delegate.{has_key, delete_delegate}

drop_where-all :
    {R : Type 0} (q : R → Bool) (rs : List R) → drop_where (unless_blank true q) rs ≡ []
unfolding select
drop_where-all q [] = refl
drop_where-all q (r ∷ rs) = drop_where-all q rs

module _ ⦃p : Platform⦄ where
  -- DeleteDelegate, on a healthy database, returns no error, deletes the row of the delegate and
  -- no other delegate, and with it every punish and every dispose of every delegate.
  pub delete_delegate-rows :
      (g : IsDocumented p.gorm) (k : ℕ) (w : World)
      → IsHealthy w
      → let (r, v) = delete_delegate k w in
        (r ≡ ret none)
        × (p.gorm.rows v.db.delegates ≡ drop_where (has_key k) (p.gorm.rows w.db.delegates))
        × (p.gorm.rows v.db.punishes ≡ [])
        × (p.gorm.rows v.db.announce_disposes ≡ [])
        × (p.gorm.rows v.db.accounts ≡ p.gorm.rows w.db.accounts)
  unfolding delete_delegate
  delete_delegate-rows g k w h =
      let (e, rows_d, up_d) =
        g.delete_up (unless_blank false (has_key k)) w.db.delegates h.delegates_up in
      let (e', rows_p, up_p) =
        g.delete_up (unless_blank true (λ (r : DelegatePunish). r.delegate_key == k)) w.db.punishes
          h.punishes_up in
      let (e'', rows_a, up_a) =
        g.delete_up (unless_blank true (λ (r : DelegateAnnounceDispose). r.delegate_key == k))
          w.db.announce_disposes h.disposes_up in
      rw e'' (
        refl,
        (g.commit_up w.db.delegates _ up_d).0 ∙ rows_d,
        (g.commit_up w.db.punishes _ up_p).0
            ∙ rows_p
            ∙ drop_where-all (λ (r : DelegatePunish). r.delegate_key == k)
                (p.gorm.rows w.db.punishes),
        (g.commit_up w.db.announce_disposes _ up_a).0
            ∙ rows_a
            ∙ drop_where-all (λ (r : DelegateAnnounceDispose). r.delegate_key == k)
                (p.gorm.rows w.db.announce_disposes),
        (g.commit_up w.db.accounts _ h.accounts_up).0,
      )

  -- After the deletion the database is as healthy as before.
  pub delete_delegate-IsSafe : (g : IsDocumented p.gorm) (k : ℕ) → IsSafe (delete_delegate k)
  unfolding delete_delegate
  delete_delegate-IsSafe g k = record {
    at = λ w h.
        let (e, _, up_d) =
          g.delete_up (unless_blank false (has_key k)) w.db.delegates h.delegates_up in
        let (e', _, up_p) =
          g.delete_up (unless_blank true (λ (r : DelegatePunish). r.delegate_key == k))
            w.db.punishes h.punishes_up in
        let (e'', _, up_a) =
          g.delete_up (unless_blank true (λ (r : DelegateAnnounceDispose). r.delegate_key == k))
            w.db.announce_disposes h.disposes_up in
        rw e'' (record {
          delegates_up = (g.commit_up w.db.delegates _ up_d).1;
          punishes_up = (g.commit_up w.db.punishes _ up_p).1;
          disposes_up = (g.commit_up w.db.announce_disposes _ up_a).1;
          accounts_up = (g.commit_up w.db.accounts _ h.accounts_up).1;
          monitors_up = (g.commit_up w.db.monitors _ h.monitors_up).1;
          records_up = (g.commit_up w.db.records _ h.records_up).1;
          block_seen = h.block_seen;
        });
  }
