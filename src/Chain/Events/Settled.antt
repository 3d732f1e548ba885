-- ===== src/Chain/Events/Settled.antt =====
-- What a settled channel leaves of its delegates.
use photon_monitoring.Base.{
  ℕ, ◌≡◌, refl, sym, subst, ap, ◌∙◌, Bool, false, Bool-cases, inl, inr, not, ◌||◌, List, [], ◌∷◌,
  select, All, arith, if◌then◌else◌,
}
use photon_monitoring.Orm.{IsDocumented, drop_where}
use photon_monitoring.Platform.{Platform}
use photon_monitoring.World.{World}
use photon_monitoring.World.Total.{IsHealthy, Returns}
use photon_monitoring.Models.Rows.{Delegate}
use photon_monitoring.Models.Delegate.{has_key, delete_delegate}
use photon_monitoring.Models.Delegate.Saving.{in_channel, channel_delegates-found}
use photon_monitoring.Models.Delegate.Deletion.{delete_delegate-rows, delete_delegate-IsSafe}
use photon_monitoring.Chain.Events.{delete_each, listed_or_none, handle_settled}

-- The delegate has the key of one of them.
pub has_key_of : ⦃p : Platform⦄ → List Delegate → Delegate → Bool
has_key_of [] x = false
has_key_of (d ∷ ds) x = has_key d.key x || has_key_of ds x

module _ ⦃p : Platform⦄ where
  drop_where-again :
      (d : Delegate) (ds rs : List Delegate)
      → drop_where (has_key_of ds) (drop_where (has_key d.key) rs)
        ≡ drop_where (has_key_of (d ∷ ds)) rs
  unfolding select has_key_of
  drop_where-again d ds [] = refl
  drop_where-again d ds (r ∷ rs) = elim (Bool-cases (has_key d.key r)) [
    | inl t ↦ rw t (drop_where-again d ds rs)
    | inr t ↦ rw t (ap (λ z. if not (has_key_of ds r) then r ∷ z else z) (drop_where-again d ds rs))
  ]

  drop_where-none : (rs : List Delegate) → drop_where (has_key_of []) rs ≡ rs
  unfolding select has_key_of
  drop_where-none [] = refl
  drop_where-none (r ∷ rs) = ap (λ z. r ∷ z) (drop_where-none rs)

  delete_each-rows :
      (g : IsDocumented p.gorm) (ds : List Delegate) (w : World)
      → IsHealthy w
      → Returns (delete_each ds) w (λ _ v.
        p.gorm.rows v.db.delegates ≡ drop_where (has_key_of ds) (p.gorm.rows w.db.delegates))
  unfolding delete_each
  delete_each-rows g [] w h = (tt, w, refl, sym (drop_where-none (p.gorm.rows w.db.delegates)))
  delete_each-rows g (d ∷ ds) w h =
      let u = (delete_delegate d.key w).1 in
      let (e, rows', _, _, _) = delete_delegate-rows g d.key w h in
      let (x, v, run, rows'') = delete_each-rows g ds u ((delete_delegate-IsSafe g d.key).at w h) in
      (
        x,
        v,
        rw e run,
        rows''
            ∙ ap (drop_where (has_key_of ds)) rows'
            ∙ drop_where-again d ds (p.gorm.rows w.db.delegates),
      )

  -- A delegate that no deletion reaches is of no settled channel.
  abbrev Spared : (Delegate → Bool) → List Delegate → Delegate → Type 0
  Spared q ds x = has_key_of ds x ≡ false → q x ≡ false

  Spared-again :
      (q : Delegate → Bool) (d : Delegate) (ds rs : List Delegate)
      → All (Spared q ds) rs
      → All (Spared q (d ∷ ds)) rs
  unfolding has_key_of
  Spared-again q d ds [] h = tt
  Spared-again q d ds (r ∷ rs) h = (λ none_of. h.0 (ground arith), Spared-again q d ds rs h.1)

  select-Spared : (q : Delegate → Bool) (rs : List Delegate) → All (Spared q (select q rs)) rs
  unfolding select has_key_of
  select-Spared q [] = tt
  select-Spared q (r ∷ rs) = elim (Bool-cases (q r)) [
    | inl t ↦
        let e : select q (r ∷ rs) ≡ r ∷ select q rs = rw t refl in
        subst (λ z. All (Spared q z) (r ∷ rs)) (sym e)
          (λ none_of. ground arith, Spared-again q r (select q rs) rs (select-Spared q rs))
    | inr t ↦
        let e : select q (r ∷ rs) ≡ select q rs = rw t refl in
        subst (λ z. All (Spared q z) (r ∷ rs)) (sym e) (λ none_of. t, select-Spared q rs)
  ]

  drop_where-Spared :
      (q : Delegate → Bool) (ds rs : List Delegate)
      → All (Spared q ds) rs
      → All (λ x. q x ≡ false) (drop_where (has_key_of ds) rs)
  unfolding select
  drop_where-Spared q ds [] h = tt
  drop_where-Spared q ds (r ∷ rs) h = elim (Bool-cases (has_key_of ds r)) [
    | inl t ↦ rw t (drop_where-Spared q ds rs h.1)
    | inr t ↦ rw t (h.0 t, drop_where-Spared q ds rs h.1)
  ]

  -- When a channel is settled, withdrawn or cooperatively settled, on a healthy database, exactly
  -- the delegates that have the key of a delegate of the channel are deleted, and no delegate of
  -- the channel is left.
  pub handle_settled-rows :
      (g : IsDocumented p.gorm) (channel : ℕ) (w : World)
      → IsHealthy w
      → let rs = p.gorm.rows w.db.delegates in
        Returns (handle_settled channel) w (λ _ v.
          (p.gorm.rows v.db.delegates ≡ drop_where (has_key_of (select (in_channel channel) rs)) rs)
          × All (λ d. in_channel channel d ≡ false) (p.gorm.rows v.db.delegates))
  unfolding handle_settled listed_or_none
  handle_settled-rows g channel w h =
      let rs = p.gorm.rows w.db.delegates in
      let q = in_channel channel in
      let (x, v, run, rows') = delete_each-rows g (select q rs) w h in
      (
        x,
        v,
        rw (channel_delegates-found g channel w h) run,
        (
          rows',
          subst (All (λ d. in_channel channel d ≡ false)) (sym rows')
              (drop_where-Spared q (select q rs) rs (select-Spared q rs)),
        ),
      )
