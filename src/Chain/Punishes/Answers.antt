-- ===== src/Chain/Punishes/Answers.antt =====
-- Whether the chain answers one of the punishes of a delegate with a success, and that the loop of
-- doDelegatePunishes finds it out.
use photon_monitoring.Base.{◌≡◌, refl, Bool, true, false, ◌||◌, List, [], ◌∷◌, Bool-cases, inl, inr}
use photon_monitoring.Orm.{IsDocumented}
use photon_monitoring.Platform.{Platform}
use photon_monitoring.World.{World}
use photon_monitoring.World.Total.{IsHealthy, Returns}
use photon_monitoring.Models.Rows.{Delegate, DelegatePunish}
use photon_monitoring.Models.Record.{is_success}
use photon_monitoring.Chain.Execute.{punish_tx}
use photon_monitoring.Chain.Execute.Answer.{called, do_punish-Answered}
use photon_monitoring.Chain.Punishes.{punish_one, punish_each}
use photon_monitoring.Chain.Punishes.Frame.{skip_punish-IsTotal}

module _ ⦃p : Platform⦄ where
  -- The punishes are tried in their order, each from the state outside that the one before has left.
  unfoldable pub some_punished : Delegate → List DelegatePunish → p.Outside → Bool
  some_punished d [] o = false
  some_punished d (dp ∷ dps) o =
      let (b, o') = called d (punish_tx d dp) o in b || some_punished d dps o'

module _ ⦃p : Platform⦄ (g : IsDocumented p.gorm) (d : Delegate) where
  -- After a success the others are recorded alone.
  punish_each_done :
      (dps : List DelegatePunish) (w : World)
      → IsHealthy w
      → Returns (punish_each d true dps) w (λ b v. (b ≡ true) × IsHealthy v)
  unfolding punish_each punish_one
  punish_each_done [] w h = (true, w, refl, (refl, h))
  punish_each_done (dp ∷ dps) w h =
      let (_, u, run, hu) = (skip_punish-IsTotal g d dp).at w h in
      let (b, v, run', q) = punish_each_done dps u hu in (b, v, rw run run', q)

  pub punish_each-some_punished :
      (dps : List DelegatePunish) (w : World)
      → IsHealthy w
      → Returns
          (punish_each d false dps)
          w
          (λ b v. (b ≡ some_punished d dps w.outside) × IsHealthy v)
  unfolding punish_each punish_one some_punished
  punish_each-some_punished [] w h = (false, w, refl, (refl, h))
  punish_each-some_punished (dp ∷ dps) w h =
      let (r, u, run, (told, at, hu)) = do_punish-Answered g d dp w h in
      elim (Bool-cases (is_success r.status)) [
        | inl good ↦
            let (b, v, run', (e, hv)) = punish_each_done dps u hu in
            (b, v, rw (run, good) run', (rw (← told, good) e, hv))
        | inr bad ↦
            let (b, v, run', (e, hv)) = punish_each-some_punished dps u hu in
            (b, v, rw (run, bad) run', (rw (← told, bad, ← at) e, hv))
      ]
