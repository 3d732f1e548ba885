-- ===== src/Chain/Events/Closed.antt =====
-- What a closed channel does to its delegates.
use photon_monitoring.Base.{
  ℕ, ℤ, pos, ◌≡◌, refl, ap, subst, ◌∙◌, Bool, true, false, Bool-cases, inl, inr, Option, none, some,
  Text, List, [], ◌∷◌, map, select, upsert, All, arith, if◌then◌else◌,
}
use photon_monitoring.Orm.{IsDocumented}
use photon_monitoring.Platform.{Platform, ChannelInfo, Reply, reply, reply_err}
use photon_monitoring.World.{World}
use photon_monitoring.World.Total.{IsHealthy, Returns}
use photon_monitoring.World.Health.{IsSafe-outer}
use photon_monitoring.Models.Rows.{Delegate}
use photon_monitoring.Models.Delegate.{has_key}
use photon_monitoring.Models.Delegate.Saving.{
  in_channel, channel_delegates-found, update_object-saves,
}
use photon_monitoring.Models.Monitor.{wrap64}
use photon_monitoring.Models.Monitor.Scheduled.{add_delegate_monitor-returns}
use photon_monitoring.Chain.Events.{
  settle_each, with_channel_info, unless_token_err, closed_delegates, handle_closed,
}

-- No delegate has the key.
abbrev pub Lacks : ℕ → List Delegate → Type 0
Lacks k = All (λ d. ¬ (d.key ≡ k))

abbrev pub KeysDiffer : List Delegate → Type 0
KeysDiffer [] = Unit
KeysDiffer (d ∷ ds) = Lacks d.key ds × KeysDiffer ds

abbrev pub settled_at : ℤ → Delegate → Delegate
settled_at n d = record d { settle_block_number = n }

-- The delegates that pass the test get the settle block.
abbrev pub settle_where : (Delegate → Bool) → ℤ → Delegate → Delegate
settle_where q n d = if q d then settled_at n d else d

All-select :
    (P : Delegate → Type 0) (q : Delegate → Bool) (rs : List Delegate)
    → All P rs
    → All P (select q rs)
unfolding select
All-select P q [] h = tt
All-select P q (r ∷ rs) h = elim (Bool-cases (q r)) [
  | inl t ↦ rw t (h.0, All-select P q rs h.1)
  | inr t ↦ rw t (All-select P q rs h.1)
]

module _ ⦃p : Platform⦄ where
  -- Each of a list of delegates is saved with the settle block, one after the other.
  resaved : ℤ → List Delegate → List Delegate → List Delegate
  resaved n [] rs = rs
  resaved n (d ∷ ds) rs = resaved n ds (upsert (has_key d.key) (settled_at n d) rs)

  resaved-skips :
      (n : ℤ) (ds rs : List Delegate) (r : Delegate)
      → Lacks r.key ds
      → resaved n ds (r ∷ rs) ≡ r ∷ resaved n ds rs
  unfolding resaved upsert
  resaved-skips n [] rs r l = refl
  resaved-skips n (d ∷ ds) rs r l =
      let t : has_key d.key r ≡ false = ground (arith, l.0) in
      rw t (resaved-skips n ds (upsert (has_key d.key) (settled_at n d) rs) r l.1)

  -- To save those that pass a test is to change each of them in its place.
  resaved-select :
      (n : ℤ) (q : Delegate → Bool) (rs : List Delegate)
      → KeysDiffer rs
      → resaved n (select q rs) rs ≡ map (settle_where q n) rs
  unfolding resaved upsert select
  resaved-select n q [] h = refl
  resaved-select n q (r ∷ rs) h =
      let others = All-select (λ d. ¬ (d.key ≡ r.key)) q rs h.0 in
      let at : has_key r.key r ≡ true = ground arith in
      let first : upsert (has_key r.key) (settled_at n r) (r ∷ rs) ≡ settled_at n r ∷ rs =
        rw at refl in
      elim (Bool-cases (q r)) [
        | inl t ↦ rw t (
            ap (resaved n (select q rs)) first
            ∙ resaved-skips n (select q rs) rs (settled_at n r) others
            ∙ ap (λ z. settled_at n r ∷ z) (resaved-select n q rs h.1))
        | inr t ↦ rw t (
            resaved-skips n (select q rs) rs r others ∙ ap (λ z. r ∷ z) (resaved-select n q rs h.1))
      ]

  abbrev delegates_of : World → List Delegate
  delegates_of w = p.gorm.rows w.db.delegates

module _ ⦃p : Platform⦄ (g : IsDocumented p.gorm) where
  settle_each-resaved :
      (n : ℤ) (ds : List Delegate) (w : World)
      → IsHealthy w
      → Returns (settle_each n ds) w (λ _ v. delegates_of v ≡ resaved n ds (delegates_of w))
  unfolding settle_each resaved
  settle_each-resaved n [] w h = (tt, w, refl, refl)
  settle_each-resaved n (d ∷ ds) w h =
      let d' = settled_at n d in
      let (_, u, run, ((rows', _), hu)) = update_object-saves g d' w h in
      let (_, u', run', (same, hu')) = add_delegate_monitor-returns g d' u hu in
      let (x, v, run'', rows'') = settle_each-resaved n ds u' hu' in
      (x, v, rw (run, run') run'', rows'' ∙ ap (resaved n ds) (ap p.gorm.rows same ∙ rows'))

module _ ⦃p : Platform⦄ where
  -- The settle block that a reply of the contract tells.
  abbrev settle_block_of : Reply ChannelInfo → Option ℤ
  settle_block_of (reply_err e) = none
  settle_block_of (reply i) = some (wrap64 (pos i.settle_block_number))

  -- The contract is asked only where a token network is found.
  abbrev asked : ℕ → ℕ → Option Text → p.Outside → Option ℤ
  asked token channel (some t) o = none
  asked token channel none o = settle_block_of (p.channel_info token channel o).0

  -- The settle block that the chain tells for a channel, asked with the token of the first of its
  -- delegates.
  pub told : ℕ → List Delegate → World → Option ℤ
  told channel [] w = none
  told channel (d ∷ ds) w =
      let token = p.text_address d.token_address_str in
      let (e, o) = p.token_network token w.outside in asked token channel e o

  -- The delegates of a channel get the settle block, if there is one.
  abbrev pub settled_by : Option ℤ → ℕ → List Delegate → List Delegate
  settled_by none channel rs = rs
  settled_by (some n) channel rs = map (settle_where (in_channel channel) n) rs

  abbrev Settled : Option ℤ → ℕ → World → World → Type 0
  Settled n channel w v = delegates_of v ≡ settled_by n channel (delegates_of w)

module _ ⦃p : Platform⦄ (g : IsDocumented p.gorm) (channel : ℕ) where
  abbrev listed_in : World → List Delegate
  listed_in w = select (in_channel channel) (delegates_of w)

  with_channel_info-Settled :
      (r : Reply ChannelInfo) (w : World)
      → IsHealthy w
      → KeysDiffer (delegates_of w)
      → Returns
          (with_channel_info (listed_in w) r)
          w
          (λ _ v. Settled (settle_block_of r) channel w v)
  unfolding with_channel_info
  with_channel_info-Settled (reply_err e) w h k = (tt, w, refl, refl)
  with_channel_info-Settled (reply i) w h k =
      let n = wrap64 (pos i.settle_block_number) in
      let (x, v, run, rows') = settle_each-resaved g n (listed_in w) w h in
      (x, v, run, rows' ∙ resaved-select n (in_channel channel) (delegates_of w) k)

  unless_token_err-Settled :
      (token : ℕ) (e : Option Text) (w : World)
      → IsHealthy w
      → KeysDiffer (delegates_of w)
      → Returns
          (unless_token_err token channel (listed_in w) e)
          w
          (λ _ v. Settled (asked token channel e w.outside) channel w v)
  unfolding unless_token_err
  unless_token_err-Settled token (some t) w h k = (tt, w, refl, refl)
  unless_token_err-Settled token none w h k =
      let (r, o) = p.channel_info token channel w.outside in
      with_channel_info-Settled r (record w { outside = o })
        ((IsSafe-outer (p.channel_info token channel)).at w h) k

  closed_delegates-Settled :
      (ds : List Delegate) (w : World)
      → IsHealthy w
      → KeysDiffer (delegates_of w)
      → listed_in w ≡ ds
      → Returns
          (closed_delegates channel (reply ds))
          w
          (λ _ v. Settled (told channel ds w) channel w v)
  unfolding closed_delegates told
  closed_delegates-Settled [] w h k at = (tt, w, refl, refl)
  closed_delegates-Settled (d ∷ ds) w h k at =
      let token = p.text_address d.token_address_str in
      let (e, o) = p.token_network token w.outside in
      subst
        (λ z.
          Returns (unless_token_err token channel z e) (record w { outside = o })
            (λ _ v. Settled (asked token channel e o) channel w v))
        at
        (unless_token_err-Settled token e (record w { outside = o })
          ((IsSafe-outer (p.token_network token)).at w h) k)

  -- On a healthy database whose delegates have different keys, handleClosedStateChange returns: if
  -- the chain tells the settle block of the channel, asked with the token of the first delegate of
  -- the channel, every delegate of the channel has it, and no other delegate has changed; if there
  -- is no delegate, or one of the two questions ends in an error, none has changed.
  pub handle_closed-Settled :
      (w : World)
      → IsHealthy w
      → KeysDiffer (delegates_of w)
      → Returns (handle_closed channel) w (λ _ v.
        delegates_of v
        ≡ settled_by
            (told channel (select (in_channel channel) (delegates_of w)) w)
            channel
            (delegates_of w))
  unfolding handle_closed
  handle_closed-Settled w h k =
      let (x, v, run, q) = closed_delegates-Settled (listed_in w) w h k refl in
      (x, v, rw (channel_delegates-found g channel w h) run, q)
