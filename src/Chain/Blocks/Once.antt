-- ===== src/Chain/Blocks/Once.antt =====
-- The work that the monitors of a block start: the update of a delegate's balance proof is started
-- once, however often it is scheduled.
use mathlib.Core.List.{append-nil}
use photon_monitoring.Base.{
  ℕ, ◌≡◌, refl, sym, ap, subst, ◌∙◌, inl, inr, Bool, true, false, Option, none, some, List, [], ◌∷◌,
  ◌++◌, All, find?, find?-sound, adjust, arith, ==_iff, Bool-cases, Option-cases,
}
use photon_monitoring.Base.Keyed.{find?-adjust}
use photon_monitoring.Orm.{IsDocumented}
use photon_monitoring.Platform.{Platform}
use photon_monitoring.World.{World, Job, unlocks_job, update_and_unlocks_job, punishes_job}
use photon_monitoring.World.Total.{IsHealthy, Returns}
use photon_monitoring.Models.Rows.{
  Delegate, DelegateMonitor, MonitorType, running, unlock_and_update_balance_proof, punish_monitor,
}
use photon_monitoring.Models.Delegate.{has_key, set_status}
use photon_monitoring.Models.Delegate.Saving.{
  update_delegate_status-saved, get_delegate_by_key-found,
}
use photon_monitoring.Models.Service.{is_init}
use photon_monitoring.Chain.Blocks.{
  is_by_other, start_unlock, start_monitor, monitor_round, do_monitors,
}

-- The keys of the delegates whose balance proof is being updated, or waits for it.
unfoldable pub updating : List Job → List ℕ
updating [] = []
updating (update_and_unlocks_job d ∷ js) = d.key ∷ updating js
updating (unlocks_job d ∷ js) = updating js
updating (punishes_job d ∷ js) = updating js

-- Whether an update may be started for what a query has found.
pub is_startable : Option Delegate → Bool
is_startable none = false
is_startable (some d) = is_init d.status

-- No number stands twice.
abbrev pub Differ : List ℕ → Type 0
Differ [] = Unit
Differ (k ∷ ks) = All (λ x. ¬ (x ≡ k)) ks × Differ ks

All-snoc : (P : ℕ → Type 0) (ks : List ℕ) (k : ℕ) → All P ks → P k → All P (ks ++ k ∷ [])
All-snoc P [] k h x = (x, tt)
All-snoc P (j ∷ ks) k h x = (h.0, All-snoc P ks k h.1 x)

Differ-snoc : (ks : List ℕ) (k : ℕ) → Differ ks → All (λ x. ¬ (x ≡ k)) ks → Differ (ks ++ k ∷ [])
Differ-snoc [] k d h = (tt, tt)
Differ-snoc (j ∷ ks) k d h =
    (All-snoc (λ x. ¬ (x ≡ j)) ks k d.0 (λ e. h.0 (sym e)), Differ-snoc ks k d.1 h.1)

updating-++ : (js ks : List Job) → updating (js ++ ks) ≡ updating js ++ updating ks
unfolding updating
updating-++ [] ks = refl
updating-++ (update_and_unlocks_job d ∷ js) ks = ap (λ z. d.key ∷ z) (updating-++ js ks)
updating-++ (unlocks_job d ∷ js) ks = updating-++ js ks
updating-++ (punishes_job d ∷ js) ks = updating-++ js ks

module _ ⦃p : Platform⦄ where
  -- The delegate of the key is not to be started.
  abbrev pub IsStarted : List Delegate → ℕ → Type 0
  IsStarted rs k = is_startable (find? (has_key k) rs) ≡ false

  -- Each update in the list of goroutines is of another delegate, and its delegate is not to be
  -- started again.
  pub record Once (w : World) : Type 0 where
    pub healthy : IsHealthy w
    pub started : All (IsStarted (p.gorm.rows w.db.delegates)) (updating w.jobs)
    pub differ : Differ (updating w.jobs)

  abbrev run_delegate : ℕ → List Delegate → List Delegate
  run_delegate k rs = adjust (has_key k) (set_status running) rs

  IsStarted-run_delegate :
      (k j : ℕ) (rs : List Delegate) → IsStarted rs j → IsStarted (run_delegate k rs) j
  unfolding is_startable is_init
  IsStarted-run_delegate k j rs h = ground (
    arith,
    find?-adjust (λ (d : Delegate). d.key) j k (set_status running) rs (λ d. refl),
    Option-cases (find? (has_key j) rs),
    h,
  )

  IsStarted-run_self : (k : ℕ) (rs : List Delegate) → IsStarted (run_delegate k rs) k
  unfolding is_startable is_init
  IsStarted-run_self k rs = ground (
    arith,
    find?-adjust (λ (d : Delegate). d.key) k k (set_status running) rs (λ d. refl),
    Option-cases (find? (has_key k) rs),
  )

  All-IsStarted :
      (k : ℕ) (rs : List Delegate) (ks : List ℕ)
      → All (IsStarted rs) ks
      → All (IsStarted (run_delegate k rs)) ks
  All-IsStarted k rs [] h = tt
  All-IsStarted k rs (j ∷ ks) h = (IsStarted-run_delegate k j rs h.0, All-IsStarted k rs ks h.1)

  -- A delegate that is to be started is not among those that were.
  apart :
      (k : ℕ) (rs : List Delegate) (ks : List ℕ)
      → is_startable (find? (has_key k) rs) ≡ true
      → All (IsStarted rs) ks
      → All (λ x. ¬ (x ≡ k)) ks
  apart k rs [] e h = tt
  apart k rs (j ∷ ks) e h =
      (λ same. ground (arith, e, subst (IsStarted rs) same h.0), apart k rs ks e h.1)

  Once-spawn_other :
      (w : World) (j : Job)
      → updating (j ∷ []) ≡ []
      → Once w
      → Once (record w { jobs = w.jobs ++ j ∷ [] })
  Once-spawn_other w j other o =
      let same : updating (w.jobs ++ j ∷ []) ≡ updating w.jobs =
        updating-++ w.jobs (j ∷ [])
        ∙ ap (λ z. updating w.jobs ++ z) other
        ∙ append-nil (updating w.jobs) in
      record {
        healthy = record {
          delegates_up = o.healthy.delegates_up;
          punishes_up = o.healthy.punishes_up;
          disposes_up = o.healthy.disposes_up;
          accounts_up = o.healthy.accounts_up;
          monitors_up = o.healthy.monitors_up;
          records_up = o.healthy.records_up;
          block_seen = o.healthy.block_seen;
        };
        started = subst (All (IsStarted (p.gorm.rows w.db.delegates))) (sym same) o.started;
        differ = subst Differ (sym same) o.differ;
      }

module _ ⦃p : Platform⦄ (g : IsDocumented p.gorm) where
  -- The state after the update of a delegate was started.
  abbrev after_start : Delegate → World → World
  after_start d w = record w {
    db = record w.db {
      delegates = (p.gorm.update (has_key d.key) (set_status running) w.db.delegates).1;
    };
    jobs = w.jobs ++ update_and_unlocks_job (set_status running d) ∷ [];
  }

  Once-after_start :
      (d : Delegate) (w : World)
      → find? (has_key d.key) (p.gorm.rows w.db.delegates) ≡ some d
      → is_init d.status ≡ true
      → Once w
      → Once (after_start d w)
  unfolding updating is_startable
  Once-after_start d w at startable o =
      let rs = p.gorm.rows w.db.delegates in
      let (_, rows', up') =
        g.update_up (has_key d.key) (set_status running) w.db.delegates o.healthy.delegates_up in
      let more : updating (after_start d w).jobs ≡ updating w.jobs ++ d.key ∷ [] =
        updating-++ w.jobs (update_and_unlocks_job (set_status running d) ∷ []) in
      let others = apart d.key rs (updating w.jobs) (rw at startable) o.started in
      record {
        healthy = record {
          delegates_up = up';
          punishes_up = o.healthy.punishes_up;
          disposes_up = o.healthy.disposes_up;
          accounts_up = o.healthy.accounts_up;
          monitors_up = o.healthy.monitors_up;
          records_up = o.healthy.records_up;
          block_seen = o.healthy.block_seen;
        };
        started =
            rw (more, rows')
              (All-snoc (IsStarted (run_delegate d.key rs)) (updating w.jobs) d.key
                (All-IsStarted d.key rs (updating w.jobs) o.started) (IsStarted-run_self d.key rs));
        differ = rw more (Differ-snoc (updating w.jobs) d.key o.differ others);
      }

  start_unlock-Once :
      (d : Delegate) (w : World)
      → find? (has_key d.key) (p.gorm.rows w.db.delegates) ≡ some d
      → Once w
      → Returns (start_unlock d) w (λ _ v. Once v)
  unfolding start_unlock updating
  start_unlock-Once d w at o = elim (Bool-cases (is_by_other d.status)) [
    | inl t ↦ (tt, _, rw t refl, Once-spawn_other w (unlocks_job d) refl o)
    | inr t ↦ elim (Bool-cases (is_init d.status)) [
      | inl i ↦
          let saved = update_delegate_status-saved g w o.healthy d running in
          (tt, after_start d w, rw (t, i, saved) refl, Once-after_start d w at i o)
      | inr i ↦ (tt, w, rw (t, i) refl, o)
    ]
  ]

  start_monitor-Once :
      (t : MonitorType) (d : Delegate) (w : World)
      → find? (has_key d.key) (p.gorm.rows w.db.delegates) ≡ some d
      → Once w
      → Returns (start_monitor t d) w (λ _ v. Once v)
  unfolding start_monitor updating
  start_monitor-Once unlock_and_update_balance_proof d w at o = start_unlock-Once d w at o
  start_monitor-Once punish_monitor d w at o =
      (tt, _, refl, Once-spawn_other w (punishes_job d) refl o)

  -- On a healthy database, if the goroutines that wait update the balance proofs of different
  -- delegates, none of which is to be started, the loop over the monitors of a block returns without
  -- an error, and that is so again, whatever the monitors are: no update of a balance proof is
  -- started twice.
  pub do_monitors-Once :
      (ms : List DelegateMonitor) (w : World)
      → Once w
      → Returns (do_monitors ms) w (λ done v. (done ≡ true) × Once v)
  unfolding do_monitors monitor_round
  do_monitors-Once [] w o = (true, w, refl, (refl, o))
  do_monitors-Once (m ∷ ms) w o =
      let rs = p.gorm.rows w.db.delegates in
      let asked = get_delegate_by_key-found g w o.healthy m.delegate_key in
      elim (Option-cases (find? (has_key m.delegate_key) rs)) [
        | inl e ↦ let (x, v, run, q) = do_monitors-Once ms w o in (x, v, rw (asked, e) run, q)
        | inr (d, e) ↦
            let key : d.key ≡ m.delegate_key =
              (==_iff _ _).0 (find?-sound (has_key m.delegate_key) rs e) in
            let at : find? (has_key d.key) rs ≡ some d =
              subst (λ k. find? (has_key k) rs ≡ some d) (sym key) e in
            let (_, u, run, o') = start_monitor-Once m.type d w at o in
            let (x, v, run', q) = do_monitors-Once ms u o' in (x, v, rw (asked, e, run) run', q)
      ]
