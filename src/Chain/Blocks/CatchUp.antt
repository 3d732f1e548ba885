-- ===== src/Chain/Blocks/CatchUp.antt =====
-- How a new block is handled after blocks that the event source has skipped.
use photon_monitoring.Base.{
  ℕ, zero, suc, ℤ, pos, ◌≡◌, refl, sym, subst, ap, ◌∙◌, inl, inr, Option-cases, Bool-cases,
  eqb_ℤ_iff, Bool, true, false, Option, none, some, List, [], ◌∷◌, ⊤, eqb_ℤ, ◌+ℤ◌, ◌-ℤ◌, pos_part,
  int_laws, if◌then◌else◌,
}
use photon_monitoring.Orm.{Fetch, found, not_found, failed}
use photon_monitoring.Platform.{Platform, Reply, reply, reply_err}
use photon_monitoring.World.{
  World, M, Outcome, ret, panicked, resume, ◌>>=◌, ◌>>◌, skip, spawn, Job,
}
use photon_monitoring.World.Frame.{Keeps, Keeps-bind, Keeps-then, keeps_rules}
use photon_monitoring.Models.Rows.{
  Delegate, DelegateMonitor, MonitorType, unlock_and_update_balance_proof, punish_monitor,
}
use photon_monitoring.Models.Delegate.Frame.{
  update_delegate_status-Keeps, get_delegate_by_key-Keeps,
}
use photon_monitoring.Models.Delegate.{get_delegate_by_key}
use photon_monitoring.Models.Monitor.{get_delegate_monitor_list}
use photon_monitoring.Models.Monitor.Schedule.{get_delegate_monitor_list-Keeps}
use photon_monitoring.Models.BlockNumber.{save_latest_block_number-Keeps}
use photon_monitoring.Chain.Secrets.{do_delegate_secrets}
use photon_monitoring.Chain.Secrets.Frame.{do_delegate_secrets-Keeps}
use photon_monitoring.Chain.Blocks.{
  start_unlock, start_monitor, monitor_round, do_monitors, finish_block, process_block, for_blocks,
  missed, or_zero_block, get_block_number, store_block_number, handle_block_number,
}

module _ ⦃p : Platform⦄ where
  abbrev seen : World → Option ℤ
  seen w = w.block_number

  spawn-Keeps : (j : Job) → Keeps seen (spawn j)
  spawn-Keeps j = record { at = λ w. refl }

  start_unlock-Keeps : (d : Delegate) → Keeps seen (start_unlock d)
  unfolding start_unlock
  start_unlock-Keeps d = search (
    keeps_rules,
    update_delegate_status-Keeps {f = seen} (λ h. record { at = λ w. refl }),
    spawn-Keeps,
  )

  start_monitor-Keeps : (t : MonitorType) (d : Delegate) → Keeps seen (start_monitor t d)
  unfolding start_monitor
  start_monitor-Keeps unlock_and_update_balance_proof d = start_unlock-Keeps d
  start_monitor-Keeps punish_monitor d = record { at = λ w. refl }

  monitor_round-Keeps :
      (t : MonitorType) (r : Fetch Delegate) (rest : M Bool)
      → Keeps seen rest
      → Keeps seen (monitor_round t r rest)
  unfolding monitor_round
  monitor_round-Keeps t not_found rest k = k
  monitor_round-Keeps t (failed e) rest k = search keeps_rules
  monitor_round-Keeps t (found d) rest k =
      Keeps-then (start_monitor t d) rest (start_monitor-Keeps t d) k

  do_monitors-Keeps : (ms : List DelegateMonitor) → Keeps seen (do_monitors ms)
  unfolding do_monitors
  do_monitors-Keeps [] = search keeps_rules
  do_monitors-Keeps (m ∷ ms) =
      Keeps-bind (get_delegate_by_key m.delegate_key) (λ r. monitor_round m.type r (do_monitors ms))
        (get_delegate_by_key-Keeps m.delegate_key)
        (λ r. monitor_round-Keeps m.type r (do_monitors ms) (do_monitors-Keeps ms))

  finish_block-Keeps : (n : ℤ) (r : Reply (List DelegateMonitor)) → Keeps seen (finish_block n r)
  unfolding finish_block
  finish_block-Keeps n (reply_err e) = search keeps_rules
  finish_block-Keeps n (reply ms) = search (
    keeps_rules,
    do_monitors-Keeps,
    save_latest_block_number-Keeps {f = seen} (λ h. record { at = λ w. refl }),
  )

  -- What handleBlockNumber does after its Store.
  after_store : ℤ → ℤ → M ⊤
  after_store last n = do
    do_delegate_secrets last
    ms ← get_delegate_monitor_list n
    finish_block n ms

  after_store-Keeps : (last n : ℤ) → Keeps seen (after_store last n)
  unfolding after_store
  after_store-Keeps last n = search (
    keeps_rules,
    do_delegate_secrets-Keeps {f = seen} (λ A h. record { at = λ w. refl })
        (λ h. record { at = λ w. refl }) (λ h. record { at = λ w. refl }),
    get_delegate_monitor_list-Keeps,
    finish_block-Keeps,
  )

  -- A block that was handled is the last one, even if its handling panicked.
  process_block-seen : (last n : ℤ) (w : World) → (process_block last n w).1.block_number ≡ some n
  unfolding process_block store_block_number after_store
  process_block-seen last n w = (after_store-Keeps last n).at (record w { block_number = some n })

  -- The blocks after `last`, one at a time, each with the one before it as the last one.
  pub in_order : ℕ → ℤ → M ⊤
  in_order zero last = skip
  in_order (suc count) last = do process_block last (last +ℤ pos 1); in_order count (last +ℤ pos 1)

  -- The two loops of a call, from the last block and from the number of blocks missed.
  abbrev run_from : ℕ → ℤ → World → ℕ → ℤ → Outcome ⊤ × World
  run_from depth n w count last =
      let before = for_blocks (handle_block_number depth) count (last +ℤ pos 1) w in
      resume before.0 (λ _. process_block last n) before.1

  run_from-handle :
      (depth : ℕ) (n : ℤ) (w : World)
      → let last = or_zero_block w.block_number in
        handle_block_number (suc depth) n w ≡ run_from depth n w (missed last n) last
  unfolding handle_block_number get_block_number
  run_from-handle depth n w = refl

  -- A block that is no more than one after the last one, or the first one of all.
  handle_next :
      (depth : ℕ) (last n : ℤ) (w : World)
      → w.block_number ≡ some last
      → missed last n ≡ 0
      → handle_block_number (suc depth) n w ≡ process_block last n w
  unfolding handle_block_number for_blocks get_block_number or_zero_block
  handle_next depth last n w at none_missed = rw (at, none_missed) refl

  missed_next : (last : ℤ) → missed last (last +ℤ pos 1) ≡ 0
  unfolding missed
  missed_next last = grind int_laws

  missed_zero : (n : ℤ) → missed (pos 0) n ≡ 0
  unfolding missed
  missed_zero n = refl

  missed_pos :
      (last n : ℤ) → eqb_ℤ last (pos 0) ≡ false → missed last n ≡ pos_part (n -ℤ pos 1 -ℤ last)
  unfolding missed
  missed_pos last n nonzero = grind int_laws

  handle_first :
      (depth : ℕ) (n : ℤ) (w : World)
      → w.block_number ≡ none
      → handle_block_number (suc depth) n w ≡ process_block (pos 0) n w
  unfolding handle_block_number for_blocks get_block_number or_zero_block missed
  handle_first depth n w at =
      run_from-handle depth n w
      ∙ ap (λ o. run_from depth n w (missed (or_zero_block o) n) (or_zero_block o)) at

  resume_same :
      (r : Outcome ⊤) (m m' : M ⊤) (v : World)
      → m v ≡ m' v
      → resume r (λ _. m) v ≡ resume r (λ _. m') v
  resume_same (ret tt) m m' v e = e
  resume_same panicked m m' v e = refl

  for_blocks-in_order :
      (depth count : ℕ) (last : ℤ) (w : World)
      → w.block_number ≡ some last
      → for_blocks (handle_block_number (suc depth)) count (last +ℤ pos 1) w ≡ in_order count last w
  unfolding for_blocks in_order
  for_blocks-in_order depth zero last w at = refl
  for_blocks-in_order depth (suc count) last w at =
      let step = handle_next depth last (last +ℤ pos 1) w at (missed_next last) in
      let rest = for_blocks (handle_block_number (suc depth)) count (last +ℤ pos 1 +ℤ pos 1) in
      ap (λ (x : Outcome ⊤ × World). resume x.0 (λ _. rest) x.1) step
      ∙ resume_same (process_block last (last +ℤ pos 1) w).0 rest (in_order count (last +ℤ pos 1))
          (process_block last (last +ℤ pos 1) w).1
          (for_blocks-in_order depth count (last +ℤ pos 1) _
            (process_block-seen last (last +ℤ pos 1) w))

  after_zero :
      (depth : ℕ) (last n : ℤ) (w : World)
      → w.block_number ≡ some last
      → eqb_ℤ last (pos 0) ≡ true
      → handle_block_number (suc depth) n w ≡ process_block (pos 0) n w
  after_zero depth last n w at zero_last =
      subst (λ x. handle_block_number (suc depth) n w ≡ process_block x n w)
        ((eqb_ℤ_iff last (pos 0)).0 zero_last)
        (handle_next depth last n w at (
          subst (λ x. missed x n ≡ 0) (sym ((eqb_ℤ_iff last (pos 0)).0 zero_last)) (missed_zero n)))

  after_last :
      (depth : ℕ) (last n : ℤ) (w : World)
      → w.block_number ≡ some last
      → eqb_ℤ last (pos 0) ≡ false
      → handle_block_number (suc (suc depth)) n w
        ≡ (in_order (pos_part (n -ℤ pos 1 -ℤ last)) last >> process_block last n) w
  unfolding or_zero_block
  after_last depth last n w at nonzero =
      run_from-handle (suc depth) n w
      ∙ ap (λ o. run_from (suc depth) n w (missed (or_zero_block o) n) (or_zero_block o)) at
      ∙ ap (λ count. run_from (suc depth) n w count last) (missed_pos last n nonzero)
      ∙ ap (λ (x : Outcome ⊤ × World). resume x.0 (λ _. process_block last n) x.1)
          (for_blocks-in_order depth (pos_part (n -ℤ pos 1 -ℤ last)) last w at)

  -- What a new block stands for, after the last one that was seen: with none, or block 0, the new
  -- block alone; otherwise the blocks between, in their order, and then the new one.
  pub expected : Option ℤ → ℤ → M ⊤
  expected none n = process_block (pos 0) n
  expected (some last) n =
      if eqb_ℤ last (pos 0)
      then process_block (pos 0) n
      else (do in_order (pos_part (n -ℤ pos 1 -ℤ last)) last; process_block last n)

  -- A new block has the skipped ones handled before it, each once and in their order, each with the
  -- one before it as the last one, whatever the handling does; the new block is handled with the
  -- last block that was seen before them all. With no last block, or block 0, the new block alone
  -- is handled. A depth of 2 of the calls of handleBlockNumber is enough: more changes nothing.
  pub handle_block_number-in_order :
      (depth : ℕ) (n : ℤ) (w : World)
      → handle_block_number (suc (suc depth)) n w ≡ expected w.block_number n w
  unfolding expected
  handle_block_number-in_order depth n w =
      let expects = λ (o : Option ℤ). handle_block_number (suc (suc depth)) n w ≡ expected o n w in
      elim (Option-cases w.block_number) [
        | inl at ↦ subst (λ o. expects o) (sym at) (handle_first (suc depth) n w at)
        | inr (last, at) ↦ elim (Bool-cases (eqb_ℤ last (pos 0))) [
          | inl z ↦ subst (λ o. expects o) (sym at) (rw z (after_zero (suc depth) last n w at z))
          | inr z ↦ subst (λ o. expects o) (sym at) (rw z (after_last depth last n w at z))
        ]
      ]
