-- ===== src/Chain/Execute/Answer.antt =====
-- What the chain answers to a transaction, read off the state outside alone, and that the record of
-- a contract call tells it: its status is a success exactly if the chain has answered so.
use photon_monitoring.Base.{
  ℕ, ℤ, ◌≡◌, refl, subst, ◌∙◌, Bool, true, false, Option, none, some, List, Text, arith, Bool-cases,
  inl, inr, if◌then◌else◌,
}
use photon_monitoring.Orm.{IsDocumented}
use photon_monitoring.Platform.{Platform, Tx, register_secret, Reply, reply, reply_err}
use photon_monitoring.World.{M, World, ret, ◌>>=◌, pure}
use photon_monitoring.World.Total.{IsHealthy, Returns}
use photon_monitoring.World.Health.{IsSafe-outer}
use photon_monitoring.Models.Rows.{
  Delegate, DelegateExecuteRecord, DelegateSecret, DelegateUnlock, DelegateAnnounceDispose,
  DelegatePunish, DelegateUpdateBalanceProof, DelegateType, GobParams, error_executed,
  success_executed, give_up_by_dispose, tx_execution_err,
}
use photon_monitoring.Models.Record.{is_success, new_delegate_execute_record}
use photon_monitoring.Models.Record.Total.{drawn, new_record-drawn, save_record-saves}
use photon_monitoring.Chain.Execute.{
  unless_network_err, load_block_number, receipt, sent_tx, execute_tx, saving, on_token_network,
  do_register_secret, do_update_balance_proof, do_unlock, do_punish, update_tx, unlock_tx,
  punish_tx, is_given_up,
}

module _ ⦃p : Platform⦄ where
  -- Whether it was a success, and the state outside then.
  abbrev pub Answer : Type 0
  Answer = Bool × p.Outside

  -- The receipt, when there is one, tells the success; the clock is read after it.
  unfoldable pub mined : Reply Bool → p.Outside → Answer
  mined (reply_err e) o = (false, o)
  mined (reply successful) o = (successful, (p.now o).1)

  unfoldable pub accepted : Reply ℕ → p.Outside → Answer
  accepted (reply_err e) o = (false, o)
  accepted (reply hash) o = let (r, o') = p.wait_mined hash (p.now o).1 in mined r o'

  -- The transaction is sent, and its receipt waited for.
  unfoldable pub answer : Tx → p.Outside → Answer
  answer tx o = let (r, o') = p.send tx o in accepted r o'

  unfoldable pub on_network : Option Text → Tx → p.Outside → Answer
  on_network (some t) tx o = (false, o)
  on_network none tx o = answer tx o

  abbrev pub asked : Delegate → Tx → p.Outside → Answer
  asked d tx o =
      let (e, o') = p.token_network (p.text_address d.token_address_str) o in on_network e tx o'

  -- A call of the token network of a delegate, with the draws for its record before it.
  abbrev pub called : Delegate → Tx → p.Outside → Answer
  called d tx o = asked d tx (drawn o)

  abbrev pub registering : DelegateSecret → p.Outside → Answer
  registering s o = answer (register_secret (p.text_hash s.secret)) (drawn o)

  -- A lock that its delegator has given up counts as a success, and nothing is sent.
  unfoldable pub unlocking :
      Delegate → ℤ → List DelegateAnnounceDispose → DelegateUnlock → p.Outside → Answer
  unlocking d amount das du o =
      if is_given_up du das then (true, drawn o) else called d (unlock_tx d du amount) o

  abbrev Answered : M DelegateExecuteRecord → World → Answer → Type 0
  Answered m w a =
      Returns m w (λ r v. (is_success r.status ≡ a.0) × (v.outside ≡ a.1) × IsHealthy v)

  abbrev in_outside : p.Outside → World → World
  in_outside o w = record w { outside = o }

  outside-IsHealthy : (o : p.Outside) (w : World) → IsHealthy w → IsHealthy (in_outside o w)
  outside-IsHealthy o w h = (IsSafe-outer (λ x. (tt, o))).at w h

  load_block_number-seen :
      (r : DelegateExecuteRecord) (w : World)
      → IsHealthy w
      → (b : ℤ) × (load_block_number r w ≡ (ret b, w))
  unfolding load_block_number
  load_block_number-seen r w h = let (b, e) = h.block_seen in (b, ground (arith, e))

  receipt-Answered :
      (r : DelegateExecuteRecord) (x : Reply Bool) (w : World)
      → IsHealthy w
      → is_success r.status ≡ false
      → Answered (receipt r x) w (mined x w.outside)
  unfolding receipt mined is_success
  receipt-Answered r (reply_err e) w h not_yet = (_, w, refl, (not_yet, refl, h))
  receipt-Answered r (reply true) w h not_yet =
      let (b, e) = load_block_number-seen r w h in
      let (time, o) = p.now w.outside in
      (
        record r { tx_pack_block_number = b; tx_pack_timestamp = time; status = success_executed },
        in_outside o w,
        rw e refl,
        (refl, refl, outside-IsHealthy o w h),
      )
  receipt-Answered r (reply false) w h not_yet =
      let (b, e) = load_block_number-seen r w h in
      let (time, o) = p.now w.outside in
      (
        record r { tx_pack_block_number = b; tx_pack_timestamp = time; error = tx_execution_err },
        in_outside o w,
        rw e refl,
        (not_yet, refl, outside-IsHealthy o w h),
      )

  sent_tx-Answered :
      (r : DelegateExecuteRecord) (x : Reply ℕ) (w : World)
      → IsHealthy w
      → is_success r.status ≡ false
      → Answered (sent_tx r x) w (accepted x w.outside)
  unfolding sent_tx accepted is_success
  sent_tx-Answered r (reply_err e) w h not_yet = (_, w, refl, (not_yet, refl, h))
  sent_tx-Answered r (reply hash) w h not_yet =
      let made = record r { status = error_executed; tx_hash_str = p.hash_text hash } in
      let (b, e) = load_block_number-seen made w h in
      let (time, o) = p.now w.outside in
      let (x, o') = p.wait_mined hash o in
      let (r', v, run, q) =
        receipt-Answered (record made { tx_create_block_number = b; tx_create_timestamp = time }) x
          (in_outside o' w) (outside-IsHealthy o' w h) refl in
      (r', v, rw e run, q)

  execute_tx-Answered :
      (tx : Tx) (r : DelegateExecuteRecord) (w : World)
      → IsHealthy w
      → is_success r.status ≡ false
      → Answered (execute_tx tx r) w (answer tx w.outside)
  unfolding execute_tx answer
  execute_tx-Answered tx r w h not_yet =
      let (x, o) = p.send tx w.outside in
      sent_tx-Answered r x (in_outside o w) (outside-IsHealthy o w h) not_yet

  unless_network_err-Answered :
      (tx : Tx) (r : DelegateExecuteRecord) (e : Option Text) (w : World)
      → IsHealthy w
      → is_success r.status ≡ false
      → Answered (unless_network_err tx r e) w (on_network e tx w.outside)
  unfolding unless_network_err on_network
  unless_network_err-Answered tx r none w h not_yet = execute_tx-Answered tx r w h not_yet
  unless_network_err-Answered tx r (some t) w h not_yet = (_, w, refl, (not_yet, refl, h))

module _ ⦃p : Platform⦄ (g : IsDocumented p.gorm) where
  saving-Answered :
      (m : M DelegateExecuteRecord) (w : World) (a : Answer)
      → Answered m w a
      → Answered (saving m) w a
  unfolding saving
  saving-Answered m w a (r, v, run, (status, at, h)) =
      let (_, z, run', (same, hz)) = save_record-saves g r v h in
      (r, z, rw (run, run') refl, (status, same ∙ at, hz))

  -- A record is made, and what follows with it is saved.
  made-Answered :
      (d : Delegate) (t : DelegateType) (x : GobParams)
      (k : DelegateExecuteRecord → M DelegateExecuteRecord) (f : p.Outside → Answer) (w : World)
      → IsHealthy w
      → ((r : DelegateExecuteRecord) (v : World)
          → IsHealthy v
          → is_success r.status ≡ false
          → Answered (k r) v (f v.outside))
      → Answered (new_delegate_execute_record d t x >>= λ r. saving (k r)) w (f (drawn w.outside))
  made-Answered d t x k f w h next =
      let (r, v, run, (not_yet, at, hv)) = new_record-drawn g d t x w h in
      let (r', z, run', q) = saving-Answered (k r) v (f v.outside) (next r v hv not_yet) in
      (
        r',
        z,
        rw run run',
        subst (λ o. (is_success r'.status ≡ (f o).0) × (z.outside ≡ (f o).1) × IsHealthy z) at q,
      )

  on_token_network-Answered :
      (d : Delegate) (tx : Tx) (r : DelegateExecuteRecord) (w : World)
      → IsHealthy w
      → is_success r.status ≡ false
      → Answered (on_token_network d tx r) w (asked d tx w.outside)
  unfolding on_token_network
  on_token_network-Answered d tx r w h not_yet =
      let (e, o) = p.token_network (p.text_address d.token_address_str) w.outside in
      unless_network_err-Answered tx r e (in_outside o w) (outside-IsHealthy o w h) not_yet

  pub do_update_balance_proof-Answered :
      (d : Delegate) (du : DelegateUpdateBalanceProof) (w : World)
      → IsHealthy w
      → Answered (do_update_balance_proof d du) w (called d (update_tx d du) w.outside)
  unfolding do_update_balance_proof
  do_update_balance_proof-Answered d du w h =
      made-Answered d _ _ (on_token_network d (update_tx d du)) (asked d (update_tx d du)) w h
        (on_token_network-Answered d (update_tx d du))

  pub do_punish-Answered :
      (d : Delegate) (dp : DelegatePunish) (w : World)
      → IsHealthy w
      → Answered (do_punish d dp) w (called d (punish_tx d dp) w.outside)
  unfolding do_punish
  do_punish-Answered d dp w h =
      made-Answered d _ _ (on_token_network d (punish_tx d dp)) (asked d (punish_tx d dp)) w h
        (on_token_network-Answered d (punish_tx d dp))

  pub do_register_secret-Answered :
      (d : Delegate) (s : DelegateSecret) (w : World)
      → IsHealthy w
      → Answered (do_register_secret d s) w (registering s w.outside)
  unfolding do_register_secret
  do_register_secret-Answered d s w h =
      let tx = register_secret (p.text_hash s.secret) in
      made-Answered d _ _ (λ r. execute_tx tx (record r { secret = s.secret })) (answer tx) w h
        (λ r. execute_tx-Answered tx (record r { secret = s.secret }))

  pub do_unlock-Answered :
      (d : Delegate) (du : DelegateUnlock) (x : ℤ) (das : List DelegateAnnounceDispose) (w : World)
      → IsHealthy w
      → Answered (do_unlock d du x das) w (unlocking d x das du w.outside)
  unfolding do_unlock unlocking is_success
  do_unlock-Answered d du x das w h = elim (Bool-cases (is_given_up du das)) [
    | inl given ↦ rw given (
        made-Answered d _ _
          (λ r. pure (record r { status = success_executed; error = give_up_by_dispose }))
          (λ o. (true, o)) w h (λ r v hv not_yet. (_, v, refl, (refl, refl, hv))))
    | inr kept ↦ rw kept (
        made-Answered d _ _ (on_token_network d (unlock_tx d du x)) (asked d (unlock_tx d du x)) w h
          (on_token_network-Answered d (unlock_tx d du x)))
  ]
