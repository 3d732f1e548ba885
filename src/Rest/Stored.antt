-- ===== src/Rest/Stored.antt =====
-- What a response to a posted delegate says of the database.
use photon_monitoring.Base.{
  ℕ, pos, ◌≡◌, ◌⊎◌, refl, sym, subst, ap, ◌∙◌, Option, none, some, Text, leb_ℤ, ◌==◌, Bool-cases,
  inl, inr, if◌then◌else◌,
}
use photon_monitoring.Orm.{IsDocumented}
use photon_monitoring.Platform.{Platform, Reply, reply, reply_err}
use photon_monitoring.World.{World, Outcome, ret, panicked, resume}
use photon_monitoring.World.Total.{IsHealthy}
use photon_monitoring.Models.Rows.{Message}
use photon_monitoring.Models.Dto.{ChannelFor3rd}
use photon_monitoring.Models.Account.{account_available}
use photon_monitoring.Models.Account.Rules.{account_of}
use photon_monitoring.Models.Receive.{receive_delegate, receive_steps}
use photon_monitoring.Models.Receive.Update.{SameRows, ends_in_error, receive_delegate-ends}
use photon_monitoring.Models.Account.Balance.{account_is_balance_enough_lem}
use photon_monitoring.Models.Account.Invariant.{AllSolvent}
use photon_monitoring.Models.Receive.Invariant.{receive_delegate-Preserves}
use photon_monitoring.Chain.Verifier.{verify_delegate}
use photon_monitoring.Chain.Verifier.Accepted.{verify_delegate-Accepted}
use photon_monitoring.Chain.Verifier.Frame.{chain_verifier, verify_delegate-Keeps}
use photon_monitoring.Rest.{
  delegate_error, delegate_success, delegate_success_but_not_enough_balance, DelegateResponse,
  enough_code, answer_received, answer_verified, verified, answer_decoded, delegate,
}

module _ ⦃p : Platform⦄ (g : IsDocumented p.gorm) (delegator : ℕ) (payload : Reply ChannelFor3rd)
    (w : World) (h : IsHealthy w) (s : AllSolvent w) (resp : DelegateResponse) (v : World) where
  -- The request was verified and taken in, and the status tells whether the balance is enough.
  pub record Taken : Type 0 where
    pub req : ChannelFor3rd
    pub req' : ChannelFor3rd
    pub between : World
    pub decoded : payload ≡ reply req
    pub verified' : verify_delegate req delegator w ≡ (ret (none, req'), between)
    pub received : receive_delegate req' delegator between ≡ (ret none, v)
    pub status :
        let a = account_of v delegator in
        resp.status ≡ (
          if leb_ℤ a.need_smt (account_available a)
          then delegate_success
          else delegate_success_but_not_enough_balance)

  abbrev pub Answered : Type 0
  Answered = ((resp.status ≡ delegate_error) × SameRows w v) ⊎ Taken

  same_db : (u : World) → u.db ≡ w.db → SameRows w u
  same_db u e = record {
    delegates = ap (λ d. p.gorm.rows d.delegates) e;
    punishes = ap (λ d. p.gorm.rows d.punishes) e;
    announce_disposes = ap (λ d. p.gorm.rows d.announce_disposes) e;
    accounts = ap (λ d. p.gorm.rows d.accounts) e;
    monitors = ap (λ d. p.gorm.rows d.monitors) e;
  }

  rolled_back : (u x : World) → u.db ≡ w.db → SameRows u x → SameRows w x
  rolled_back u x e r =
      let k = same_db u e in
      record {
        delegates = r.delegates ∙ k.delegates;
        punishes = r.punishes ∙ k.punishes;
        announce_disposes = r.announce_disposes ∙ k.announce_disposes;
        accounts = r.accounts ∙ k.accounts;
        monitors = r.monitors ∙ k.monitors;
      }

  module _ (req req' : ChannelFor3rd) (u : World) (decoded : payload ≡ reply req)
      (ok : verify_delegate req delegator w ≡ (ret (none, req'), u)) (same : u.db ≡ w.db)
      (up' : IsHealthy u) (su : AllSolvent u) where
    answered_received :
        (r : Outcome (Option Message)) (x : World)
        → receive_delegate req' delegator u ≡ (r, x)
        → resume r (answer_received delegator) x ≡ (ret resp, v)
        → Answered
    unfolding answer_received enough_code
    answered_received panicked x e a = absurd (cc)
    answered_received (ret (some m)) x e a =
        let steps = receive_steps req' delegator (pos 0) u in
        let (r', rows') = receive_delegate-ends g req' delegator u up' in
        let errs : steps.0 ≡ ret (some m) = sym r' ∙ ap (λ y. y.0) e in
        let back : SameRows u (receive_delegate req' delegator u).1 =
          subst
            (λ y.
              SameRows (if ends_in_error y then u else steps.1)
                (receive_delegate req' delegator u).1)
            errs rows' in
        let x=v : x ≡ v = cc in
        inl (cc, rolled_back u v same (subst (SameRows u) (ap (λ y. y.1) e ∙ x=v) back))
    answered_received (ret none) x e a =
        let sx : AllSolvent x =
          subst AllSolvent (ap (λ y. y.1) e)
            ((receive_delegate-Preserves g req' delegator).at u su) in
        let a' =
          rw (account_is_balance_enough_lem g delegator x sx.up (sx.solvent delegator)) at a in
        let x=v : x ≡ v = cc in
        inr (record {
          req = req;
          req' = req';
          between = u;
          decoded = decoded;
          verified' = ok;
          received = e ∙ ap (λ y. (ret none, y)) x=v;
          status =
              subst
                (λ y. resp.status ≡ (
                  if leb_ℤ (account_of y delegator).need_smt
                    (account_available (account_of y delegator))
                  then delegate_success
                  else delegate_success_but_not_enough_balance))
                x=v (cc);
        })

    taken_in :
        resume
            (receive_delegate req' delegator u).0
            (answer_received delegator)
            (receive_delegate req' delegator u).1
          ≡ (ret resp, v)
        → Answered
    taken_in a = let (r, x) = receive_delegate req' delegator u in answered_received r x refl a

  healthy_outside : (o : p.Outside) → IsHealthy (record w { outside = o })
  healthy_outside o = record {
    delegates_up = h.delegates_up;
    punishes_up = h.punishes_up;
    disposes_up = h.disposes_up;
    accounts_up = h.accounts_up;
    monitors_up = h.monitors_up;
    records_up = h.records_up;
    block_seen = h.block_seen;
  }

  answered_checked :
      (req : ChannelFor3rd) (r : Outcome (Option Message × ChannelFor3rd)) (u : World)
      → payload ≡ reply req
      → verify_delegate req delegator w ≡ (r, u)
      → resume r (answer_verified delegator) u ≡ (ret resp, v)
      → Answered
  unfolding answer_verified
  answered_checked req panicked u d e a = absurd (cc)
  answered_checked req (ret (some m, req')) u d e a =
      let same : u.db ≡ w.db =
        subst (λ y. y.1.db ≡ w.db) e
          ((verify_delegate-Keeps {f = λ x. x.db} (λ A f. record { at = λ x. refl }) req
              delegator).at
            w) in
      let u=v : u ≡ v = cc in inl (cc, subst (SameRows w) u=v (same_db u same))
  answered_checked req (ret (none, req')) u d e a =
      let accepted = (verify_delegate-Accepted req delegator w req' u).0 e in
      let o = u.outside in
      let at : u ≡ record w { outside = o } =
        accepted.outside_only
        ∙ ap (λ y. record w { outside = y.outside }) (sym accepted.outside_only) in
      taken_in req req' u d e (ap (λ y. y.db) at) (subst IsHealthy (sym at) (healthy_outside o))
        (subst AllSolvent (sym at) (record { up = s.up; solvent = s.solvent })) a

  by_payload :
      (r : Reply ChannelFor3rd)
      → payload ≡ r
      → answer_decoded (some chain_verifier) delegator r w ≡ (ret resp, v)
      → Answered
  unfolding answer_decoded verified
  by_payload (reply_err m) e a =
      let w=v : w ≡ v = cc in inl (cc, subst (SameRows w) w=v (same_db w refl))
  by_payload (reply req) e a =
      let (r, u) = verify_delegate req delegator w in answered_checked req r u e refl a

  response-Answered :
      (delegator_str : Text)
      → p.text_address delegator_str ≡ delegator
      → delegate (some chain_verifier) delegator_str payload w ≡ (ret resp, v)
      → Answered
  unfolding delegate
  response-Answered delegator_str at a = elim (Bool-cases (delegator == 0)) [
    | inl e ↦
        let a = rw (at, e) at a in
        let w=v : w ≡ v = cc in inl (cc, subst (SameRows w) w=v (same_db w refl))
    | inr e ↦ by_payload payload refl (rw (at, e) at a)
  ]

module _ ⦃p : Platform⦄ (g : IsDocumented p.gorm) (delegator_str : Text)
    (payload : Reply ChannelFor3rd) (w : World) (h : IsHealthy w) (s : AllSolvent w) where
  abbrev pub Responds : Outcome DelegateResponse → World → Type 0
  Responds r v =
      (r ≡ panicked)
      ⊎ ((resp : DelegateResponse) × (r ≡ ret resp)
          × Answered g (p.text_address delegator_str) payload w h s resp v)

  responds :
      (r : Outcome DelegateResponse) (v : World)
      → delegate (some chain_verifier) delegator_str payload w ≡ (r, v)
      → Responds r v
  responds panicked v e = inl refl
  responds (ret resp) v e = inr (
    resp,
    refl,
    response-Answered g (p.text_address delegator_str) payload w h s resp v delegator_str refl e,
  )

  -- A response of Delegate with VerifyDelegate as its verifier, on a healthy database whose
  -- accounts are solvent, says what was stored. Unless the handler panics, either its status is 1,
  -- and the tables that a request writes have the rows that they had; or the request was decoded,
  -- verified and received without an error, and the status is 3 or 2 as the available smt of the
  -- account then covers the needed smt or does not.
  pub delegate-Answered :
      let (r, v) = delegate (some chain_verifier) delegator_str payload w in Responds r v
  delegate-Answered =
      let (r, v) = delegate (some chain_verifier) delegator_str payload w in responds r v refl
