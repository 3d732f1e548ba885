-- ===== src/System/Solvent.antt =====
-- Whatever happens to the service, no account owes what it has not received.
use photon_monitoring.Base.{ℕ, ◌≡◌, sym, subst, [], ◌++◌, int_laws, true, find?}
use photon_monitoring.Orm.{IsDocumented}
use photon_monitoring.Platform.{Platform}
use photon_monitoring.World.{World}
use photon_monitoring.Models.Account.{to_account, is_sane}
use photon_monitoring.Models.Account.Solvency.{IsSolvent, IsSolvent-sane}
use photon_monitoring.Models.Account.Rules.{account_of, read}
use photon_monitoring.Models.Account.Invariant.{AllSolvent}
use photon_monitoring.Chain.Blocks.Invariant.{
  FeesNonneg, handle_state_change-Preserves, run_job-Preserves,
}
use photon_monitoring.Chain.Verifier.Frame.{chain_verifier, chain_verifier-Harmless}
use photon_monitoring.Rest.Invariant.{delegate-Preserves, tx-Preserves, fee-Preserves}
use photon_monitoring.Smt.Invariant.{get_new_transfer-Preserves}
use photon_monitoring.System.{
  Step, request, query, fee_query, state_change, goroutine, received, Fresh, Reach, start, later,
  taking,
}

blank-IsSolvent : (addr : ℕ) → IsSolvent (read addr [])
unfolding to_account find?
blank-IsSolvent addr = omega int_laws

module _ ⦃p : Platform⦄ where
  Fresh-AllSolvent : (w : World) → Fresh w → AllSolvent w
  Fresh-AllSolvent w f = record {
    up = f.up;
    solvent = λ addr. subst (λ rs. IsSolvent (read addr rs)) (sym f.empty) (blank-IsSolvent addr);
  }

module _ ⦃p : Platform⦄ (g : IsDocumented p.gorm) (fees : FeesNonneg) where
  Step-AllSolvent : {w v : World} → Step w v → AllSolvent w → AllSolvent v
  Step-AllSolvent {w} (request delegator payload) s =
      (delegate-Preserves g chain_verifier chain_verifier-Harmless delegator payload).at w s
  Step-AllSolvent {w} (query delegator channel) s = (tx-Preserves delegator channel).at w s
  Step-AllSolvent {w} (fee_query delegator) s = (fee-Preserves delegator).at w s
  Step-AllSolvent {w} (state_change st) s = (handle_state_change-Preserves g fees st).at w s
  Step-AllSolvent {w} (goroutine before after j e) s =
      (run_job-Preserves g fees j).at (taking (before ++ after) w)
        (record { up = s.up; solvent = s.solvent })
  Step-AllSolvent {w} (received q es h) s = (get_new_transfer-Preserves g q es h).at w s

  Reach-AllSolvent : {w : World} → Reach w → AllSolvent w
  Reach-AllSolvent (start w f) = Fresh-AllSolvent w f
  Reach-AllSolvent (later r st) = Step-AllSolvent st (Reach-AllSolvent r)

  -- While the accounts table answers (it does at the start and, as gorm documents, then after every
  -- call on it), with no negative fee and no negative transfer: in every state that the service
  -- reaches from a fresh database, by requests, queries, state changes of the chain, goroutines and
  -- replies of Photon, one after the other in any order, each run as a whole and ended by a return
  -- or by a panic, nothing is negative of any account, and what is used and what is locked have
  -- both been received. So the checks of accountSanity hold of every account.
  pub Reach-IsSolvent :
      (w : World)
      → Reach w
      → (addr : ℕ) → IsSolvent (account_of w addr) × (is_sane (account_of w addr) ≡ true)
  Reach-IsSolvent w r addr = let s = (Reach-AllSolvent r).solvent addr in (s, IsSolvent-sane s)
