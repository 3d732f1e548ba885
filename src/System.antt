-- ===== src/System.antt =====
-- The whole service, as main.go puts it together: what may happen next, in any order. A request, a
-- query, a state change of the chain, a goroutine and a reply of Photon each run as a whole.
pub mod Solvent
use photon_monitoring.Base.{◌≡◌, Option, some, List, [], ◌∷◌, ◌++◌, Text, true}
use photon_monitoring.Platform.{Platform, Reply}
use photon_monitoring.World.{World, Job}
use photon_monitoring.Models.Rows.{ReceivedTransfer}
use photon_monitoring.Models.Dto.{ChannelFor3rd}
use photon_monitoring.Chain.Blocks.{StateChange, handle_state_change, run_job}
use photon_monitoring.Chain.Verifier.Frame.{chain_verifier}
use photon_monitoring.Rest.{delegate, tx, fee}
use photon_monitoring.Smt.{Query, get_new_transfer}
use photon_monitoring.Smt.Invariant.{NoneNegative}

module _ ⦃p : Platform⦄ where
  -- A goroutine that was started is taken from among the others.
  abbrev pub taking : List Job → World → World
  taking js w = record w { jobs = js }

  -- One thing that happens, whether it returns or panics. Photon reports no negative amount.
  pub data Step (w : World) : World → Type 0 where
    request :
        (delegator : Text) (payload : Reply ChannelFor3rd)
        → Step w (delegate (some chain_verifier) delegator payload w).1
    query : (delegator channel : Text) → Step w (tx delegator channel w).1
    fee_query : (delegator : Text) → Step w (fee delegator w).1
    state_change : (st : StateChange) → Step w (handle_state_change st w).1
    goroutine :
        (before after : List Job) (j : Job)
        → w.jobs ≡ before ++ j ∷ after
        → Step w (run_job j (taking (before ++ after) w)).1
    received :
        (s : Query) (es : List (Option ReceivedTransfer))
        → NoneNegative es
        → Step w (get_new_transfer (some es) s w).1

  -- A database that was created just now: it answers, and has no account.
  pub record Fresh (w : World) : Type 0 where
    pub up : p.gorm.up w.db.accounts ≡ true
    pub empty : p.gorm.rows w.db.accounts ≡ []

  -- What can come about from a fresh database.
  pub data Reach : World → Type 0 where
    start : (w : World) → Fresh w → Reach w
    later : {w v : World} → Reach w → Step w v → Reach v
