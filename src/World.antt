-- ===== src/World.antt =====
-- The state of the service and the actions on it. An action returns or panics; either way the
-- state that it reached stays. `jobs` are the goroutines that were started and have not run.
pub mod Frame
pub mod Total
pub mod Health
pub mod Preserve
use photon_monitoring.Base.{if◌then◌else◌, ℤ, Bool, Option, List, ◌++◌, [], ◌∷◌, Text, ⊤}
use photon_monitoring.Orm.{Fetch}
use photon_monitoring.Platform.{Platform}
use photon_monitoring.Models.Rows.{
  Delegate, DelegatePunish, DelegateAnnounceDispose, AccountSerialization, DelegateMonitor,
  ReceivedTransfer, LastBlockNumber, DelegateExecuteRecord,
}

-- A goroutine of handleBlockNumber, with the delegate that it has in memory.
pub data Job : Type 0 where
  unlocks_job : Delegate → Job
  update_and_unlocks_job : Delegate → Job
  punishes_job : Delegate → Job

pub data Outcome {ℓ} (A : Type ℓ) : Type ℓ where
  ret : A → Outcome A
  panicked : Outcome A

module _ ⦃p : Platform⦄ where
  open p use {gorm}

  -- ModelDB: the tables that OpenDb migrates.
  pub record Db : Type 0 where
    pub delegates : gorm.Table Delegate
    pub punishes : gorm.Table DelegatePunish
    pub announce_disposes : gorm.Table DelegateAnnounceDispose
    pub accounts : gorm.Table AccountSerialization
    pub monitors : gorm.Table DelegateMonitor
    pub transfers : gorm.Table ReceivedTransfer
    pub last_block_numbers : gorm.Table LastBlockNumber
    pub records : gorm.Table DelegateExecuteRecord

  -- ChainEvents: its blockNumber is nil until the first block.
  pub record World : Type 0 where
    pub db : Db
    pub outside : p.Outside
    pub block_number : Option ℤ
    pub jobs : List Job

  abbrev pub M : Type 0 → Type 0
  M A = World → Outcome A × World

  -- What follows an action: a panic ends it.
  abbrev pub resume : {A B : Type 0} → Outcome A → (A → M B) → M B
  resume (ret a) f w = f a w
  resume panicked f w = (panicked, w)

  infixl 5 ◌>>=◌ ◌>>◌
  abbrev pub ◌>>=◌ : {A B : Type 0} → M A → (A → M B) → M B
  ◌>>=◌ m f w = let (r, w') = m w in resume r f w'

  abbrev pub ◌>>◌ : {A B : Type 0} → M A → M B → M B
  m >> k = m >>= λ _. k

  abbrev pub pure : {A : Type 0} → A → M A
  pure a w = (ret a, w)

  abbrev pub panic : {A : Type 0} → M A
  panic w = (panicked, w)

  abbrev pub gets : {A : Type 0} → (World → A) → M A
  gets f w = (ret (f w), w)

  abbrev pub skip : M ⊤
  skip w = (ret tt, w)

  abbrev pub outer : {A : Type 0} → (p.Outside → A × p.Outside) → M A
  outer f w = let (a, o) = f w.outside in (ret a, record w { outside = o })

  -- `go f(d)`
  abbrev pub spawn : Job → M ⊤
  spawn j w = (ret tt, record w { jobs = w.jobs ++ j ∷ [] })

  -- A table of the database, to read and to replace.
  pub record Column (R : Type 0) : Type 0 where
    pub get : Db → gorm.Table R
    pub put : gorm.Table R → Db → Db

  abbrev pub first : {R : Type 0} → Column R → (R → Bool) → M (Fetch R)
  first c q w = (ret (gorm.first q (c.get w.db)), w)

  abbrev pub find : {R : Type 0} → Column R → (R → Bool) → M (Fetch (List R))
  find c q w = (ret (gorm.find q (c.get w.db)), w)

  abbrev pub write :
      {R : Type 0} → Column R → (gorm.Table R → Option Text × gorm.Table R) → M (Option Text)
  write c f w = let (e, t) = f (c.get w.db) in (ret e, record w { db = c.put t w.db })

  abbrev pub delegates : Column Delegate
  delegates = record { get = λ d. d.delegates; put = λ t d. record d { delegates = t } }

  abbrev pub punishes : Column DelegatePunish
  punishes = record { get = λ d. d.punishes; put = λ t d. record d { punishes = t } }

  abbrev pub announce_disposes : Column DelegateAnnounceDispose
  announce_disposes = record {
    get = λ d. d.announce_disposes;
    put = λ t d. record d { announce_disposes = t };
  }

  abbrev pub accounts : Column AccountSerialization
  accounts = record { get = λ d. d.accounts; put = λ t d. record d { accounts = t } }

  abbrev pub monitors : Column DelegateMonitor
  monitors = record { get = λ d. d.monitors; put = λ t d. record d { monitors = t } }

  abbrev pub transfers : Column ReceivedTransfer
  transfers = record { get = λ d. d.transfers; put = λ t d. record d { transfers = t } }

  abbrev pub last_block_numbers : Column LastBlockNumber
  last_block_numbers = record {
    get = λ d. d.last_block_numbers;
    put = λ t d. record d { last_block_numbers = t };
  }

  abbrev pub records : Column DelegateExecuteRecord
  records = record { get = λ d. d.records; put = λ t d. record d { records = t } }

  -- db.Begin and the deferred Commit or Rollback: `failed` tells a returned error. A panic leaves
  -- the error of the deferred function nil, so that it commits.
  abbrev pub commit_db : Db → Db → Db
  commit_db before after = record {
    delegates = gorm.commit before.delegates after.delegates;
    punishes = gorm.commit before.punishes after.punishes;
    announce_disposes = gorm.commit before.announce_disposes after.announce_disposes;
    accounts = gorm.commit before.accounts after.accounts;
    monitors = gorm.commit before.monitors after.monitors;
    transfers = gorm.commit before.transfers after.transfers;
    last_block_numbers = gorm.commit before.last_block_numbers after.last_block_numbers;
    records = gorm.commit before.records after.records;
  }

  abbrev pub rollback_db : Db → Db → Db
  rollback_db before after = record {
    delegates = gorm.rollback before.delegates after.delegates;
    punishes = gorm.rollback before.punishes after.punishes;
    announce_disposes = gorm.rollback before.announce_disposes after.announce_disposes;
    accounts = gorm.rollback before.accounts after.accounts;
    monitors = gorm.rollback before.monitors after.monitors;
    transfers = gorm.rollback before.transfers after.transfers;
    last_block_numbers = gorm.rollback before.last_block_numbers after.last_block_numbers;
    records = gorm.rollback before.records after.records;
  }

  abbrev pub end_tx : {A : Type 0} → (A → Bool) → Outcome A → World → M A
  end_tx failed (ret a) before w =
      let committed = record w { db = commit_db before.db w.db } in
      let undone = record w { db = rollback_db before.db w.db } in
      (ret a, if failed a then undone else committed)
  end_tx failed panicked before w = (panicked, record w { db = commit_db before.db w.db })

  abbrev pub in_tx : {A : Type 0} → (A → Bool) → M A → M A
  in_tx failed m w = let (r, w') = m w in end_tx failed r w w'
