-- ===== src/Lib.antt =====
-- A verification library for Photon-Monitoring, a service that acts for the users of payment
-- channels while they are offline. An app posts a delegate: the balance proof of a channel, locks,
-- secrets, punishes. When the channel is closed on the chain the service submits the proof, unlocks
-- the locks and punishes a partner that cheats, each for a fee in smt from the account of the
-- delegator.
--
-- The parts, and the files that model them:
--   Platform, Orm, Params   what the service calls and does not implement: gorm, the Ethereum client
--                           and contracts, clock, random source and hexadecimal texts, as one
--                           parameter; params/config.go as a record of settings
--   World                   the state: models.ModelDB (models/db.go) with a table for each row type,
--                           ChainEvents.blockNumber, the goroutines that were started and have not
--                           run; the actions on it, which return or panic; transactions
--   Utils                   utils/utils.go: big integers as texts
--   Models.Rows, Models.Dto the row types of models/delegate*.go, models/account.go,
--                           models/transfer.go, models/blocknumber.go, and models/dto.go
--   Models.Account          models/account.go: AccountAddSmt, AccountLockSmt, AccountUnlockSmt,
--                           AccountUseSmt, AccountIsBalanceEnough, accountSanity;
--                           Models.Account.Ledger is what they promise, Models.Account.Race runs two
--                           locks at the same time, Models.Account.Overwritten a deposit when the
--                           query of the account fails
--   Models.Delegate         models/delegate.go, with the queries of models/delegate_punish.go and
--                           models/delegate_announcedispose.go, and UpdateObject of models/db.go
--   Models.Monitor          models/delegatemonitor.go: at which blocks a delegate is worked on
--   Models.Record           models/delegate_execute_record.go
--   Models.BlockNumber      models/blocknumber.go
--   Models.Service          models/service.go, the punishes and disposes of a request
--   Models.Receive          models/service.go, ReceiveDelegate, updateDelegate, updateAccountSMT
--   Models.Transfer         models/transfer.go: the transfers that were received
--   Smt                     smt/listeningsmt.go: the transfers that Photon reports are credited
--   Chain.Execute           chainservice/events.go: doRegisterSecret, doUpdateBalanceProof, doUnlock
--                           and doPunish, one contract call each; Chain.Execute.Answer says what
--                           the chain answers to a call, read off the state outside alone
--   Chain.Secrets, Chain.BalanceProof, Chain.Unlocks, Chain.Punishes
--                           chainservice/events.go: doDelegateSecrets,
--                           doDelegateUpdateBalanceProof, doDelegateUnlocks, doDelegatePunishes
--   Chain.Events            chainservice/events.go: the handlers of channel events
--   Chain.Blocks            chainservice/events.go: handleBlockNumber, handleStateChange, loop, and
--                           the goroutines that a block starts
--   Chain.Messages, Chain.Signatures, Chain.Verifier
--                           chainservice/verifier.go: the messages that are signed, the checks of
--                           the parts of a request, VerifyDelegate
--   Rest                    rest/delegate.go, rest/query.go and verifier/verifier.go: the handlers
--                           Delegate, Tx and Fee
--   Start                   cmd/photonmonitoring/main.go: the settings that config takes from the
--                           command line, and when mainCtx starts the query of received smt
--   System                  what may happen to the service as a whole, as a step relation
--   Tests                   a platform to run the model on, and each theorem at concrete data
--
-- How they interact: the loop hands a state change to a handler of Chain.Events or Chain.Blocks; a
-- block runs Chain.Secrets and starts a job for a monitor of that block, if the status of its
-- delegate allows it; a job runs Chain.BalanceProof, Chain.Unlocks or Chain.Punishes, which lock a
-- fee in Models.Account, call a contract by Chain.Execute, and use or return the fee. A request runs
-- Rest, which has it verified by Chain.Verifier and received by Models.Receive, and Smt deposits
-- what was received.
--
-- Conventions. A function of the source has its name in snake case. An action is a function from
-- the state to an outcome and a state; `panicked` is a Go panic, and the state that it reached
-- stays. A hash, an address and a byte key are the numbers that their bytes spell. big.Int and
-- int64 are integers; the two places where an int64 can wrap, the time of the balance proof update
-- and the settle block that a contract returns, are wrapped by `wrap64`. The queries and writes of
-- gorm are those of an opaque table; `IsDocumented` says what gorm documents of them while the
-- database answers, and a state in which it answers and a block was seen is `IsHealthy`.
--
-- Bounds: handleBlockNumber calls itself, and is modelled with a bound on the depth of the calls.
-- A depth of 2 is enough, since the call for a skipped block finds no block skipped.
--
-- Not modelled: the router and the JSON of the HTTP interface, the request of smt to Photon and its
-- timer, key files and directories at the start, debugging (internal/debug), logs, the interleaving
-- of goroutines (a job is run as a whole; only two locks of one account are interleaved), and the
-- retrying of mutexes. The vendored libraries are parameters.
pub mod Base
pub mod Orm
pub mod Params
pub mod Utils
pub mod Models
pub mod Platform
pub mod World
pub mod Chain
pub mod Smt
pub mod Rest
pub mod Start
pub mod System
pub mod Tests
