-- ===== src/Lib.antt =====
-- Dew is a proof-of-stake chain in Go. This library models its consensus (consensus/) its native
-- transactions, staking and order book (core/native/), its transaction pool (mempool/), and the
-- journal of its state database (core/state/) by functions that follow the Go code, and proves
-- what makes the parts correct.
--
--  Consensus/ValidatorSet  consensus/validator.go: NewValidatorSet (new_validator_set), Get, PowerOf,
--                          HasQuorum, ProposerIndex, Proposer.
--  Consensus/Message       consensus/messages.go: Proposal, Vote, sign bytes, SignVote, VerifyVote,
--                          SignProposal, VerifyProposal; Sign and Ecrecover of crypto/crypto.go.
--  Consensus/VoteSet       consensus/state.go: the voteSet and majorityHash.
--  Consensus/Engine        consensus/engine.go: StartRound, HandleProposal, HandleVote,
--                          ForceTimeoutRound, ApplySyncedBlock, ReplaceValSet, SetProposeRoot.
--  Consensus/Evidence      consensus/evidence.go: VerifyDoubleSign and the wire form of evidence.
--  Consensus/Proposing     consensus/block.go: EmptyBlockBuilder and DefaultValidator.
--  Consensus/Rotation      consensus/activeset.go: ActiveSetToValidatorSet, ShouldRotateEpoch.
--  Native/Staking          core/native/staking.go: Bond, Unbond, Withdraw, SlashAndJail, and VotingPower;
--                          Delegation: Delegate, Undelegate, WithdrawDelegation, rewards; ActiveSet.
--  Native/Executor         core/native/executor.go: ApplyDewTx; DistributeProposerIncome.
--  Native/Orderbook        core/native/orderbook.go: the book and its slots; Calls: PlaceBuy, PlaceSell,
--                          Cancel, Fill; Best: BestBid, BestAsk.
--  Mempool                 mempool/pool.go: the pool, add, eviction, removal and counters; Admission:
--                          AddEVM, AddDew; Config: mempool/config.go.
--  Vm                      core/vm/precompiles.go: the native transfer and the value hook; Staking: Run
--                          of the staking precompile, a function for each method. Swap:
--                          core/vm/orderbook_precompile.go, Run of the order book's precompile.
--  State/Journal           core/state/journal.go and evm_api.go: the journaled setters, Snapshot,
--                          RevertToSnapshot; SetState of statedb.go.
--  Base                    Shared helpers: tests, lists, words, results, maps, counting.
--
-- How the parts interact: the engine keeps a validator set and two vote sets, signs and verifies
-- messages, and asks the validator set for powers and the proposer. Evidence is checked with the
-- same verification of votes. Native transactions move balances and pay their fee to the proposer
-- and its delegators; the staking module ranks the candidates, and Rotation makes the validator
-- set of an epoch of them.
--
-- The engine's methods hold a mutex, and StartRound and enterPrevoteLocked release it on the way.
-- Each stretch under the lock is one function (start_round_begin and start_round_finish,
-- prevote_begin and prevote_finish). Engine/System keeps the calls that wait without the lock, and
-- a schedule of events runs the stretches in any order. An error is a value: the reply of a method
-- holds the engine, the outbox and the error. Messages leave with the outbox, which the methods
-- flush after they release the lock.
--
-- Numbers are natural numbers. A uint64 keeps its wrap-around by u64, written at each addition and
-- product that the code makes. A hash is its 32 bytes read as a number, an address its 20 bytes. A
-- SubRefund or RevertToSnapshot that panics is none. The storage of the staking module stands
-- apart from the journal, as the module writes it without. A Go map is an association list with
-- lookup, insert and erase; where the code ranges over a map, the results hold in any order of the
-- list. The staking module's storage is a record with a function for each domain of its slots, as
-- the keys are hashes of distinct inputs; a uint256 wraps by u256. A method that fails after it
-- has written returns the storage with the error. All loops of the code are over finite lists or
-- up to a count, so no fuel is needed.
--
-- RLP, Keccak-256 and secp256k1 are code of go-ethereum: the record Crypto holds them as
-- parameters, and CryptoLaws what is documented of them. The EVM's call of a contract is a
-- parameter of the order book's precompile (SwapPrecompile). The block builder and the proposal
-- validator are parameters of the engine (Env), and so are the roots of empty lists (EmptyRoots)
-- of the empty builder. The modules named Toy give concrete instances for the examples.
--
-- Not modelled: nil pointers where a method returns an error at once, the text of errors, getters,
-- the String methods, EvidenceDigest, of the state database, code, creation, existence and
-- destruction of accounts, committed values, access lists, caches and the flat database; the local
-- cluster and the timers, and the other packages, whose input and output is over the network, HTTP
-- or a database.
pub mod Base
pub mod Consensus
pub mod Mempool
pub mod Native
pub mod State
pub mod Vm
