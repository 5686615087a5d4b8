-- ===== src/Consensus/Engine/Types.antt =====
-- consensus/engine.go and consensus/state.go: the engine's state, what it sends, and its parameters.
use dew.Base.{ℕ, Bool, Option, none, List, [], ◌∷◌, ◌++◌, Result}
use dew.Base.Int.{ℤ}
use dew.Consensus.Message.{Hash, Header, Block, Proposal, Vote, Crypto, MessageError}
use dew.Consensus.ValidatorSet.{ValidatorSet}
use dew.Consensus.VoteSet.{VoteSet}

pub data Step : Type 0 where
  new_round propose prevote precommit commit : Step

pub record CommitEvent : Type 0 where
  pub height : ℕ
  pub round : ℕ
  pub block_hash : Hash
  pub block : Option Block
  pub precommits : List Vote

-- The messages of one call, sent after the lock is released.
pub record Outbox : Type 0 where
  pub proposals : List Proposal
  pub votes : List Vote
  pub commit : Option CommitEvent

abbrev pub empty_box : Outbox
empty_box = record { proposals = []; votes = []; commit = none }

abbrev pub send_proposal : Outbox → Proposal → Outbox
send_proposal box p = record box { proposals = box.proposals ++ p ∷ [] }

abbrev pub send_vote : Outbox → Vote → Outbox
send_vote box v = record box { votes = box.votes ++ v ∷ [] }

-- The fields that the mutex guards, and the key and the address. The builder and the proposal
-- validator are in `Env`; the broadcaster and OnCommit receive the `Outbox`.
pub record Engine : Type 0 where
  pub address : ℕ
  pub key : ℕ
  pub val_set : ValidatorSet
  pub height : ℕ
  pub round : ℕ
  pub step : Step
  pub parent : Header
  pub proposal : Option Proposal
  pub prevotes : VoteSet
  pub precommits : VoteSet
  pub locked_round : ℤ
  pub locked_hash : Hash
  pub propose_root : Hash
  pub committed : Bool
  pub last_commit : Option CommitEvent

pub data EngineError : Type 0 where
  missing_validator_set not_in_set build_failed nil_block hash_mismatch non_proposer : EngineError
  non_validator unknown_vote_type no_matching_proposal height_mismatch parent_mismatch : EngineError
  message : MessageError → EngineError

-- What the engine is wired to: BlockBuilder.BuildProposal, which may return an error or no block,
-- and whether ProposalValidator.ValidateProposal returns no error.
pub record Env : Type 0 where
  pub crypto : Crypto
  pub build_proposal : ℕ → Header → ℕ → Hash → Result EngineError (Option Block)
  pub validate_proposal : ℕ → Header → Block → Bool

-- A method that holds the lock to its end: the engine, the outbox and the error.
abbrev pub Reply : Type 0
Reply = Engine × Outbox × Option EngineError

-- What `enterPrevoteLocked` holds on to while it works without the lock.
pub record PrevoteContext : Type 0 where
  pub height : ℕ
  pub round : ℕ
  pub parent : Header
  pub prop : Option Proposal
  pub locked_round : ℤ
  pub locked_hash : Hash
  pub addr : ℕ
  pub key : ℕ
  pub box : Outbox

-- What `StartRound` holds on to while the block is built without the lock.
pub record RoundContext : Type 0 where
  pub height : ℕ
  pub round : ℕ
  pub parent : Header
  pub addr : ℕ
  pub root : Hash
  pub is_proposer : Bool
  pub key : ℕ

-- How a stretch under the lock ends: the call returns, or it goes on without the lock.
pub data Pause : Type 0 where
  returns : Outbox → Option EngineError → Pause
  prevotes : PrevoteContext → Pause
