-- ===== src/Consensus/Engine/Rounds.antt =====
-- consensus/engine.go: the calls that begin a round, take a proposal, or move the engine on.
use dew.Base.{
  ℕ, ◌+◌, Bool, true, false, not, ◌||◌, Option, none, some, [], ◌==◌, ltb, if◌then◌else◌, u64,
  Result, ok, err, is_some,
}
use dew.Base.Int.{negsuc}
use dew.Consensus.Message.{Hash, Header, Block, Proposal, hash_of, sign_proposal, verify_proposal}
use dew.Consensus.ValidatorSet.{ValidatorSet, get, proposer, size}
use dew.Consensus.Engine.Types.{
  new_round, propose, empty_box, send_proposal, Engine, EngineError, message, not_in_set, nil_block,
  hash_mismatch, non_proposer, height_mismatch, parent_mismatch, missing_validator_set, Env,
  RoundContext, Pause, returns,
}
use dew.Consensus.Engine.{
  reset_votes, unlock, is_step, enter_next_round, prevote_begin, blank_votes,
}

abbrev pub is_proposer : Engine → Bool
is_proposer e = elim (proposer e.val_set e.height e.round) [
  | none ↦ false
  | some a ↦ a == e.address
]

-- StartRound up to the release of the lock; `none` when a round is in progress.
unfoldable pub start_round_begin : Engine → Engine × Option RoundContext
unfolding is_step reset_votes
start_round_begin e = if not (is_step e.step new_round) then (e, none) else (
  record (reset_votes e) { step = propose },
  some (record {
    height = e.height;
    round = e.round;
    parent = e.parent;
    addr = e.address;
    root = e.propose_root;
    is_proposer = is_proposer e;
    key = e.key;
  }),
)

module _ (env : Env) where
  -- The builder runs without the lock, for the proposer alone.
  unfoldable pub build_block : RoundContext → Result EngineError (Option Block)
  build_block ctx =
      if ctx.is_proposer
      then env.build_proposal ctx.height ctx.parent ctx.addr ctx.root
      else ok none

  unfoldable pub unsigned_proposal : RoundContext → Block → Proposal
  unsigned_proposal ctx b = record {
    height = ctx.height;
    round = ctx.round;
    block_hash = hash_of env.crypto b;
    block = some b;
    proposer = ctx.addr;
    signature = [];
  }

  unfoldable pub propose_block : RoundContext → Block → Engine → Engine × Pause
  propose_block ctx b e = elim (sign_proposal env.crypto (unsigned_proposal ctx b) ctx.key) [
    | err x ↦ (e, returns empty_box (some (message x)))
    | ok p ↦ prevote_begin env (record e { proposal = some p }) (send_proposal empty_box p)
  ]

  -- StartRound from the moment that it has the lock again, with a block that was built.
  unfoldable pub start_round_finish : RoundContext → Option Block → Engine → Engine × Pause
  unfolding is_step
  start_round_finish ctx block e =
      if not (e.height == ctx.height) || not (e.round == ctx.round) || not (is_step e.step propose)
      then (e, returns empty_box none)
      else if not ctx.is_proposer
      then (e, returns empty_box none)
      else elim block [
        | none ↦ (e, returns empty_box (some nil_block))
        | some b ↦ propose_block ctx b e
      ]

  -- The checks that HandleProposal makes before it takes the lock.
  unfoldable pub check_proposal : Proposal → Option EngineError
  check_proposal p = elim (verify_proposal env.crypto p) [
    | err x ↦ some (message x)
    | ok u ↦ elim p.block [
      | none ↦ none
      | some b ↦ if hash_of env.crypto b == p.block_hash then none else some hash_mismatch
    ]
  ]

  unfoldable pub accept_proposal : Proposal → Engine → Engine × Pause
  accept_proposal p e =
      if elim (proposer e.val_set e.height e.round) [ none ↦ false | some a ↦ p.proposer == a ]
      then prevote_begin env (record e { proposal = some p }) empty_box
      else (e, returns empty_box (some non_proposer))

  -- HandleProposal up to the release of the lock.
  unfoldable pub handle_proposal : Proposal → Engine → Engine × Pause
  handle_proposal p e = elim (check_proposal p) [
    | some x ↦ (e, returns empty_box (some x))
    | none ↦
        if not (p.height == e.height) || not (p.round == e.round)
        then (e, returns empty_box none)
        else if is_some e.proposal
        then (e, returns empty_box none)
        else accept_proposal p e
  ]

  unfoldable pub synced : Block → Engine → Engine
  unfolding reset_votes
  synced block e =
      record (reset_votes (
        unlock (record e {
          parent = block.header;
          height = u64 (block.header.number + 1);
          round = 0;
        }))) {
          step = new_round;
          last_commit = some (record {
            height = block.header.number;
            round = 0;
            block_hash = hash_of env.crypto block;
            block = some block;
            precommits = [];
          });
        }

  -- ApplySyncedBlock: the engine, and whether it moved, or the error.
  unfoldable pub apply_synced_block : Block → Engine → Engine × Result EngineError Bool
  apply_synced_block block e =
      if ltb block.header.number e.height
      then (e, ok false)
      else if not (e.height == block.header.number)
      then (e, err height_mismatch)
      else if not (block.header.parent_hash == env.crypto.header_hash e.parent)
      then (e, err parent_mismatch)
      else (synced block e, ok true)

-- ForceTimeoutRound
unfoldable pub force_timeout_round : Engine → Engine
force_timeout_round e = enter_next_round e

-- ReplaceValSet
unfoldable pub replace_val_set : ValidatorSet → Engine → Engine × Option EngineError
replace_val_set vs e =
    if size vs == 0 then (e, some missing_validator_set) else (record e { val_set = vs }, none)

-- SetProposeRoot
unfoldable pub set_propose_root : Hash → Engine → Engine
set_propose_root root e = record e { propose_root = root }

-- NewEngine, with the key, the set and the parent header that are not nil.
unfoldable pub new_engine : Env → ℕ → ValidatorSet → Header → Hash → Result EngineError Engine
unfolding reset_votes blank_votes
new_engine env key val_set parent root = elim (get val_set (env.crypto.pubkey_to_address key)) [
  | none ↦ err not_in_set
  | some v ↦ ok (
      reset_votes (record {
        address = env.crypto.pubkey_to_address key;
        key = key;
        val_set = val_set;
        height = u64 (parent.number + 1);
        round = 0;
        step = new_round;
        parent = parent;
        proposal = none;
        prevotes = blank_votes;
        precommits = blank_votes;
        locked_round = negsuc 0;
        locked_hash = 0;
        propose_root = root;
        committed = false;
        last_commit = none;
      }))
]
