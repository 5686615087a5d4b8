-- ===== src/Consensus/Engine/Toy.antt =====
-- A concrete engine alone in its validator set, to run the code of consensus/ on.
use dew.Base.{
  ℕ, ◌≡◌, refl, true, false, u64, get_elem?, lookup, insert, none, some, List, [], ◌∷◌, ok,
}
use dew.Base.Int.{negsuc, is_nonneg}
use dew.Consensus.Message.{
  Header, Block, Proposal, Vote, sign_vote, sign_proposal, sign, vote_sign_bytes,
  proposal_sign_bytes, digest_of, hash_of,
}
use dew.Consensus.Message.Toy.{toy, toy_signature}
use dew.Consensus.ValidatorSet.{
  ValidatorSet, get, power_of, proposer, proposer_index, find_slot, has_quorum,
}
use dew.Consensus.ValidatorSet.Toy.{validator}
use dew.Consensus.VoteSet.{
  VoteSet, new_vote_set, add, record_vote, majority_hash, first_quorum, votes_for, votes_in,
}
use dew.Consensus.Engine.{
  reset_votes, blank_votes, is_step, prevote_begin, prevote_finish, prevote_hash, proposed_hash,
  try_after_prevote, add_prevote, enter_precommit, lock_polka, add_precommit, try_after_precommit,
  enter_commit, next_parent, commit_event, advance, unsigned_vote,
}
use dew.Consensus.Engine.Types.{PrevoteContext, Engine, Env, new_round}
use dew.Consensus.Engine.Rounds.{
  new_engine, start_round_begin, build_block, start_round_finish, unsigned_proposal, propose_block,
}
use dew.Consensus.Engine.System.{
  run, step, fresh_system, take_at, begin, resume, pause, reply, log_votes, Event, start_round,
  resume_round, resume_prevote,
}

abbrev pub header_at : ℕ → Header
header_at number = record {
  parent_hash = number;
  state_root = 0;
  tx_root = 0;
  receipt_root = 0;
  number = number;
  timestamp = 0;
  gas_limit = 0;
  gas_used = 0;
  base_fee = none;
  extra_data = [];
  proposer = 9;
}

abbrev pub block_at : ℕ → Block
block_at number = record { header = header_at number; transactions = [] }

-- A builder that builds an empty block, and a validator that takes any block.
abbrev pub env : Env
env = record {
  crypto = toy;
  build_proposal = λ height parent addr root. ok (some (block_at height));
  validate_proposal = λ height parent block. true;
}

abbrev pub one_set : ValidatorSet
one_set = record { validators = validator 9 1 ∷ []; total_power = 1; index = (9, 0) ∷ [] }

abbrev votes_of : ℕ → VoteSet
votes_of typ = record { typ = typ; height = 5; round = 0; by_addr = []; power = []; total_seen = 0 }

abbrev pub engine : Engine
engine = record {
  address = 9;
  key = 9;
  val_set = one_set;
  height = 5;
  round = 0;
  step = new_round;
  parent = header_at 4;
  proposal = none;
  prevotes = votes_of 1;
  precommits = votes_of 2;
  locked_round = negsuc 0;
  locked_hash = 0;
  propose_root = 0;
  committed = false;
  last_commit = none;
}

-- The round in which the engine commits its own block.
abbrev pub one_round : List Event
one_round = start_round ∷ resume_round 0 ∷ resume_prevote 0 ∷ []

abbrev pub vote_of : ℕ → Vote
vote_of typ = record {
  typ = typ;
  height = 5;
  round = 0;
  block_hash = 6;
  validator = 9;
  signature = toy_signature 9;
}

pub made : new_engine env 9 one_set (header_at 4) 0 ≡ ok engine
unfolding new_engine get lookup reset_votes blank_votes new_vote_set u64
made = refl

pub sent_in_round : (run env (fresh_system engine) one_round).sent ≡ vote_of 2 ∷ vote_of 1 ∷ []
unfolding run step take_at begin resume pause reply log_votes start_round_begin is_step reset_votes
    build_block start_round_finish unsigned_proposal propose_block prevote_begin prevote_finish
    prevote_hash proposed_hash try_after_prevote add_prevote enter_precommit lock_polka
    add_precommit try_after_precommit enter_commit next_parent commit_event advance unsigned_vote
    get power_of proposer proposer_index find_slot lookup insert u64 has_quorum majority_hash
    first_quorum add record_vote new_vote_set votes_for votes_in sign_vote sign_proposal sign
    vote_sign_bytes proposal_sign_bytes digest_of hash_of is_nonneg
sent_in_round = refl

abbrev proposal : Proposal
proposal = record {
  height = 5;
  round = 0;
  block_hash = 6;
  block = some (block_at 5);
  proposer = 9;
  signature = toy_signature 9;
}

-- The call that waits to prevote once the engine has proposed.
abbrev pub waiting_call : PrevoteContext
waiting_call = record {
  height = 5;
  round = 0;
  parent = header_at 4;
  prop = some proposal;
  locked_round = negsuc 0;
  locked_hash = 0;
  addr = 9;
  key = 9;
  box = record { proposals = proposal ∷ []; votes = []; commit = none };
}

abbrev pub until_proposed : List Event
until_proposed = start_round ∷ resume_round 0 ∷ []

pub waits_once_proposed :
    get_elem? (run env (fresh_system engine) until_proposed).pending 0 ≡ some waiting_call
unfolding run step take_at begin resume pause log_votes start_round_begin is_step reset_votes
    build_block start_round_finish unsigned_proposal propose_block prevote_begin proposer
    proposer_index find_slot u64 new_vote_set sign_proposal sign proposal_sign_bytes digest_of
    hash_of
waits_once_proposed = refl
