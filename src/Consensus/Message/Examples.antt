-- ===== src/Consensus/Message/Examples.antt =====
-- consensus/messages.go at concrete votes and proposals.
use dew.Base.{◌≡◌, refl, [], none, ok}
use dew.Consensus.Message.{
  Vote, Proposal, sign_vote, vote_sign_bytes, sign, digest_of, sign_proposal, proposal_sign_bytes,
}
use dew.Consensus.Message.Toy.{toy, toy_signature}

abbrev unsigned_vote : Vote
unsigned_vote = record {
  typ = 1;
  height = 5;
  round = 2;
  block_hash = 77;
  validator = 0;
  signature = [];
}

abbrev signed_vote : Vote
signed_vote = record unsigned_vote { validator = 9; signature = toy_signature 9 }

signed : sign_vote toy unsigned_vote 9 ≡ ok signed_vote
unfolding sign_vote vote_sign_bytes digest_of sign
signed = refl

abbrev unsigned_proposal : Proposal
unsigned_proposal = record {
  height = 5;
  round = 2;
  block_hash = 77;
  block = none;
  proposer = 0;
  signature = [];
}

abbrev signed_proposal : Proposal
signed_proposal = record unsigned_proposal { proposer = 9; signature = toy_signature 9 }

proposal_signed : sign_proposal toy unsigned_proposal 9 ≡ ok signed_proposal
unfolding sign_proposal proposal_sign_bytes digest_of sign
proposal_signed = refl
