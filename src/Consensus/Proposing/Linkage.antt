-- ===== src/Consensus/Proposing/Linkage.antt =====
-- consensus/block.go: what is built is accepted, and what is accepted follows the parent.
use dew.Base.{ℕ, ◌+◌, ◌≡◌, ◌↔◌, ◌⊎◌, true, false, arith, u64, ok}
use dew.Consensus.Message.{Hash, Header, Block, Crypto}
use dew.Consensus.Proposing.{
  EmptyBlockBuilder, EmptyRoots, build_empty_proposal, empty_header, DefaultValidator,
  validate_proposal, root_validator,
}
use dew.Consensus.Engine.Types.{Engine, Env}
use dew.Consensus.Engine.Rounds.{synced, apply_synced_block}

-- What ValidateProposal asks of a block.
pub record Follows (c : Crypto) (v : DefaultValidator) (height : ℕ) (parent : Header)
    (block : Block) : Type 0 where
  pub number : block.header.number ≡ height
  pub linked : block.header.parent_hash ≡ c.header_hash parent
  pub next : height ≡ u64 (parent.number + 1)
  pub root : (v.check_root ≡ false) ⊎ (block.header.state_root ≡ v.expected_state_root)

-- ValidateProposal accepts a block exactly when it has the height, which is the next after the
-- parent, links to the parent, and has the expected state root where that is checked.
pub validate_proposal_iff :
    (c : Crypto) (v : DefaultValidator) (height : ℕ) (parent : Header) (block : Block)
    → (validate_proposal c v height parent block ≡ ok tt) ↔ Follows c v height parent block
unfolding validate_proposal
validate_proposal_iff c v height parent block = (
  λ h. record {
    number = ground arith;
    linked = ground arith;
    next = ground arith;
    root = ground arith;
  },
  λ f. ground (arith, f.number, f.linked, f.next, f.root),
)

-- A block that the empty builder returns passes the validator that expects the state root that the
-- block was built for.
pub validate-build_empty :
    (c : Crypto) (roots : EmptyRoots) (b : EmptyBlockBuilder) (height : ℕ) (parent : Header)
    (proposer : ℕ) (state_root : Hash) (block : Block)
    → build_empty_proposal c roots b height parent proposer state_root ≡ ok block
    → validate_proposal c (root_validator state_root) height parent block ≡ ok tt
unfolding build_empty_proposal empty_header validate_proposal
validate-build_empty c roots b height parent proposer state_root block h = ground arith

-- A block that any validator accepts at the height and the parent of an engine moves that engine on
-- when it is synced.
pub apply_synced_block-validated :
    (env : Env) (v : DefaultValidator) (e : Engine) (block : Block)
    → validate_proposal env.crypto v e.height e.parent block ≡ ok tt
    → apply_synced_block env block e ≡ (synced env block e, ok true)
unfolding apply_synced_block
apply_synced_block-validated env v e block h =
    let f = (validate_proposal_iff env.crypto v e.height e.parent block).0 h in
    ground (arith, f.number, f.linked)
