-- ===== src/Consensus/Proposing.antt =====
-- consensus/block.go: the builder of empty blocks, and the checks of a proposed block.
pub mod Linkage
mod Examples
use dew.Base.{
  ℕ, ◌+◌, Bool, true, false, not, ◌&&◌, Option, none, some, [], ◌==◌, if◌then◌else◌, u64, Result,
  ok, err, ◌>>◌, ◌>>=◌, fail_if,
}
use dew.Consensus.Message.{Hash, Header, Block, Crypto}

pub record EmptyBlockBuilder : Type 0 where
  pub gas_limit : ℕ
  pub base_fee : Option ℕ

-- types.EmptyTxRoot and types.EmptyReceiptRoot, which are computed from hashes of go-ethereum.
pub record EmptyRoots : Type 0 where
  pub empty_tx_root : Hash
  pub empty_receipt_root : Hash

pub data BlockError : Type 0 where
  height_not_next wrong_number parent_hash_mismatch not_contiguous invalid_state_root : BlockError

abbrev pub base_fee_of : Option ℕ → Option ℕ → ℕ
base_fee_of (some fee) parent_fee = fee
base_fee_of none (some fee) = fee
base_fee_of none none = 1000000000

unfoldable pub empty_header :
    Crypto → EmptyRoots → EmptyBlockBuilder → ℕ → Header → ℕ → Hash → Header
empty_header c roots b height parent proposer state_root = record {
  parent_hash = c.header_hash parent;
  state_root = state_root;
  tx_root = roots.empty_tx_root;
  receipt_root = roots.empty_receipt_root;
  number = height;
  timestamp = u64 (parent.timestamp + 1);
  gas_limit = if b.gas_limit == 0 then parent.gas_limit else b.gas_limit;
  gas_used = 0;
  base_fee = some (base_fee_of b.base_fee parent.base_fee);
  extra_data = [];
  proposer = proposer;
}

-- EmptyBlockBuilder.BuildProposal
unfoldable pub build_empty_proposal :
    Crypto → EmptyRoots → EmptyBlockBuilder → ℕ → Header → ℕ → Hash → Result BlockError Block
build_empty_proposal c roots b height parent proposer state_root =
    if not (height == u64 (parent.number + 1))
    then err height_not_next
    else ok (record {
      header = empty_header c roots b height parent proposer state_root;
      transactions = [];
    })

pub record DefaultValidator : Type 0 where
  pub expected_state_root : Hash
  pub check_root : Bool

-- NewRootValidator
abbrev pub root_validator : Hash → DefaultValidator
root_validator expected = record { expected_state_root = expected; check_root = true }

-- NewBasicValidator
abbrev pub basic_validator : DefaultValidator
basic_validator = record { expected_state_root = 0; check_root = false }

-- DefaultValidator.ValidateProposal
unfoldable pub validate_proposal :
    Crypto → DefaultValidator → ℕ → Header → Block → Result BlockError (Unit {0})
validate_proposal c v height parent block = do
  fail_if (not (block.header.number == height)) wrong_number
  fail_if (not (block.header.parent_hash == c.header_hash parent)) parent_hash_mismatch
  fail_if (not (height == u64 (parent.number + 1))) not_contiguous
  fail_if (v.check_root && not (block.header.state_root == v.expected_state_root))
      invalid_state_root
