-- ===== src/Consensus/Proposing/Examples.antt =====
-- consensus/block.go at concrete blocks.
use dew.Base.{◌≡◌, refl, none, some, [], ok, u64}
use dew.Consensus.Message.{Block}
use dew.Consensus.Message.Toy.{toy}
use dew.Consensus.Engine.Toy.{header_at}
use dew.Consensus.Proposing.{
  EmptyBlockBuilder, EmptyRoots, build_empty_proposal, empty_header, validate_proposal,
  root_validator, basic_validator,
}
use dew.Consensus.Proposing.Linkage.{validate-build_empty}

abbrev builder : EmptyBlockBuilder
builder = record { gas_limit = 0; base_fee = none }

abbrev roots : EmptyRoots
roots = record { empty_tx_root = 11; empty_receipt_root = 12 }

abbrev built : Block
built = record {
  header = record {
    parent_hash = 5;
    state_root = 13;
    tx_root = 11;
    receipt_root = 12;
    number = 5;
    timestamp = 1;
    gas_limit = 0;
    gas_used = 0;
    base_fee = some 1000000000;
    extra_data = [];
    proposer = 9;
  };
  transactions = [];
}

builds : build_empty_proposal toy roots builder 5 (header_at 4) 9 13 ≡ ok built
unfolding build_empty_proposal empty_header u64
builds = refl

validate-build_empty_example :
    validate_proposal toy (root_validator 13) 5 (header_at 4) built ≡ ok tt
validate-build_empty_example =
    validate-build_empty toy roots builder 5 (header_at 4) 9 13 built builds

accepted : validate_proposal toy basic_validator 5 (header_at 4) built ≡ ok tt
unfolding validate_proposal u64
accepted = refl
