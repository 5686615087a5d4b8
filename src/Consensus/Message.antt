-- ===== src/Consensus/Message.antt =====
-- consensus/messages.go with the types of core/types that it names: proposals, votes, and their
-- signatures. RLP, Keccak and secp256k1 are go-ethereum's and are the parameter `Crypto`.
pub mod Signing
pub mod Toy
mod Examples
use Prim.Native.String.{String}
use dew.Base.{
  ℕ, ◌+◌, ◌-◌, ◌*◌, Bool, true, false, not, ◌&&◌, Option, none, some, List, [], ◌∷◌, leb, ◌==◌,
  if◌then◌else◌, length, drop, take, Result, ok, err, ◌>>=◌, ◌>>◌, fail_if,
}

abbrev pub Bytes : Type 0
Bytes = List ℕ

-- A hash is its 32 bytes read as a number; the zero hash is 0.
abbrev pub Hash : Type 0
Hash = ℕ

pub record Header : Type 0 where
  pub parent_hash : Hash
  pub state_root : Hash
  pub tx_root : Hash
  pub receipt_root : Hash
  pub number : ℕ
  pub timestamp : ℕ
  pub gas_limit : ℕ
  pub gas_used : ℕ
  pub base_fee : Option ℕ
  pub extra_data : Bytes
  pub proposer : ℕ

-- The transactions in their wire form.
pub record Block : Type 0 where
  pub header : Header
  pub transactions : List Bytes

pub record Proposal : Type 0 where
  pub height : ℕ
  pub round : ℕ
  pub block_hash : Hash
  pub block : Option Block
  pub proposer : ℕ
  pub signature : Bytes

abbrev pub vote_prevote : ℕ
vote_prevote = 1

abbrev pub vote_precommit : ℕ
vote_precommit = 2

pub record Vote : Type 0 where
  pub typ : ℕ
  pub height : ℕ
  pub round : ℕ
  pub block_hash : Hash
  pub validator : ℕ
  pub signature : Bytes

pub record ProposalSignPayload : Type 0 where
  pub domain : String
  pub height : ℕ
  pub round : ℕ
  pub block_hash : Hash

pub record VoteSignPayload : Type 0 where
  pub domain : String
  pub typ : ℕ
  pub height : ℕ
  pub round : ℕ
  pub block_hash : Hash

-- What the code takes from go-ethereum; `none` is an error. A private key goes by its scalar.
pub record Crypto : Type 0 where
  pub encode_proposal : ProposalSignPayload → Option Bytes
  pub encode_vote : VoteSignPayload → Option Bytes
  pub keccak256 : Bytes → Bytes
  pub eth_sign : Bytes → ℕ → Option Bytes
  pub eth_ecrecover : Bytes → Bytes → Option Bytes
  pub pubkey_to_address : ℕ → ℕ
  pub header_hash : Header → Hash

pub data MessageError : Type 0 where
  encode_failed bad_digest sign_failed bad_signature_length invalid_vote_type ecrecover_failed :
      MessageError
  signer_mismatch : MessageError

-- Bytes in big-endian order.
unfoldable pub from_be : ℕ → Bytes → ℕ
from_be acc [] = acc
from_be acc (b ∷ bs) = from_be (acc * 256 + b) bs

module _ (c : Crypto) where
  unfoldable pub hash_of : Block → Hash
  hash_of b = c.header_hash b.header

  unfoldable pub digest_of : Option Bytes → Result MessageError Bytes
  digest_of none = err encode_failed
  digest_of (some enc) = ok (c.keccak256 enc)

  unfoldable pub proposal_sign_bytes : ℕ → ℕ → Hash → Result MessageError Bytes
  unfolding digest_of
  proposal_sign_bytes height round block_hash = digest_of (
      c.encode_proposal (record {
        domain = "Dew/Proposal/1";
        height = height;
        round = round;
        block_hash = block_hash;
      }))

  unfoldable pub vote_sign_bytes : ℕ → ℕ → ℕ → Hash → Result MessageError Bytes
  unfolding digest_of
  vote_sign_bytes typ height round block_hash = digest_of (
      c.encode_vote (record {
        domain = "Dew/Vote/1";
        typ = typ;
        height = height;
        round = round;
        block_hash = block_hash;
      }))

  -- crypto.Sign and crypto.Ecrecover
  unfoldable pub sign : Bytes → ℕ → Result MessageError Bytes
  sign digest key =
      if length digest == 32
      then elim (c.eth_sign digest key) [ none ↦ err sign_failed | some sig ↦ ok sig ]
      else err bad_digest

  unfoldable pub ecrecover : Bytes → Bytes → Result MessageError Bytes
  ecrecover digest sig =
      if length digest == 32
      then elim (c.eth_ecrecover digest sig) [
        | none ↦ err ecrecover_failed
        | some pub_key ↦ ok pub_key
      ]
      else err bad_digest

  unfoldable pub pubkey_bytes_to_address : Bytes → ℕ
  unfolding from_be
  pubkey_bytes_to_address pub_key =
      if length pub_key == 65
      then from_be 0 (take 20 (drop 12 (c.keccak256 (drop 1 pub_key))))
      else if leb 20 (length pub_key)
      then from_be 0 (drop (length pub_key - 20) pub_key)
      else 0

  unfoldable pub sign_proposal : Proposal → ℕ → Result MessageError Proposal
  sign_proposal p key = do
    digest ← proposal_sign_bytes p.height p.round p.block_hash
    sig ← sign digest key
    ok (record p { signature = sig; proposer = c.pubkey_to_address key })

  unfoldable pub verify_proposal : Proposal → Result MessageError (Unit {0})
  verify_proposal p = do
    fail_if (not (length p.signature == 65)) bad_signature_length
    digest ← proposal_sign_bytes p.height p.round p.block_hash
    pub_key ← ecrecover digest p.signature
    fail_if (not (pubkey_bytes_to_address pub_key == p.proposer)) signer_mismatch

  unfoldable pub sign_vote : Vote → ℕ → Result MessageError Vote
  sign_vote v key = do
    digest ← vote_sign_bytes v.typ v.height v.round v.block_hash
    sig ← sign digest key
    ok (record v { signature = sig; validator = c.pubkey_to_address key })

  unfoldable pub verify_vote : Vote → Result MessageError (Unit {0})
  verify_vote v = do
    fail_if (not (v.typ == vote_prevote) && not (v.typ == vote_precommit)) invalid_vote_type
    fail_if (not (length v.signature == 65)) bad_signature_length
    digest ← vote_sign_bytes v.typ v.height v.round v.block_hash
    pub_key ← ecrecover digest v.signature
    fail_if (not (pubkey_bytes_to_address pub_key == v.validator)) signer_mismatch
