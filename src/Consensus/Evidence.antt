-- ===== src/Consensus/Evidence.antt =====
-- consensus/evidence.go: double-sign evidence and its fixed-size wire form.
pub mod Wire
pub mod RoundTrip
pub mod DoubleSign
mod Examples
use dew.Base.{
  ℕ, zero, suc, ◌+◌, ◌*◌, ◌/◌, ◌%◌, ◌^◌, Bool, true, false, not, ◌&&◌, ◌||◌, Option, none, some,
  List, [], ◌∷◌, ◌++◌, ◌==◌, if◌then◌else◌, length, drop, take, Result, ok, err, ◌>>=◌, ◌>>◌,
  fail_if,
}
use dew.Consensus.Message.{
  Bytes, Hash, Vote, Crypto, MessageError, vote_prevote, vote_precommit, verify_vote,
  vote_sign_bytes, ecrecover, pubkey_bytes_to_address, from_be,
}

pub data EvidenceError : Type 0 where
  vote_a vote_b wire : MessageError → EvidenceError
  type_mismatch invalid_type slot_mismatch validator_mismatch same_hash both_nil wire_length
        signature_length :
      EvidenceError

abbrev pub of_vote :
    (MessageError → EvidenceError)
    → Result MessageError (Unit {0})
    → Result EvidenceError (Unit {0})
of_vote wrap (ok u) = ok u
of_vote wrap (err x) = err (wrap x)

-- VerifyDoubleSign
unfoldable pub verify_double_sign : Crypto → Vote → Vote → Result EvidenceError (Unit {0})
verify_double_sign c a b = do
  of_vote vote_a (verify_vote c a)
  of_vote vote_b (verify_vote c b)
  fail_if (not (a.typ == b.typ)) type_mismatch
  fail_if (not (a.typ == vote_prevote) && not (a.typ == vote_precommit)) invalid_type
  fail_if (not (a.height == b.height) || not (a.round == b.round)) slot_mismatch
  fail_if (not (a.validator == b.validator)) validator_mismatch
  fail_if (a.block_hash == b.block_hash) same_hash
  fail_if (a.block_hash == 0 && b.block_hash == 0) both_nil

-- type(1) || height(8 BE) || round(8 BE) || blockHash(32) || signature(65)
abbrev pub vote_wire_size : ℕ
vote_wire_size = 114

-- The last bytes of a number, the highest first.
unfoldable pub to_be : ℕ → ℕ → Bytes
to_be zero x = []
to_be (suc n) x = to_be n (x / 256) ++ (x % 256) ∷ []

-- EncodeVoteWire
unfoldable pub encode_vote_wire : Vote → Result EvidenceError Bytes
encode_vote_wire v =
    if length v.signature == 65
    then ok (
        (v.typ % 256)
        ∷ (to_be 8 v.height ++ (to_be 8 v.round ++ (to_be 32 v.block_hash ++ v.signature))))
    else err signature_length

-- The fields that a wire vote carries. The validator is not among them.
unfoldable pub wire_fields : Bytes → Vote
wire_fields b = record {
  typ = from_be 0 (take 1 b);
  height = from_be 0 (take 8 (drop 1 b));
  round = from_be 0 (take 8 (drop 9 b));
  block_hash = from_be 0 (take 32 (drop 17 b));
  validator = 0;
  signature = take 65 (drop 49 b);
}

unfoldable pub of_message :
    (MessageError → EvidenceError) → Result MessageError Bytes → Result EvidenceError Bytes
of_message wrap (ok b) = ok b
of_message wrap (err x) = err (wrap x)

-- The validator is recovered from the signature, so that a submitter cannot name another.
unfoldable pub recover_validator : Crypto → Vote → Result EvidenceError Vote
recover_validator c v = do
  digest ← of_message wire (vote_sign_bytes c v.typ v.height v.round v.block_hash)
  pub_key ← of_message wire (ecrecover c digest v.signature)
  ok (record v { validator = pubkey_bytes_to_address c pub_key })

-- DecodeVoteWire
unfoldable pub decode_vote_wire : Crypto → Bytes → Result EvidenceError Vote
decode_vote_wire c b =
    if length b == vote_wire_size then recover_validator c (wire_fields b) else err wire_length

-- EncodeDoubleSignEvidenceWire
unfoldable pub encode_evidence_wire : Vote → Vote → Result EvidenceError Bytes
encode_evidence_wire a b = do wa ← encode_vote_wire a; wb ← encode_vote_wire b; ok (wa ++ wb)

-- DecodeDoubleSignEvidenceWire
unfoldable pub decode_evidence_wire : Crypto → Bytes → Result EvidenceError (Vote × Vote)
decode_evidence_wire c b =
    if length b == 2 * vote_wire_size
    then (do
      va ← decode_vote_wire c (take vote_wire_size b)
      vb ← decode_vote_wire c (drop vote_wire_size b)
      ok (va, vb))
    else err wire_length

-- Offender
unfoldable pub offender : Vote × Vote → ℕ
offender (a, b) = a.validator
