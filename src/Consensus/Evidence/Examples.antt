-- ===== src/Consensus/Evidence/Examples.antt =====
-- consensus/evidence.go at concrete votes.
use dew.Base.{ℕ, ◌≡◌, ◌≢◌, refl, ◌<◌, ◌^◌, some, ◌∷◌, ◌++◌, ok, get_elem?, arith, ap}
use dew.Consensus.Message.{
  Vote, Bytes, verify_vote, vote_sign_bytes, digest_of, ecrecover, pubkey_bytes_to_address, from_be,
}
use dew.Consensus.Message.Toy.{toy, toy_signature, zeros}
use dew.Consensus.Engine.Toy.{
  env, engine, one_set, header_at, one_round, made, vote_of, sent_in_round,
}
use dew.Consensus.Engine.System.{run, fresh_system}
use dew.Consensus.Evidence.{
  verify_double_sign, encode_vote_wire, encode_evidence_wire, decode_evidence_wire, to_be,
}
use dew.Consensus.Evidence.Wire.{IsWire}
use dew.Consensus.Evidence.RoundTrip.{decode-encode_evidence}
use dew.Consensus.Evidence.DoubleSign.{engine_never_slashable}

abbrev vote_for : ℕ → Vote
vote_for block_hash = record {
  typ = 1;
  height = 5;
  round = 2;
  block_hash = block_hash;
  validator = 9;
  signature = toy_signature 9;
}

abbrev wire : ℕ → Bytes
wire block_hash = 1 ∷ zeros 7 ++ 5 ∷ zeros 7 ++ 2 ∷ zeros 31 ++ block_hash ∷ toy_signature 9

verified : (h : ℕ) → verify_vote toy (vote_for h) ≡ ok tt
unfolding verify_vote vote_sign_bytes digest_of ecrecover pubkey_bytes_to_address from_be
verified h = ground arith

encoded : encode_vote_wire (vote_for 77) ≡ ok (wire 77)
unfolding encode_vote_wire to_be
encoded = refl

both_encoded : encode_evidence_wire (vote_for 77) (vote_for 78) ≡ ok (wire 77 ++ wire 78)
unfolding encode_evidence_wire encode_vote_wire to_be
both_encoded = refl

fits : (h : ℕ) → h < 2 ^ 256 → IsWire (vote_for h)
fits h lt = record {
  typ = omega arith;
  height = omega arith;
  round = omega arith;
  block_hash = lt;
  signature = refl;
}

decode-encode_evidence_example :
    decode_evidence_wire toy (wire 77 ++ wire 78) ≡ ok (vote_for 77, vote_for 78)
decode-encode_evidence_example =
    decode-encode_evidence toy (vote_for 77) (vote_for 78) (wire 77 ++ wire 78)
      (fits 77 (omega arith)) (fits 78 (omega arith)) (verified 77) (verified 78) both_encoded

sent_first : get_elem? (run env (fresh_system engine) one_round).sent 0 ≡ some (vote_of 2)
sent_first = ap (λ vs. get_elem? vs 0) sent_in_round

sent_second : get_elem? (run env (fresh_system engine) one_round).sent 1 ≡ some (vote_of 1)
sent_second = ap (λ vs. get_elem? vs 1) sent_in_round

engine_never_slashable_example : verify_double_sign env.crypto (vote_of 2) (vote_of 1) ≢ ok tt
engine_never_slashable_example =
    engine_never_slashable env 9 one_set (header_at 4) 0 engine one_round 0 1 (vote_of 2)
      (vote_of 1) made (omega arith) sent_first sent_second
