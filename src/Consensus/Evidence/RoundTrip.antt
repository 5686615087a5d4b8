-- ===== src/Consensus/Evidence/RoundTrip.antt =====
-- consensus/evidence.go: a vote and evidence of two votes survive the wire.
use dew.Base.{
  ◌*◌, ◌≡◌, refl, sym, ap, ap₂, ◌∙◌, true, not, ◌&&◌, ◌++◌, ◌==◌, length, drop, take, length-append,
  arith, ok, >>=-eq-ok, ok-injective, fail_if, ◌⊎◌,
}
use dew.Consensus.Message.{
  Bytes, Vote, Crypto, verify_vote, vote_sign_bytes, ecrecover, pubkey_bytes_to_address,
  vote_prevote, vote_precommit, invalid_vote_type, bad_signature_length,
}
use dew.Consensus.Evidence.{
  encode_vote_wire, recover_validator, of_message, decode_vote_wire, vote_wire_size,
  encode_evidence_wire, decode_evidence_wire,
}
use dew.Consensus.Evidence.Wire.{
  IsWire, wire_of, wire_fields-wire_of, length-wire_of, take-append, drop-append,
}

module _ (c : Crypto) where
  -- What VerifyVote has seen of a vote that it accepts.
  record Verified (v : Vote) : Type 0 where
    digest : Bytes
    pub_key : Bytes
    signed : vote_sign_bytes c v.typ v.height v.round v.block_hash ≡ ok digest
    recovered : ecrecover c digest v.signature ≡ ok pub_key
    signer : pubkey_bytes_to_address c pub_key ≡ v.validator
    typ : (v.typ ≡ vote_prevote) ⊎ (v.typ ≡ vote_precommit)
    signature : length v.signature ≡ 65

  verified : (v : Vote) → verify_vote c v ≡ ok tt → Verified v
  unfolding verify_vote
  verified v h =
      let (t, ht, h1) =
        >>=-eq-ok
          (fail_if (not (v.typ == vote_prevote) && not (v.typ == vote_precommit)) invalid_vote_type)
          _ h in
      let (u, hl, h2) =
        >>=-eq-ok (fail_if (not (length v.signature == 65)) bad_signature_length) _ h1 in
      let (d, hd, h3) = >>=-eq-ok (vote_sign_bytes c v.typ v.height v.round v.block_hash) _ h2 in
      let (pk, hp, h4) = >>=-eq-ok (ecrecover c d v.signature) _ h3 in
      record {
        digest = d;
        pub_key = pk;
        signed = hd;
        recovered = hp;
        signer = ground arith;
        typ = ground arith;
        signature = ground arith;
      }

  recover_validator-Verified :
      (v : Vote) → Verified v → recover_validator c (record v { validator = 0 }) ≡ ok v
  unfolding recover_validator of_message
  recover_validator-Verified v h = rw (h.signed, h.recovered) (rw h.signer)

  encoded : (v : Vote) (b : Bytes) → encode_vote_wire v ≡ ok b → wire_of v ≡ b
  unfolding encode_vote_wire
  encoded v b e = ground arith

  decode-wire_of :
      (v : Vote) → IsWire v → verify_vote c v ≡ ok tt → decode_vote_wire c (wire_of v) ≡ ok v
  unfolding decode_vote_wire
  decode-wire_of v w accepted =
      let n : (length (wire_of v) == vote_wire_size) ≡ true = ground (arith, length-wire_of v w) in
      rw n (
        ap (recover_validator c) (wire_fields-wire_of v w)
        ∙ recover_validator-Verified v (verified v accepted))

  halves :
      (va vb : Vote)
      → IsWire va
      → IsWire vb
      → verify_vote c va ≡ ok tt
      → verify_vote c vb ≡ ok tt
      → decode_evidence_wire c (wire_of va ++ wire_of vb) ≡ ok (va, vb)
  unfolding decode_evidence_wire
  halves va vb wa wb ha hb =
      let n : (length (wire_of va ++ wire_of vb) == 2 * vote_wire_size) ≡ true = ground (
        arith,
        length-append (wire_of va) (wire_of vb),
        length-wire_of va wa,
        length-wire_of vb wb,
      ) in
      rw (n, first, second) refl
    where
      first : decode_vote_wire c (take vote_wire_size (wire_of va ++ wire_of vb)) ≡ ok va
      first =
          ap (decode_vote_wire c)
            (take-append vote_wire_size (wire_of va) (wire_of vb) (length-wire_of va wa))
          ∙ decode-wire_of va wa ha

      second : decode_vote_wire c (drop vote_wire_size (wire_of va ++ wire_of vb)) ≡ ok vb
      second =
          ap (decode_vote_wire c) (
            drop-append 0 vote_wire_size vote_wire_size (wire_of va) (wire_of vb)
              (length-wire_of va wa) refl)
          ∙ decode-wire_of vb wb hb

  -- A vote that VerifyVote accepts, with fields in the ranges of their types, is decoded from its
  -- wire form, validator included.
  pub decode-encode_vote :
      (v : Vote) (b : Bytes)
      → IsWire v
      → verify_vote c v ≡ ok tt
      → encode_vote_wire v ≡ ok b
      → decode_vote_wire c b ≡ ok v
  decode-encode_vote v b w accepted e =
      ap (decode_vote_wire c) (sym (encoded v b e)) ∙ decode-wire_of v w accepted

  -- Evidence of two votes that VerifyVote accepts, with fields in the ranges of their types, is
  -- decoded from its wire form, validators included.
  pub decode-encode_evidence :
      (va vb : Vote) (b : Bytes)
      → IsWire va
      → IsWire vb
      → verify_vote c va ≡ ok tt
      → verify_vote c vb ≡ ok tt
      → encode_evidence_wire va vb ≡ ok b
      → decode_evidence_wire c b ≡ ok (va, vb)
  unfolding encode_evidence_wire
  decode-encode_evidence va vb b wa wb ha hb e =
      let (ba, ea, rest) = >>=-eq-ok (encode_vote_wire va) _ e in
      let (bb, eb, last) = >>=-eq-ok (encode_vote_wire vb) _ rest in
      let joined : wire_of va ++ wire_of vb ≡ b =
        ap₂ ◌++◌ (encoded va ba ea) (encoded vb bb eb) ∙ ok-injective last in
      ap (decode_evidence_wire c) (sym joined) ∙ halves va vb wa wb ha hb
