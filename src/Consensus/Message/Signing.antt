-- ===== src/Consensus/Message/Signing.antt =====
-- consensus/messages.go: what is signed is accepted, under the signer's address.
use dew.Base.{ℕ, ◌≡◌, ◌⊎◌, some, drop, take, length, arith, ok, >>=-eq-ok}
use dew.Consensus.Message.{
  Bytes, Vote, Proposal, Crypto, vote_prevote, vote_precommit, sign_vote, verify_vote,
  sign_proposal, verify_proposal, from_be, sign, ecrecover, vote_sign_bytes,
  pubkey_bytes_to_address, proposal_sign_bytes,
}

-- A signature changes no field but itself and the validator.
pub sign_vote-keeps :
    (c : Crypto) (v w : Vote) (key : ℕ)
    → sign_vote c v key ≡ ok w
    → (w.typ ≡ v.typ) × (w.height ≡ v.height) × (w.round ≡ v.round) × (w.block_hash ≡ v.block_hash)
unfolding sign_vote
sign_vote-keeps c v w key h = ground arith

-- What go-ethereum documents of the functions that the code takes from it.
pub record CryptoLaws (c : Crypto) : Type 0 where
  -- Sign returns R || S || V.
  pub sign_length :
      (d : Bytes) (key : ℕ) (sig : Bytes) → c.eth_sign d key ≡ some sig → length sig ≡ 65
  -- Ecrecover gives back the uncompressed public key of the signer.
  pub public_key : ℕ → Bytes
  pub public_key_length : (key : ℕ) → length (public_key key) ≡ 65
  pub recovers :
      (d : Bytes) (key : ℕ) (sig : Bytes)
      → c.eth_sign d key ≡ some sig
      → c.eth_ecrecover d sig ≡ some (public_key key)
  -- PubkeyToAddress is Keccak-256 of the key without its first byte, bytes 12 to 31.
  pub address :
      (key : ℕ)
      → c.pubkey_to_address key
        ≡ from_be 0 (take 20 (drop 12 (c.keccak256 (drop 1 (public_key key)))))

module _ (c : Crypto) (laws : CryptoLaws c) where
  recovered :
      (d : Bytes) (key : ℕ) (sig : Bytes)
      → sign c d key ≡ ok sig
      → (length sig ≡ 65) × (ecrecover c d sig ≡ ok (laws.public_key key))
  unfolding sign ecrecover
  recovered d key sig h = ground (arith, laws.sign_length d key sig, laws.recovers d key sig)

  signer : (key : ℕ) → pubkey_bytes_to_address c (laws.public_key key) ≡ c.pubkey_to_address key
  unfolding pubkey_bytes_to_address
  signer key = ground (arith, laws.public_key_length key, laws.address key)

  signed_vote-accepted :
      (v : Vote) (d sig : Bytes) (key : ℕ)
      → (v.typ ≡ vote_prevote) ⊎ (v.typ ≡ vote_precommit)
      → vote_sign_bytes c v.typ v.height v.round v.block_hash ≡ ok d
      → sign c d key ≡ ok sig
      → verify_vote c (record v { signature = sig; validator = c.pubkey_to_address key }) ≡ ok tt
  unfolding verify_vote
  signed_vote-accepted v d sig key t hd hs = ground (arith, recovered d key sig hs, signer key)

  signed_proposal-accepted :
      (p : Proposal) (d sig : Bytes) (key : ℕ)
      → proposal_sign_bytes c p.height p.round p.block_hash ≡ ok d
      → sign c d key ≡ ok sig
      → verify_proposal c (record p { signature = sig; proposer = c.pubkey_to_address key }) ≡ ok tt
  unfolding verify_proposal
  signed_proposal-accepted p d sig key hd hs = ground (arith, recovered d key sig hs, signer key)

  -- With cryptography as documented, a vote of a valid type that SignVote has signed passes
  -- VerifyVote, and names the address of the key.
  pub verify-sign_vote :
      (v w : Vote) (key : ℕ)
      → (v.typ ≡ vote_prevote) ⊎ (v.typ ≡ vote_precommit)
      → sign_vote c v key ≡ ok w
      → (verify_vote c w ≡ ok tt) × (w.validator ≡ c.pubkey_to_address key)
  unfolding sign_vote
  verify-sign_vote v w key t h =
      let (d, hd, rest) = >>=-eq-ok (vote_sign_bytes c v.typ v.height v.round v.block_hash) _ h in
      let (sig, hs, e) = >>=-eq-ok (sign c d key) _ rest in
      let same : record v { signature = sig; validator = c.pubkey_to_address key } ≡ w =
        ground arith in
      (rw (← same) (signed_vote-accepted v d sig key t hd hs), rw (← same))

  -- With cryptography as documented, a proposal that SignProposal has signed passes VerifyProposal,
  -- and names the address of the key.
  pub verify-sign_proposal :
      (p q : Proposal) (key : ℕ)
      → sign_proposal c p key ≡ ok q
      → (verify_proposal c q ≡ ok tt) × (q.proposer ≡ c.pubkey_to_address key)
  unfolding sign_proposal
  verify-sign_proposal p q key h =
      let (d, hd, rest) = >>=-eq-ok (proposal_sign_bytes c p.height p.round p.block_hash) _ h in
      let (sig, hs, e) = >>=-eq-ok (sign c d key) _ rest in
      let same : record p { signature = sig; proposer = c.pubkey_to_address key } ≡ q =
        ground arith in
      (rw (← same) (signed_proposal-accepted p d sig key hd hs), rw (← same))
