-- ===== src/Consensus/Message/Toy.antt =====
-- A concrete stand-in for the cryptography of go-ethereum, to run the code of consensus/ on.
use dew.Base.{
  ℕ, zero, suc, ◌≡◌, Option, none, some, [], ◌∷◌, ◌++◌, length, take, ap, sym, arith, refl, ◌+◌,
}
use dew.Consensus.Message.{Bytes, Crypto, from_be}
use dew.Consensus.Message.Signing.{CryptoLaws}

abbrev pub zeros : ℕ → Bytes
zeros zero = []
zeros (suc n) = 0 ∷ zeros n

abbrev pub toy_signature : ℕ → Bytes
toy_signature key = key ∷ zeros 64

abbrev pub toy_public_key : ℕ → Bytes
toy_public_key key = 4 ∷ (zeros 31 ++ key ∷ zeros 32)

abbrev toy_recover : Bytes → Option Bytes
toy_recover [] = none
toy_recover (key ∷ rest) = some (toy_public_key key)

-- A key signs by giving itself away, and its address is its number.
abbrev pub toy : Crypto
toy = record {
  encode_proposal = λ p. some (p.height ∷ p.round ∷ p.block_hash ∷ []);
  encode_vote = λ p. some (p.typ ∷ p.height ∷ p.round ∷ p.block_hash ∷ []);
  keccak256 = λ b. take 32 (b ++ zeros 32);
  eth_sign = λ d key. some (toy_signature key);
  eth_ecrecover = λ d sig. toy_recover sig;
  pubkey_to_address = λ key. key;
  header_hash = λ h. h.number + 1;
}

signs_once : (key : ℕ) (sig : Bytes) → some (toy_signature key) ≡ some sig → toy_signature key ≡ sig
signs_once key sig h = cc

pub toy-CryptoLaws : CryptoLaws toy
unfolding from_be
toy-CryptoLaws = record {
  sign_length = λ d key sig h. sym (ap length (signs_once key sig h));
  public_key = toy_public_key;
  public_key_length = λ key. refl;
  recovers = λ d key sig h. sym (ap toy_recover (signs_once key sig h));
  address = λ key. omega arith;
}
