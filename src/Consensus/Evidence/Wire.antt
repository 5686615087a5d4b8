-- ===== src/Consensus/Evidence/Wire.antt =====
-- consensus/evidence.go: what is encoded is decoded.
use native.Mathlib.Nat.{pow-suc}
use dew.Base.{
  ℕ, zero, suc, ◌+◌, ◌*◌, ◌/◌, ◌%◌, ◌^◌, ◌<◌, ◌≡◌, refl, ap, ◌∙◌, List, [], ◌∷◌, ◌++◌, length, drop,
  take, length-append, arith,
}
use dew.Consensus.Message.{Bytes, Vote, from_be}
use dew.Consensus.Evidence.{to_be, wire_fields, vote_wire_size}

pub take-append {ℓ} : {A : Type ℓ} (n : ℕ) (xs ys : List A) → length xs ≡ n → take n (xs ++ ys) ≡ xs
take-append zero [] ys e = refl
take-append zero (x ∷ xs) ys e = absurd (omega arith)
take-append (suc n) [] ys e = absurd (omega arith)
take-append (suc n) (x ∷ xs) ys e = ap (λ l. x ∷ l) (take-append n xs ys (omega arith))

pub drop-append {ℓ} :
    {A : Type ℓ} (m n k : ℕ) (xs ys : List A)
    → length xs ≡ n
    → k ≡ n + m
    → drop k (xs ++ ys) ≡ drop m ys
drop-append m zero k [] ys e h = ap (λ j. drop j ys) (omega arith)
drop-append m zero k (x ∷ xs) ys e h = absurd (omega arith)
drop-append m (suc n) k [] ys e h = absurd (omega arith)
drop-append m (suc n) zero (x ∷ xs) ys e h = absurd (omega arith)
drop-append m (suc n) (suc k) (x ∷ xs) ys e h = drop-append m n k xs ys (omega arith) (omega arith)

pub take_all {ℓ} : {A : Type ℓ} (n : ℕ) (xs : List A) → length xs ≡ n → take n xs ≡ xs
take_all zero [] e = refl
take_all zero (x ∷ xs) e = absurd (omega arith)
take_all (suc n) [] e = absurd (omega arith)
take_all (suc n) (x ∷ xs) e = ap (λ l. x ∷ l) (take_all n xs (omega arith))

length-to_be : (n x : ℕ) → length (to_be n x) ≡ n
unfolding to_be
length-to_be zero x = refl
length-to_be (suc n) x =
    length-append (to_be n (x / 256)) ((x % 256) ∷ []) ∙ omega (arith, length-to_be n (x / 256))

from_be-append :
    (acc : ℕ) (xs : Bytes) (b : ℕ) → from_be acc (xs ++ b ∷ []) ≡ from_be acc xs * 256 + b
unfolding from_be
from_be-append acc [] b = refl
from_be-append acc (x ∷ xs) b = from_be-append (acc * 256 + x) xs b

-- A number that fits into the bytes comes back.
from_be-to_be : (n x : ℕ) → x < 256 ^ n → from_be 0 (to_be n x) ≡ x
unfolding to_be from_be
from_be-to_be zero x h = omega arith
from_be-to_be (suc n) x h =
    from_be-append 0 (to_be n (x / 256)) (x % 256)
    ∙ omega (arith, from_be-to_be n (x / 256) (omega (arith, h, pow-suc 256 n)))

-- The ranges of a vote's Go types.
pub record IsWire (v : Vote) : Type 0 where
  pub typ : v.typ < 256
  pub height : v.height < 2 ^ 64
  pub round : v.round < 2 ^ 64
  pub block_hash : v.block_hash < 2 ^ 256
  pub signature : length v.signature ≡ 65

abbrev pub wire_of : Vote → Bytes
wire_of v =
    (v.typ % 256)
    ∷ (to_be 8 v.height ++ (to_be 8 v.round ++ (to_be 32 v.block_hash ++ v.signature)))

module _ (v : Vote) (w : IsWire v) where
  wire_fields-height : from_be 0 (take 8 (drop 1 (wire_of v))) ≡ v.height
  wire_fields-height =
      ap (from_be 0) (take-append 8 (to_be 8 v.height) _ (length-to_be 8 v.height))
      ∙ from_be-to_be 8 v.height w.height

  wire_fields-round : from_be 0 (take 8 (drop 9 (wire_of v))) ≡ v.round
  wire_fields-round =
      ap (λ l. from_be 0 (take 8 l))
        (drop-append 0 8 8 (to_be 8 v.height) _ (length-to_be 8 v.height) refl)
      ∙ ap (from_be 0) (take-append 8 (to_be 8 v.round) _ (length-to_be 8 v.round))
      ∙ from_be-to_be 8 v.round w.round

  wire_fields-hash : from_be 0 (take 32 (drop 17 (wire_of v))) ≡ v.block_hash
  wire_fields-hash =
      ap (λ l. from_be 0 (take 32 l))
        (drop-append 8 8 16 (to_be 8 v.height) _ (length-to_be 8 v.height) refl
          ∙ drop-append 0 8 8 (to_be 8 v.round) _ (length-to_be 8 v.round) refl)
      ∙ ap (from_be 0) (take-append 32 (to_be 32 v.block_hash) _ (length-to_be 32 v.block_hash))
      ∙ from_be-to_be 32 v.block_hash w.block_hash

  wire_fields-signature : take 65 (drop 49 (wire_of v)) ≡ v.signature
  wire_fields-signature =
      ap (take 65) (
        drop-append 40 8 48 (to_be 8 v.height) _ (length-to_be 8 v.height) refl
        ∙ drop-append 32 8 40 (to_be 8 v.round) _ (length-to_be 8 v.round) refl
        ∙ drop-append 0 32 32 (to_be 32 v.block_hash) _ (length-to_be 32 v.block_hash) refl)
      ∙ take_all 65 v.signature w.signature

  pub wire_fields-wire_of : wire_fields (wire_of v) ≡ record v { validator = 0 }
  unfolding wire_fields from_be
  wire_fields-wire_of =
      let t : 0 * 256 + v.typ % 256 ≡ v.typ = omega (arith, w.typ) in
      cc (t, wire_fields-height, wire_fields-round, wire_fields-hash, wire_fields-signature)

  pub length-wire_of : length (wire_of v) ≡ vote_wire_size
  length-wire_of = omega (
    arith,
    length-append (to_be 8 v.height) (to_be 8 v.round ++ (to_be 32 v.block_hash ++ v.signature)),
    length-append (to_be 8 v.round) (to_be 32 v.block_hash ++ v.signature),
    length-append (to_be 32 v.block_hash) v.signature,
    length-to_be 8 v.height,
    length-to_be 8 v.round,
    length-to_be 32 v.block_hash,
    w.signature,
  )
