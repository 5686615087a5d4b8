-- ===== src/Native/Executor/Supply.antt =====
-- The sum of the balances of some accounts, and what one credit or debit does to it.
use dew.Base.{
  ℕ, ◌+◌, ◌^◌, ◌≤◌, ◌<◌, ◌≡◌, ◌≢◌, refl, true, List, [], ◌∷◌, ◌==◌, Bool-cases, All, arith, u256,
  inl, inr,
}
use dew.Consensus.ValidatorSet.{Address}
use dew.Native.Staking.{Ledger, set, sub256}
use dew.Native.Executor.{add_balance, sub_balance, is_listed}

unfoldable pub supply : (ℕ → ℕ) → List Address → ℕ
supply f [] = 0
supply f (a ∷ accounts) = f a + supply f accounts

-- Each account is listed once.
abbrev pub Once : List Address → Type 0
Once [] = Unit
Once (a ∷ accounts) = All (λ b. a ≢ b) accounts × Once accounts

supply-set_other :
    (f : ℕ → ℕ) (a v : ℕ) (accounts : List Address)
    → All (λ b. a ≢ b) accounts
    → supply (set f a v) accounts ≡ supply f accounts
unfolding supply set
supply-set_other f a v [] n = refl
supply-set_other f a v (b ∷ bs) n = ground (arith, n.0, supply-set_other f a v bs n.1)

pub supply-set :
    (f : ℕ → ℕ) (a v : ℕ) (accounts : List Address)
    → Once accounts
    → is_listed a accounts ≡ true
    → supply (set f a v) accounts + f a ≡ supply f accounts + v
unfolding supply set is_listed
supply-set f a v [] o h = cc
supply-set f a v (b ∷ bs) o h = elim (Bool-cases (b == a)) [
  | inl e ↦ ground (arith, supply-set_other f b v bs o.0)
  | inr e ↦ ground (arith, supply-set f a v bs o.1 (rw e at h))
]

pub balance-le-supply :
    (f : ℕ → ℕ) (a : ℕ) (accounts : List Address)
    → is_listed a accounts ≡ true
    → f a ≤ supply f accounts
unfolding supply is_listed
balance-le-supply f a [] h = cc
balance-le-supply f a (b ∷ bs) h = elim (Bool-cases (b == a)) [
  | inl e ↦ ground arith
  | inr e ↦ omega (arith, balance-le-supply f a bs (rw e at h))
]

module _ (accounts : List Address) (once : Once accounts) (a x : ℕ) (l : Ledger)
    (listed : is_listed a accounts ≡ true) where
  pub supply-add_balance :
      supply l.balance accounts + x < 2 ^ 256
      → supply (add_balance a x l).balance accounts ≡ supply l.balance accounts + x
  unfolding add_balance u256
  supply-add_balance fits = ground (
    arith,
    supply-set l.balance a (u256 (l.balance a + x)) accounts once listed,
    balance-le-supply l.balance a accounts listed,
  )

  pub supply-sub_balance :
      supply l.balance accounts < 2 ^ 256
      → x ≤ l.balance a
      → supply (sub_balance a x l).balance accounts + x ≡ supply l.balance accounts
  unfolding sub_balance sub256 u256
  supply-sub_balance fits le = ground (
    arith,
    supply-set l.balance a (sub256 (l.balance a) x) accounts once listed,
    balance-le-supply l.balance a accounts listed,
  )
