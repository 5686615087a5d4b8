-- ===== src/Native/Staking/Shares.antt =====
-- core/native/staking.go: the shares of a validator's delegators add up to its total.
use dew.Base.{
  ℕ, ◌+◌, ◌^◌, ◌≤◌, ◌<◌, ◌≡◌, ◌≢◌, refl, ◌∙◌, ap₂, true, false, ◌==◌, ltb, none, some, List, [],
  ◌∷◌, arith, u256, Bool-cases, inl, inr,
}
use dew.Consensus.ValidatorSet.{Address}
use dew.Native.Staking.{
  Staking, StakingConfig, total_underflow, set, set_pair, sub256, wei_to_shares, del_rate, at_most,
}
use dew.Native.Staking.Delegation.{
  settle_rewards, set_debt, accrue, set_shares, delegate_settled, delegate, queue_undelegation,
  remove_shares, undelegate_settled, undelegate,
}
use dew.Native.Executor.{is_listed}
use dew.Native.Executor.Supply.{supply, Once, supply-set, balance-le-supply}

supply-cong :
    (f g : ℕ → ℕ) (ds : List Address) → ((d : Address) → f d ≡ g d) → supply f ds ≡ supply g ds
unfolding supply
supply-cong f g [] h = refl
supply-cong f g (d ∷ ds) h = ap₂ ◌+◌ (h d) (supply-cong f g ds h)

module _ (v d : Address) (ds : List Address) (once : Once ds) (listed : is_listed d ds ≡ true) where
  -- The delegators listed hold all shares of the validator.
  abbrev pub Balanced : Staking → Type 0
  Balanced s = supply (s.shares v) ds ≡ s.total_shares v

  supply-set_pair :
      (f : ℕ → ℕ → ℕ) (x : ℕ) → supply (set_pair f v d x v) ds + f v d ≡ supply (f v) ds + x
  supply-set_pair f x =
      ap₂ ◌+◌
        (supply-cong (set_pair f v d x v) (set (f v) d x) ds
          (λ e. unfold set_pair set in ground arith))
        refl
      ∙ supply-set (f v) d x ds once listed

  settle_rewards-Balanced : (s : Staking) → Balanced s → Balanced (settle_rewards v d s)
  unfolding settle_rewards set_debt accrue
  settle_rewards-Balanced s b = ground (arith, b)

  total-settle : (s : Staking) → (settle_rewards v d s).total_shares v ≡ s.total_shares v
  unfolding settle_rewards set_debt accrue
  total-settle s = ground arith

  wei_to_shares-settle :
      (s : Staking) (x : ℕ) → wei_to_shares (settle_rewards v d s) v x ≡ wei_to_shares s v x
  unfolding settle_rewards set_debt accrue wei_to_shares del_rate
  wei_to_shares-settle s x = ground arith

  set_shares-Balanced :
      (s : Staking) (next total : ℕ)
      → Balanced s
      → s.total_shares v + next ≡ total + s.shares v d
      → Balanced (set_shares v d next total s)
  unfolding set_shares set_debt set
  set_shares-Balanced s next total b h = ground (arith, supply-set_pair s.shares next)

  delegate_settled-Balanced :
      (s : Staking) (amount : ℕ)
      → Balanced s
      → s.total_shares v + wei_to_shares s v amount < 2 ^ 256
      → Balanced (delegate_settled v d amount s).0
  unfolding delegate_settled
  delegate_settled-Balanced s amount b fits = elim (Bool-cases (wei_to_shares s v amount == 0)) [
    | inl small ↦ rw small b
    | inr some_shares ↦ rw some_shares (
        set_shares-Balanced s _ _ b
          (unfold u256 in omega (arith, balance-le-supply (s.shares v) d ds listed)))
  ]

  -- For a delegator among some that are listed once each: if their shares add up to the total of
  -- the validator, they do so after Delegate, with any outcome, while the total stays below 2^256.
  pub delegate-Balanced :
      (s : Staking) (amount : ℕ)
      → Balanced s
      → s.total_shares v + wei_to_shares s v amount < 2 ^ 256
      → Balanced (delegate v d amount s).0
  unfolding delegate
  delegate-Balanced s amount b fits =
      let settled =
        delegate_settled-Balanced (settle_rewards v d s) amount (settle_rewards-Balanced s b)
          (omega (arith, total-settle s, wei_to_shares-settle s amount)) in
      ground (arith, settled, b)

  removed-Balanced :
      (cfg : StakingConfig) (s : Staking) (removed amount now : ℕ)
      → Balanced s
      → s.total_shares v < 2 ^ 256
      → removed ≤ s.shares v d
      → Balanced (remove_shares cfg v d removed amount now s).0
        × ((remove_shares cfg v d removed amount now s).1 ≡ none)
  unfolding remove_shares queue_undelegation
  removed-Balanced cfg s removed amount now b fits le =
      let total : ltb (s.total_shares v) removed ≡ false =
        ground (arith, balance-le-supply (s.shares v) d ds listed) in
      rw total (
        set_shares-Balanced s _ _ b
            (unfold sub256 u256 in omega (arith, balance-le-supply (s.shares v) d ds listed)),
        refl,
      )

  undelegate_settled-Balanced :
      (cfg : StakingConfig) (s : Staking) (amount now : ℕ)
      → Balanced s
      → s.total_shares v < 2 ^ 256
      → Balanced (undelegate_settled cfg v d amount now s).0
        × ((undelegate_settled cfg v d amount now s).1 ≢ some total_underflow)
  unfolding undelegate_settled
  undelegate_settled-Balanced cfg s amount now b fits =
      let (kept, done) =
        removed-Balanced cfg s (at_most (s.shares v d) (wei_to_shares s v amount)) amount now b fits
          (ground arith) in
      (ground (arith, kept), ground (arith, done))

  -- For a delegator among some that are listed once each: if their shares add up to the total of
  -- the validator, which is below 2^256, they do so after Undelegate, with any outcome, and it
  -- never finds less in the total than it takes from the delegator.
  pub undelegate-Balanced :
      (cfg : StakingConfig) (s : Staking) (amount now : ℕ)
      → Balanced s
      → s.total_shares v < 2 ^ 256
      → Balanced (undelegate cfg v d amount now s).0
        × ((undelegate cfg v d amount now s).1 ≢ some total_underflow)
  unfolding undelegate
  undelegate-Balanced cfg s amount now b fits =
      let (kept, done) =
        undelegate_settled-Balanced cfg (settle_rewards v d s) amount now
          (settle_rewards-Balanced s b) (omega (arith, total-settle s)) in
      (ground (arith, kept, b), ground (arith, done))
