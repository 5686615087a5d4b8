-- ===== src/Native/Staking/Slashing.antt =====
-- core/native/staking.go: what SlashAndJail burns and leaves.
use dew.Base.{
  ap, ◌==◌, ltb, if◌then◌else◌, ◌≢◌, ◌∙◌, ℕ, ◌+◌, ◌*◌, ◌/◌, ◌^◌, ◌<◌, ◌≡◌, true, false, arith, u256,
}
use dew.Consensus.ValidatorSet.{Address}
use dew.Native.Staking.{
  Ledger, module_address, set, sub256, is_jailed, voting_power, self_burn, delegated_burn,
  burn_self, burn_delegated, del_rate, shares_to_wei, delegated_total, burned_rate, Staking, jail,
  slash_and_jail,
}

abbrev pub smaller : ℕ → ℕ → ℕ
smaller m n = if ltb m n then m else n

abbrev pub at_least_one : ℕ → ℕ
at_least_one n = if n == 0 then 1 else n

burned_rate-pos : (r : ℕ) → burned_rate r ≢ 0
unfolding burned_rate
burned_rate-pos r = ground arith

burn_self-rate : (a : Address) (s : Staking) → del_rate (burn_self a s) a ≡ del_rate s a
unfolding burn_self del_rate
burn_self-rate a s = ground arith

burn_delegated-rate :
    (a : Address) (s : Staking)
    → delegated_burn s a ≢ 0
    → del_rate (jail a (burn_delegated a s)) a ≡ burned_rate (del_rate s a)
unfolding jail burn_delegated set del_rate
burn_delegated-rate a s burns = ground (arith, burns, burned_rate-pos (del_rate s a))

burn_delegated-kept_rate :
    (a : Address) (s : Staking)
    → delegated_burn s a ≡ 0
    → del_rate (jail a (burn_delegated a s)) a ≡ del_rate s a
unfolding jail burn_delegated set del_rate
burn_delegated-kept_rate a s none_burned = ground (arith, none_burned)

module _ (a : Address) (l : Ledger) where
  -- After a SlashAndJail, a second one of the same validator burns nothing and changes nothing.
  pub slash_and_jail-again : slash_and_jail a (slash_and_jail a l).0 ≡ ((slash_and_jail a l).0, 0)
  unfolding slash_and_jail jail set
  slash_and_jail-again = ground arith

  -- One part in twenty of what is delegated to the validator.
  abbrev pub twentieth : ℕ
  twentieth = delegated_total l.staking a / 20

  -- What a first SlashAndJail leaves of the validator, takes from the module's escrow, and leaves
  -- alone.
  pub record Slashed (l' : Ledger) (burn : ℕ) : Type 0 where
    pub jailed : is_jailed l'.staking a ≡ true
    pub powerless : voting_power l'.staking a ≡ 0
    pub no_self_stake : l'.staking.self_stake a ≡ 0
    pub burned : burn ≡ smaller (l.balance module_address) (l.staking.self_stake a + twentieth)
    pub escrow : l'.balance module_address + burn ≡ l.balance module_address
    pub slashed_rate :
        twentieth ≢ 0 → del_rate l'.staking a ≡ at_least_one (del_rate l.staking a * 19 / 20)
    pub kept_rate : twentieth ≡ 0 → del_rate l'.staking a ≡ del_rate l.staking a
    pub kept_shares : l'.staking.total_shares a ≡ l.staking.total_shares a
    pub others :
        (b : Address)
        → a ≢ b
        → (l'.staking.self_stake b ≡ l.staking.self_stake b)
          × (is_jailed l'.staking b ≡ is_jailed l.staking b)
          × (del_rate l'.staking b ≡ del_rate l.staking b)

  module _ (free : is_jailed l.staking a ≡ false) (small : l.staking.self_stake a * 10000 < 2 ^ 256)
      (delegated_small : delegated_total l.staking a * 500 < 2 ^ 256)
      (rate_small : del_rate l.staking a * 9500 < 2 ^ 256) where
    self_burn-exact : self_burn l.staking a ≡ l.staking.self_stake a
    unfolding self_burn u256
    self_burn-exact = ground arith

    burn_self-delegated_total :
        delegated_total (burn_self a l.staking) a ≡ delegated_total l.staking a
    unfolding burn_self shares_to_wei del_rate
    burn_self-delegated_total = ground arith

    delegated_burn-exact : delegated_burn (burn_self a l.staking) a ≡ twentieth
    unfolding delegated_burn u256
    delegated_burn-exact = rw burn_self-delegated_total (omega arith)

    burned_rate-exact :
        burned_rate (del_rate l.staking a) ≡ at_least_one (del_rate l.staking a * 19 / 20)
    unfolding burned_rate u256
    burned_rate-exact =
        let next : u256 (del_rate l.staking a * 9500) / 10000 ≡ del_rate l.staking a * 19 / 20 =
          unfold u256 in omega arith in
        ap at_least_one next

    -- The storage of the module after the call.
    abbrev after : Staking
    after = jail a (burn_delegated a (burn_self a l.staking))

    cut_rate : twentieth ≢ 0 → del_rate after a ≡ at_least_one (del_rate l.staking a * 19 / 20)
    cut_rate some_left =
        burn_delegated-rate a (burn_self a l.staking)
          (omega (arith, delegated_burn-exact, some_left))
        ∙ ap burned_rate (burn_self-rate a l.staking)
        ∙ burned_rate-exact

    same_rate : twentieth ≡ 0 → del_rate after a ≡ del_rate l.staking a
    same_rate none_left =
        burn_delegated-kept_rate a (burn_self a l.staking) (delegated_burn-exact ∙ none_left)
        ∙ burn_self-rate a l.staking

    -- SlashAndJail of a validator that is not jailed burns its whole self-stake and one part in
    -- twenty, rounded down, of what is delegated to it, or all that the module holds where that is
    -- less, and takes the burn from the balance of the module. It leaves the validator jailed and
    -- with no voting power. Where that part is not zero, it cuts the rate of its shares to nineteen
    -- parts in twenty, rounded down and at least one; else the rate stays. The total of its shares,
    -- and the stakes, jail flags and rates of the others, stay. Ten thousand times the self-stake,
    -- 500 times what is delegated, 9500 times the rate, and the balance of the module are to be
    -- below 2^256.
    pub slash_and_jail-Slashed :
        l.balance module_address < 2 ^ 256 → Slashed (slash_and_jail a l).0 (slash_and_jail a l).1
    unfolding slash_and_jail
    slash_and_jail-Slashed held = rw free (record {
      jailed = unfold jail set in ground arith;
      powerless = unfold voting_power jail set in ground arith;
      no_self_stake =
          unfold jail burn_delegated burn_self set sub256 u256 in ground (arith, self_burn-exact);
      burned =
          rw (self_burn-exact, delegated_burn-exact)
            (ap (smaller (l.balance module_address)) (unfold u256 in omega arith));
      escrow = unfold set sub256 u256 in ground arith;
      slashed_rate = cut_rate;
      kept_rate = same_rate;
      kept_shares = unfold jail burn_delegated burn_self in ground arith;
      others = λ b other.
          unfold jail burn_delegated burn_self set del_rate in
          (ground arith, ground arith, ground arith);
    })
