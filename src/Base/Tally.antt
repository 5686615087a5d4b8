-- ===== src/Base/Tally.antt =====
-- How often a test holds on a stretch of numbers.
use native.Mathlib.Nat.{mod-eq_of_lt, add-mod_right}
use dew.Base.{
  ℕ, zero, suc, ◌+◌, ◌%◌, ◌<◌, ◌≡◌, refl, ap, ◌∙◌, Bool, true, false, if◌then◌else◌, arith,
}

-- The numbers from `b` on, `n` of them.
unfoldable pub tally : (ℕ → Bool) → ℕ → ℕ → ℕ
tally p b zero = 0
tally p b (suc n) = (if p b then 1 else 0) + tally p (b + 1) n

pub tally-cong :
    (p q : ℕ → Bool) (b c n : ℕ)
    → ((k : ℕ) → k < n → p (b + k) ≡ q (c + k))
    → tally p b n ≡ tally q c n
unfolding tally
tally-cong p q b c zero h = refl
tally-cong p q b c (suc n) h = ground (arith, first, tally-cong p q (b + 1) (c + 1) n next)
  where
    first : p b ≡ q c
    first = ap p (omega arith) ∙ h 0 (omega arith) ∙ ap q (omega arith)

    next : (k : ℕ) → k < n → p (b + 1 + k) ≡ q (c + 1 + k)
    next k lt = ap p (omega arith) ∙ h (k + 1) (omega arith) ∙ ap q (omega arith)

pub tally-add : (p : ℕ → Bool) (b m n : ℕ) → tally p b (m + n) ≡ tally p b m + tally p (b + m) n
unfolding tally
tally-add p b zero n =
    let e : 0 + n ≡ n = omega arith in let e' : b + 0 ≡ b = omega arith in rw (e, e') (omega arith)
tally-add p b (suc m) n =
    let e : b + suc m ≡ b + 1 + m = omega arith in
    let e' : suc m + n ≡ suc (m + n) = omega arith in
    rw (e, e') (omega (arith, tally-add p (b + 1) m n))

pub tally_const :
    (p : ℕ → Bool) (t : Bool) (b n : ℕ)
    → ((k : ℕ) → k < n → p (b + k) ≡ t)
    → tally p b n ≡ (if t then n else 0)
unfolding tally
tally_const p true b zero h = refl
tally_const p false b zero h = refl
tally_const p t b (suc n) h = ground (arith, first, tally_const p t (b + 1) n next)
  where
    first : p b ≡ t
    first = ap p (omega arith) ∙ h 0 (omega arith)

    next : (k : ℕ) → k < n → p (b + 1 + k) ≡ t
    next k lt = ap p (omega arith) ∙ h (k + 1) (omega arith)

tally_rotate : (p : ℕ → Bool) (b n : ℕ) → p (b + n) ≡ p b → tally p (b + 1) n ≡ tally p b n
unfolding tally
tally_rotate p b n h =
    ground (arith, h, tally-add p b n 1, ap (tally p b) {x = n + 1} {y = suc n} (omega arith))

-- A test that looks only at the remainder holds equally often on each full cycle.
pub tally_cycle : (p : ℕ → Bool) (n b : ℕ) → 0 < n → tally (λ k. p (k % n)) b n ≡ tally p 0 n
tally_cycle p n zero pos = tally-cong _ p 0 0 n (λ k lt. ap p (mod-eq_of_lt (omega arith) ∙ refl))
tally_cycle p n (suc b) pos =
    ap (λ c. tally (λ k. p (k % n)) c n) {x = suc b} {y = b + 1} (omega arith)
    ∙ tally_rotate (λ k. p (k % n)) b n (ap p (add-mod_right b n))
    ∙ tally_cycle p n b pos
