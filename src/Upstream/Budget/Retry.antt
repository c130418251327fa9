-- ===== src/Upstream/Budget/Retry.antt =====
-- A full bucket lets a burst of `limit` calls through, and a refusal says when to come back.
use mcpgw.Base.{
  ℕ, zero, suc, ◌+◌, ◌-◌, ◌*◌, ◌^◌, ◌≤◌, ◌<◌, min, ◌≡◌, ◌↔◌, ap, none, some, List, [], ◌∷◌, arith,
}
use native.Mathlib.Decide.{dec_lt}
use mcpgw.Upstream.Budget.{OverBudget, Budget, interval, burst, charge, admitted}
use mcpgw.Upstream.Budget.Rate.{burst_add_interval}

-- After a refusal, with the bucket as it was, a call at a later instant is let through exactly from
-- the instant on that the refusal names.
pub charge-retry_in :
    (limit now then : ℕ) (state : Budget) (over : OverBudget)
    → (charge limit now state).0 ≡ some over
    → now ≤ then
    → ((charge limit then state).0 ≡ none) ↔ (now + over.retry_in ≤ then)
unfolding charge
charge-retry_in limit now then none over h k = (λ e. ground arith, λ e. ground arith)
charge-retry_in limit now then (some d) over h k = (λ e. ground arith, λ e. ground arith)

-- The instants of a burst.
abbrev pub replicate : ℕ → ℕ → List ℕ
replicate zero now = []
replicate (suc n) now = now ∷ replicate n now

module _ (limit now : ℕ) (positive : 0 < limit) where
  charge_inside :
      (d : ℕ)
      → now ≤ d
      → d ≤ now + burst limit
      → charge limit now (some d) ≡ (none, some (d + interval limit))
  unfolding charge
  charge_inside d l h = ground arith

  charge_fresh : charge limit now none ≡ (none, some (now + interval limit))
  unfolding charge
  charge_fresh = ground arith

  charge_outside :
      (d : ℕ)
      → now + burst limit < d
      → charge limit now (some d)
        ≡ (some (record { limit = limit; retry_in = d - now - burst limit }), some d)
  unfolding charge
  charge_outside d h = ground arith

  -- `limit` is a `u32`, so that an interval is never 0.
  module _ (fits : limit < 2 ^ 32) where
    interval_pos : 0 < interval limit
    unfolding interval
    interval_pos = grind arith

    mul_le : (j : ℕ) → j < limit → j * interval limit ≤ burst limit
    unfolding burst
    mul_le j h = grind arith

    admitted_after :
        (n j : ℕ)
        → j ≤ limit
        → admitted limit (some (now + j * interval limit)) (replicate n now) ≡ min n (limit - j)
    unfolding admitted
    admitted_after zero j h = omega arith
    admitted_after (suc n) j h = elim (dec_lt j limit) [
      | yes l ↦
          let next : now + j * interval limit + interval limit ≡ now + suc j * interval limit =
            omega arith in
          rw (charge_inside (now + j * interval limit) (omega arith) (omega (arith, mul_le j l)))
            (rw (next, admitted_after n (suc j) l) (omega arith))
      | no l ↦
          let full : j ≡ limit = omega arith in
          rw
            (charge_outside (now + j * interval limit) (
              omega (
                arith,
                interval_pos,
                burst_add_interval limit positive,
                ap (λ t. t * interval limit) full,
              )))
            (rw (admitted_after n j h) (omega arith))
    ]

-- A bucket that was never charged lets exactly the first `limit` of a burst of calls through, and no
-- more, however many come at that instant.
admitted-burst :
    (limit now n : ℕ)
    → 0 < limit
    → limit < 2 ^ 32
    → admitted limit none (replicate n now) ≡ min n limit
unfolding admitted
admitted-burst limit now zero positive fits = omega arith
admitted-burst limit now (suc n) positive fits =
    let next : now + interval limit ≡ now + 1 * interval limit = omega arith in
    rw (charge_fresh limit now positive)
      (rw (next, admitted_after limit now positive fits n 1 positive) (omega arith))
