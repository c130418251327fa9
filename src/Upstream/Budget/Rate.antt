-- ===== src/Upstream/Budget/Rate.antt =====
-- How many calls a bucket lets through.
use mcpgw.Base.{
  ℕ, zero, suc, ◌+◌, ◌-◌, ◌*◌, ◌≤◌, ◌<◌, max, ◌≡◌, refl, ◌⊎◌, inl, inr, none, some, List, [], ◌∷◌,
  All, arith, Option-cases,
}
use mcpgw.Base.Map.{get_or}
use mcpgw.Upstream.Budget.{OverBudget, Budget, interval, burst, charge, admitted}

mul_pred : (i n : ℕ) → 0 < n → i * n ≡ i * (n - 1) + i
mul_pred i zero h = absurd (omega arith)
mul_pred i (suc n) h = let e : suc n - 1 ≡ n = omega arith in rw e (omega arith)

module _ (limit : ℕ) (positive : 0 < limit) where
  -- A full bucket is worth `limit` intervals.
  pub burst_add_interval : burst limit + interval limit ≡ interval limit * limit
  unfolding burst
  burst_add_interval = omega (arith, mul_pred (interval limit) limit positive)

  -- A call that is let through moves the deadline on by one interval, from no earlier than the
  -- old deadline and the call itself.
  pub charge_pass :
      (now : ℕ) (state : Budget)
      → (charge limit now state).0 ≡ none
      → (max (get_or now state) now ≤ now + burst limit)
        × ((charge limit now state).1 ≡ some (max (get_or now state) now + interval limit))
  unfolding charge
  charge_pass now state h = ground arith

  pub charge_refuse :
      (now : ℕ) (state : Budget) (over : OverBudget)
      → (charge limit now state).0 ≡ some over
      → (charge limit now state).1 ≡ state
  unfolding charge
  charge_refuse now state over h = ground arith

  module _ (lo hi : ℕ) where
    -- Counted from `lo`, the calls let through have moved the deadline no further than `hi` allows.
    abbrev IsBounded : ℕ → Budget → Type 0
    IsBounded n state =
        (n ≡ 0)
        ⊎ (n * interval limit + max (get_or lo state) lo ≤ hi + burst limit + interval limit)

    count_pass :
        (now n : ℕ) (state : Budget)
        → lo ≤ now
        → now ≤ hi
        → max (get_or now state) now ≤ now + burst limit
        → IsBounded n (some (max (get_or now state) now + interval limit))
        → IsBounded (suc n) state
    count_pass now n none l h b (inl z) = inr (rw z (omega arith))
    count_pass now n none l h b (inr k) = inr (omega arith)
    count_pass now n (some d) l h b (inl z) = inr (rw z (omega arith))
    count_pass now n (some d) l h b (inr k) = inr (omega arith)

    admitted-IsBounded :
        (state : Budget) (times : List ℕ)
        → All (λ now. (lo ≤ now) × (now ≤ hi)) times
        → IsBounded (admitted limit state times) state
    unfolding admitted
    admitted-IsBounded state [] h = inl refl
    admitted-IsBounded state (now ∷ later) h = elim (Option-cases (charge limit now state).0) [
      | inl pass ↦
          let moved = charge_pass now state pass in
          rw (pass, moved.1)
            (count_pass now _ state h.0.0 h.0.1 moved.0
              (admitted-IsBounded (some (max (get_or now state) now + interval limit)) later h.1))
      | inr (over, refused) ↦
          rw (refused, charge_refuse now state over refused) (admitted-IsBounded state later h.1)
    ]

-- Whatever the bucket held and in whatever order the calls came, the calls let through between `lo`
-- and `hi` cost at most one full bucket and the time between.
pub admitted-rate :
    (limit lo hi : ℕ) (state : Budget) (times : List ℕ)
    → 0 < limit
    → lo ≤ hi
    → All (λ now. (lo ≤ now) × (now ≤ hi)) times
    → admitted limit state times * interval limit ≤ (hi - lo) + interval limit * limit
admitted-rate limit lo hi state times positive order h =
    elim (admitted-IsBounded limit positive lo hi state times h) [
      | inl z ↦ rw z (omega arith)
      | inr k ↦ omega (arith, burst_add_interval limit positive)
    ]
