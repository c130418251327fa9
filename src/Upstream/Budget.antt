-- ===== src/Upstream/Budget.antt =====
-- crates/core/src/upstream.rs: `Budget`, one server's `calls_per_minute` bucket. Instants and
-- durations are nanoseconds; a `Duration` divided by a number rounds down to one.
pub mod Rate
pub mod Retry
use mcpgw.Base.{
  ℕ, suc, ◌+◌, ◌-◌, ◌*◌, ◌/◌, max, Option, none, some, List, [], ◌∷◌, ltb, ◌==◌, if◌then◌else◌,
}
use mcpgw.Base.Map.{get_or}

-- One minute.
abbrev pub window : ℕ
window = 60000000000

pub record OverBudget : Type 0 where
  pub limit : ℕ
  pub retry_in : ℕ

-- The time until the next call is worth one more; `None` is a bucket never charged.
abbrev pub Budget : Type 0
Budget = Option ℕ

unfoldable pub interval : ℕ → ℕ
interval limit = window / limit

unfoldable pub burst : ℕ → ℕ
burst limit = interval limit * (limit - 1)

unfoldable pub charge : ℕ → ℕ → Budget → Option OverBudget × Budget
charge limit now state =
    if limit == 0
    then (none, state)
    else let deadline = max (get_or now state) now in
      let ahead = deadline - now in
      if ltb (burst limit) ahead
      then (some (record { limit = limit; retry_in = ahead - burst limit }), state)
      else (none, some (deadline + interval limit))

abbrev pub count : Option OverBudget → ℕ → ℕ
count none n = suc n
count (some over) n = n

-- How many calls are let through when the bucket is charged at each of the instants in turn.
unfoldable pub admitted : ℕ → Budget → List ℕ → ℕ
unfolding charge
admitted limit state [] = 0
admitted limit state (now ∷ later) =
    let outcome = charge limit now state in count outcome.0 (admitted limit outcome.1 later)
