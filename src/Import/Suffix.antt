-- ===== src/Import/Suffix.antt =====
-- crates/core/src/import.rs: `next_free`, the one place a suffix is invented.
pub mod Decimal
pub mod Search
use mcpgw.Base.{
  ℕ, zero, suc, Bool, true, false, ◌+◌, ◌/◌, ◌%◌, List, [], ◌∷◌, ◌++◌, ltb, if◌then◌else◌,
}
use mcpgw.Base.Bytes.{Text}

-- Display of an unsigned number: its digits before `text`, given as many turns as the number and one.
unfoldable pub digits : ℕ → ℕ → Text → Text
digits zero n text = text
digits (suc fuel) n text =
    let rest = digits fuel (n / 10) ((b'0' + n % 10) ∷ text) in
    if ltb n 10 then (b'0' + n) ∷ text else rest

unfoldable pub decimal : ℕ → Text
unfolding digits
decimal n = digits (suc n) n []

-- format!("{base}-{i}")
unfoldable pub suffixed : Text → ℕ → Text
unfolding decimal
suffixed base i = base ++ b'-' ∷ decimal i

-- The loop, where `name` was tried as number `i`.
unfoldable pub free_from : ℕ → (Text → Bool) → Text → ℕ → Text → Text
unfolding suffixed
free_from zero taken base i name = name
free_from (suc fuel) taken base i name =
    let rest = free_from fuel taken base (suc i) (suffixed base (suc i)) in
    if taken name then rest else name

-- With one turn more than there are names taken.
unfoldable pub next_free : ℕ → Text → (Text → Bool) → Text
unfolding free_from
next_free names base taken = free_from (suc names) taken base 1 base
