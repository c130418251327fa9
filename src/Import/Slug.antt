-- ===== src/Import/Slug.antt =====
-- crates/core/src/import.rs: `slugify`. A byte of a character above ASCII is no letter, digit or `_`,
-- so a loop over the bytes pends the same dash as one over the characters.
pub mod Laws
use mcpgw.Base.{
  ℕ, zero, suc, Bool, true, false, not, ◌&&◌, ◌||◌, ◌+◌, List, [], ◌∷◌, ◌++◌, ◌==◌, leb, is_empty,
  length, if◌then◌else◌,
}
use mcpgw.Base.Bytes.{Text, codes, contains}
use mcpgw.Config.Name.{is_ascii_lowercase, is_ascii_digit, separator}

-- char::to_ascii_lowercase, str::to_ascii_lowercase
unfoldable pub to_ascii_lowercase : ℕ → ℕ
to_ascii_lowercase c = if leb b'A' c && leb c b'Z' then c + 32 else c

abbrev pub is_kept : ℕ → Bool
is_kept c = is_ascii_lowercase c || is_ascii_digit c || c == b'_'

-- One turn of the loop, on the name so far and the dash pending.
abbrev pub slug_byte : Bool → ℕ → Text → Bool → Text × Bool
slug_byte true c out pending =
    ((if pending && not (is_empty out) then out ++ b'-' ∷ [] else out) ++ c ∷ [], false)
slug_byte false c out pending = (out, true)

unfoldable pub slug_bytes : Text → Text → Bool → Text
unfolding to_ascii_lowercase is_ascii_lowercase is_ascii_digit
slug_bytes [] out pending = out
slug_bytes (c ∷ name) out pending =
    let next = slug_byte (is_kept (to_ascii_lowercase c)) (to_ascii_lowercase c) out pending in
    slug_bytes name next.0 next.1

-- str::replace of `__` by `_`: left to right, without overlaps.
unfoldable pub collapse_once : Text → Text
collapse_once [] = []
collapse_once (a ∷ []) = a ∷ []
collapse_once (a ∷ b ∷ text) =
    let paired = collapse_once text in
    let single = collapse_once (b ∷ text) in
    if a == b'_' && b == b'_' then b'_' ∷ paired else a ∷ single

-- while out.contains("__"): a text without room for the fuel holds none.
unfoldable pub collapse : ℕ → Text → Text
unfolding contains collapse_once
collapse zero out = out
collapse (suc fuel) out =
    let rest = collapse fuel (collapse_once out) in if contains separator out then rest else out

abbrev pub or_imported : Text → Text
or_imported [] = codes "imported-server"
or_imported (c ∷ out) = c ∷ out

unfoldable pub slugify : Text → Text
unfolding slug_bytes collapse
slugify name = let out = slug_bytes name [] false in or_imported (collapse (length out) out)
