-- ===== src/Config/Rules.antt =====
-- crates/core/src/config.rs: `ToolRules`, which of a server's tools the gateway lets through.
pub mod Allows
pub mod Unmatched
use mcpgw.Base.{
  ℕ, Bool, true, false, not, ◌&&◌, Option, none, some, List, [], ◌∷◌, ◌++◌, any, is_empty, ◌==◌,
  if◌then◌else◌,
}
use mcpgw.Base.Bytes.{Text, codes, text_eq, starts_with}

pub data Drift : Type 0 where
  warn off : Drift

pub record ToolRules : Type 0 where
  pub allow : List Text
  pub deny : List Text
  pub drift : Drift

-- str::strip_suffix of one character
unfoldable pub strip_suffix : ℕ → Text → Option Text
strip_suffix c [] = none
strip_suffix c (d ∷ []) = if d == c then some [] else none
strip_suffix c (d ∷ e ∷ s) = elim (strip_suffix c (e ∷ s)) [ none ↦ none | some p ↦ some (d ∷ p) ]

unfoldable pub matches : Text → Text → Bool
unfolding strip_suffix starts_with text_eq
matches rule tool = elim (strip_suffix b'*' rule) [
  | some prefix ↦ starts_with prefix tool
  | none ↦ text_eq rule tool
]

unfoldable pub allows : ToolRules → Text → Bool
unfolding matches
allows rules tool =
    if not (is_empty rules.allow) && not (any (λ rule. matches rule tool) rules.allow)
    then false
    else not (any (λ rule. matches rule tool) rules.deny)

unfoldable pub is_watched : Drift → Bool
is_watched warn = true
is_watched off = false

unfoldable pub rules_is_empty : ToolRules → Bool
unfolding is_watched
rules_is_empty rules = is_empty rules.allow && is_empty rules.deny && is_watched rules.drift

-- The entries of one list that match none of the tools, with the name of the list.
unfoldable pub dead_rules : Text → List Text → List Text → List (Text × Text)
unfolding matches
dead_rules list [] tools = []
dead_rules list (rule ∷ rules) tools =
    let rest = dead_rules list rules tools in
    if not (any (λ tool. matches rule tool) tools) then (list, rule) ∷ rest else rest

unfoldable pub unmatched : ToolRules → List Text → List (Text × Text)
unfolding dead_rules
unmatched rules tools =
    dead_rules (codes "allow") rules.allow tools ++ dead_rules (codes "deny") rules.deny tools
