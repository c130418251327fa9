-- ===== src/Config/Rules/Unmatched.antt =====
-- Which entries of a table `unmatched` reports.
use mcpgw.Base.{
  ◌≡◌, refl, ap, ◌↔◌, ◌⊎◌, inl, inr, true, false, List, [], ◌∷◌, any, Bool-cases, All, In,
  In-append_left, In-append_right, In-append_cases, arith,
}
use mcpgw.Base.Bytes.{Text, codes}
use mcpgw.Config.Rules.{ToolRules, matches, dead_rules, unmatched}
use mcpgw.Config.Rules.Allows.{Matches, matches_sound, matches_complete}

module _ (rule : Text) where
  abbrev pub IsDead : List Text → Type 0
  IsDead tools = All (λ tool. ¬ Matches rule tool) tools

  IsDead-sound : (tools : List Text) → any (λ tool. matches rule tool) tools ≡ false → IsDead tools
  IsDead-sound [] h = tt
  IsDead-sound (t ∷ tools) h = elim (Bool-cases (matches rule t)) [
    | inl m ↦ absurd (hit (rw m at h))
    | inr m ↦ (λ k. miss (matches_complete rule t k) m, IsDead-sound tools (rw m at h))
  ]
    where
      hit : true ≡ false → ⊥
      hit x = cc

      miss : matches rule t ≡ true → matches rule t ≡ false → ⊥
      miss a b = ground arith

  IsDead-complete :
      (tools : List Text) → IsDead tools → any (λ tool. matches rule tool) tools ≡ false
  IsDead-complete [] h = refl
  IsDead-complete (t ∷ tools) h = elim (Bool-cases (matches rule t)) [
    | inl m ↦ absurd (h.0 (matches_sound rule t m))
    | inr m ↦ rw m (IsDead-complete tools h.1)
  ]

module _ (l r list : Text) (tools : List Text) where
  dead_rules_sound :
      (rules : List Text)
      → In (l, r) (dead_rules list rules tools)
      → (l ≡ list) × In r rules × IsDead r tools
  unfolding dead_rules
  dead_rules_sound [] h = elim h [ ]
  dead_rules_sound (rule ∷ rules) h = elim (Bool-cases (any (λ tool. matches rule tool) tools)) [
    | inl m ↦ skip (dead_rules_sound rules (rw m at h))
    | inr m ↦ elim (rw m at h) [
      | inl e ↦
          (ap (λ p. p.0) e, inl (ap (λ p. p.1) e), rw (ap (λ p. p.1) e) (IsDead-sound rule tools m))
      | inr k ↦ skip (dead_rules_sound rules k)
    ]
  ]
    where
      skip :
          (l ≡ list) × In r rules × IsDead r tools
          → (l ≡ list) × In r (rule ∷ rules) × IsDead r tools
      skip (a, b, c) = (a, inr b, c)

  dead_rules_complete :
      (rules : List Text)
      → l ≡ list
      → In r rules
      → IsDead r tools
      → In (l, r) (dead_rules list rules tools)
  unfolding dead_rules
  dead_rules_complete [] e i d = elim i [ ]
  dead_rules_complete (rule ∷ rules) e (inl i) d = rw (dead rule i) (inl (λ n. (e n, i n)))
    where
      dead : (x : Text) → r ≡ x → any (λ tool. matches x tool) tools ≡ false
      dead x p = rw (← p) (IsDead-complete r tools d)
  dead_rules_complete (rule ∷ rules) e (inr i) d =
      elim (Bool-cases (any (λ tool. matches rule tool) tools)) [
        | inl m ↦ rw m (dead_rules_complete rules e i d)
        | inr m ↦ rw m (inr (dead_rules_complete rules e i d))
      ]

-- `unmatched` reports an entry under a list's name exactly when the entry stands in that list and
-- matches none of the tools.
unmatched_iff :
    (rules : ToolRules) (tools : List Text) (l r : Text)
    → In (l, r) (unmatched rules tools) ↔ (
        (l ≡ codes "allow") × In r rules.allow × IsDead r tools
        ⊎ (l ≡ codes "deny") × In r rules.deny × IsDead r tools)
unfolding unmatched
unmatched_iff rules tools l r = (
  λ h. elim (In-append_cases (l, r) (dead_rules (codes "allow") rules.allow tools) _ h) [
    | inl k ↦ inl (dead_rules_sound l r (codes "allow") tools rules.allow k)
    | inr k ↦ inr (dead_rules_sound l r (codes "deny") tools rules.deny k)
  ],
  λ h. elim h [
    | inl (e, i, d) ↦
        In-append_left (l, r) (dead_rules (codes "allow") rules.allow tools) _
          (dead_rules_complete l r (codes "allow") tools rules.allow e i d)
    | inr (e, i, d) ↦
        In-append_right (l, r) (dead_rules (codes "allow") rules.allow tools) _
          (dead_rules_complete l r (codes "deny") tools rules.deny e i d)
  ],
)
