-- ===== src/Config/Rules/Allows.antt =====
-- What a rule matches, and which tools a table of rules allows.
use mcpgw.Base.{
  ℕ, ◌≡◌, refl, sym, ap, ◌∙◌, ◌↔◌, ◌⊎◌, inl, inr, Bool, true, false, ◌||◌, Option, none, some, List,
  [], ◌∷◌, ◌++◌, any, is_empty, Bool-cases, Option-cases, All, Exists, arith,
}
use mcpgw.Base.Bytes.{
  Text, codes, text_eq, text_eq_iff, starts_with, starts_with_append, starts_with_split,
}
use mcpgw.Config.Rules.{ToolRules, strip_suffix, matches, allows}

strip_suffix-some : (c : ℕ) (s p : Text) → strip_suffix c s ≡ some p → s ≡ p ++ c ∷ []
unfolding strip_suffix
strip_suffix-some c [] p h = cc
strip_suffix-some c (d ∷ []) p h = ground arith
strip_suffix-some c (d ∷ e ∷ s) p h = elim (Option-cases (strip_suffix c (e ∷ s))) [
  | inl n ↦ absurd (impossible (rw n at h))
  | inr (q, y) ↦ step q y (strip_suffix-some c (e ∷ s) q y) (rw y at h)
]
  where
    impossible : ◌≡◌ {A = Option Text} none (some p) → ⊥
    impossible x = cc

    step :
        (q : Text)
        → strip_suffix c (e ∷ s) ≡ some q
        → (e ∷ s) ≡ q ++ c ∷ []
        → some (d ∷ q) ≡ some p
        → (d ∷ e ∷ s) ≡ p ++ c ∷ []
    step q y r x = cc

strip_suffix-append : (c : ℕ) (p : Text) → strip_suffix c (p ++ c ∷ []) ≡ some p
unfolding strip_suffix
strip_suffix-append c [] = ground arith
strip_suffix-append c (d ∷ []) = ground arith
strip_suffix-append c (d ∷ e ∷ p) = rw (strip_suffix-append c (e ∷ p))

-- A rule stands for one name, or, ending in a star, for every name with its prefix.
pub data Matches (rule tool : Text) : Type 0 where
  family :
      (prefix rest : Text) → rule ≡ prefix ++ codes "*" → tool ≡ prefix ++ rest → Matches rule tool
  literal : ((prefix : Text) → ¬ (rule ≡ prefix ++ codes "*")) → rule ≡ tool → Matches rule tool

module _ (rule tool : Text) where
  matches_with : Option Text → Bool
  matches_with (some prefix) = starts_with prefix tool
  matches_with none = text_eq rule tool

  matches-eq-with : matches rule tool ≡ matches_with (strip_suffix b'*' rule)
  unfolding matches matches_with
  matches-eq-with = go (strip_suffix b'*' rule)
    where
      go :
          (o : Option Text)
          → elim o [ some prefix ↦ starts_with prefix tool | none ↦ text_eq rule tool ]
            ≡ matches_with o
      go none = refl
      go (some p) = refl

  no_star : strip_suffix b'*' rule ≡ none → (p : Text) → ¬ (rule ≡ p ++ codes "*")
  no_star n p e = absurd_none (sym n ∙ ap (strip_suffix b'*') e ∙ strip_suffix-append b'*' p)
    where
      absurd_none : ◌≡◌ {A = Option Text} none (some p) → ⊥
      absurd_none x = cc

  sound_with :
      (o : Option Text) → strip_suffix b'*' rule ≡ o → matches_with o ≡ true → Matches rule tool
  unfolding matches_with
  sound_with none e h = literal (no_star e) ((text_eq_iff rule tool).0 h)
  sound_with (some p) e h =
      let (rest, r) = starts_with_split p tool h in
      family p rest (strip_suffix-some b'*' rule p e) r

  pub matches_sound : matches rule tool ≡ true → Matches rule tool
  matches_sound h = sound_with (strip_suffix b'*' rule) refl (sym matches-eq-with ∙ h)

  complete_with :
      (o : Option Text) → strip_suffix b'*' rule ≡ o → Matches rule tool → matches_with o ≡ true
  unfolding matches_with
  complete_with none e (family p rest r t) = absurd (no_star e p r)
  complete_with none e (literal n r) = (text_eq_iff rule tool).1 r
  complete_with (some p) e (literal n r) = absurd (n p (strip_suffix-some b'*' rule p e))
  complete_with (some p) e (family q rest r t) = same (some_inj (sym e ∙ stripped))
    where
      stripped : strip_suffix b'*' rule ≡ some q
      stripped = rw r (strip_suffix-append b'*' q)

      some_inj : ◌≡◌ {A = Option Text} (some p) (some q) → p ≡ q
      some_inj x = cc

      same : p ≡ q → starts_with p tool ≡ true
      same x = rw (x, t) (starts_with_append q rest)

  pub matches_complete : Matches rule tool → matches rule tool ≡ true
  matches_complete m = matches-eq-with ∙ complete_with (strip_suffix b'*' rule) refl m

-- A rule matches a tool exactly when the rule is the tool's name and does not end in `*`, or is a
-- prefix of the tool's name followed by `*`.
matches_iff : (rule tool : Text) → (matches rule tool ≡ true) ↔ Matches rule tool
matches_iff rule tool = (matches_sound rule tool, matches_complete rule tool)

module _ (tool : Text) where
  any-matches_sound :
      (rules : List Text)
      → any (λ rule. matches rule tool) rules ≡ true
      → Exists (λ rule. Matches rule tool) rules
  any-matches_sound [] h = cc
  any-matches_sound (r ∷ rules) h = elim (Bool-cases (matches r tool)) [
    | inl m ↦ inl (matches_sound r tool m)
    | inr m ↦ inr (any-matches_sound rules (rw m at h))
  ]

  any-matches_complete :
      (rules : List Text)
      → Exists (λ rule. Matches rule tool) rules
      → any (λ rule. matches rule tool) rules ≡ true
  any-matches_complete [] h = elim h [ ]
  any-matches_complete (r ∷ rules) (inl m) = rw (matches_complete r tool m)
  any-matches_complete (r ∷ rules) (inr m) = ground (arith, any-matches_complete rules m)

  none-matches_sound :
      (rules : List Text)
      → any (λ rule. matches rule tool) rules ≡ false
      → All (λ rule. ¬ Matches rule tool) rules
  none-matches_sound [] h = tt
  none-matches_sound (r ∷ rules) h =
      (λ m. hit (matches_complete r tool m) h, none-matches_sound rules (ground arith))
    where
      hit :
          matches r tool ≡ true
          → (matches r tool || any (λ rule. matches rule tool) rules) ≡ false
          → ⊥
      hit a b = ground arith

  none-matches_complete :
      (rules : List Text)
      → All (λ rule. ¬ Matches rule tool) rules
      → any (λ rule. matches rule tool) rules ≡ false
  none-matches_complete [] h = refl
  none-matches_complete (r ∷ rules) h = elim (Bool-cases (matches r tool)) [
    | inl m ↦ absurd (h.0 (matches_sound r tool m))
    | inr m ↦ rw m (none-matches_complete rules h.1)
  ]

-- What the table means: an empty allow list allows all, another one only what it names, and the
-- deny list is taken off what is left.
pub record Allowed (rules : ToolRules) (tool : Text) : Type 0 where
  pub allowed : (rules.allow ≡ []) ⊎ Exists (λ rule. Matches rule tool) rules.allow
  pub not_denied : All (λ rule. ¬ Matches rule tool) rules.deny

module _ (rules : ToolRules) (tool : Text) where
  is_empty-eq : (xs : List Text) → is_empty xs ≡ true → xs ≡ []
  is_empty-eq [] h = refl
  is_empty-eq (x ∷ xs) h = cc

  allows_parts :
      allows rules tool ≡ true
      → ((is_empty rules.allow ≡ true) ⊎ (any (λ rule. matches rule tool) rules.allow ≡ true))
        × (any (λ rule. matches rule tool) rules.deny ≡ false)
  unfolding allows
  allows_parts h = ground arith

  allows_sound : allows rules tool ≡ true → Allowed rules tool
  allows_sound h = record {
    allowed = elim (allows_parts h).0 [
      | inl e ↦ inl (is_empty-eq rules.allow e)
      | inr m ↦ inr (any-matches_sound tool rules.allow m)
    ];
    not_denied = none-matches_sound tool rules.deny (allows_parts h).1;
  }

  allows_from :
      ((is_empty rules.allow ≡ true) ⊎ (any (λ rule. matches rule tool) rules.allow ≡ true))
      → any (λ rule. matches rule tool) rules.deny ≡ false
      → allows rules tool ≡ true
  unfolding allows
  allows_from a d = ground arith

  allows_complete : Allowed rules tool → allows rules tool ≡ true
  allows_complete h =
      allows_from
        (elim h.allowed [
          | inl e ↦ inl (rw e refl)
          | inr m ↦ inr (any-matches_complete tool rules.allow m)
        ])
        (none-matches_complete tool rules.deny h.not_denied)

-- `allows` accepts a tool exactly when the allow list is empty or one of its rules matches, and no
-- rule of the deny list matches.
pub allows_iff : (rules : ToolRules) (tool : Text) → (allows rules tool ≡ true) ↔ Allowed rules tool
allows_iff rules tool = (allows_sound rules tool, allows_complete rules tool)
