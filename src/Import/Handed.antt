-- ===== src/Import/Handed.antt =====
-- The names that a plan hands out, over the second loop of plan_import.
use mathlib.Core.Path.{subst}
use mcpgw.Base.{
  ◌≡◌, refl, sym, ap, ◌∙◌, ◌⊎◌, Bool, true, false, Option, none, some, List, [], ◌∷◌, ◌++◌, In,
  In-append_cases, length, if◌then◌else◌, Bool-cases, inl, inr,
}
use mcpgw.Base.Bytes.{Text, text_eq, text_eq_refl}
use mcpgw.Base.Map.{Map, Set, get, contains_key, insert, keys, get-insert}
use mcpgw.Config.Server.{Server}
use mcpgw.Sync.Places.{keys_iff}
use mcpgw.Import.Suffix.{next_free}
use mcpgw.Import.Suffix.Search.{next_free-IsFirstFree}
use mcpgw.Import.Plan.{ImportCandidate, ImportPlan, names}
use mcpgw.Import.Names.{Distinct, Distinct-snoc, names-snoc, length-keys}

-- The second names that the conflicts are offered.
unfoldable pub adopted : List ImportCandidate → List Text
adopted [] = []
adopted (c ∷ candidates) = elim c.adopt_as [
  | none ↦ adopted candidates
  | some name ↦ name ∷ adopted candidates
]

adopted-snoc :
    (candidates : List ImportCandidate) (c : ImportCandidate) (name : Text)
    → adopted (candidates ++ record c { adopt_as = some name } ∷ [])
      ≡ adopted candidates ++ name ∷ []
unfolding adopted
adopted-snoc [] c name = refl
adopted-snoc (d ∷ candidates) c name = at (adopted-snoc candidates c name) d.adopt_as
  where
    at :
        adopted (candidates ++ record c { adopt_as = some name } ∷ [])
          ≡ adopted candidates ++ name ∷ []
        → (o : Option Text)
        → elim o [
          | none ↦ adopted (candidates ++ record c { adopt_as = some name } ∷ [])
          | some n ↦ n ∷ adopted (candidates ++ record c { adopt_as = some name } ∷ [])
        ]
          ≡ elim o [ none ↦ adopted candidates | some n ↦ n ∷ adopted candidates ] ++ name ∷ []
    at ih none = ih
    at ih (some n) = ap (λ l. n ∷ l) ih

last_cases : (n x : Text) (l : List Text) → In n (l ++ x ∷ []) → In n l ⊎ (n ≡ x)
last_cases n x l i = elim (In-append_cases n l (x ∷ []) i) [
  | inl j ↦ inl j
  | inr j ↦ inr (elim j [ inl e ↦ e | inr k ↦ elim k [ ] ])
]

contains_key-insert :
    (n k : Text) (taken : Set)
    → contains_key n (insert k tt taken) ≡ (if text_eq k n then true else contains_key n taken)
unfolding contains_key
contains_key-insert n k taken = ap is_there (get-insert n k tt taken) ∙ by (text_eq k n)
  where
    is_there : Option (Unit {0}) → Bool
    is_there o = elim o [ none ↦ false | some u ↦ true ]

    by :
        (b : Bool)
        → elim (if b then some tt else get n taken) [ none ↦ false | some u ↦ true ]
          ≡ (if b then true else elim (get n taken) [ none ↦ false | some u ↦ true ])
    by true = refl
    by false = refl

pub inserted : (k : Text) (taken : Set) → contains_key k (insert k tt taken) ≡ true
inserted k taken =
    contains_key-insert k k taken
    ∙ ap (λ b. if b then true else contains_key k taken) (text_eq_refl k)

pub grown :
    (n k : Text) (taken : Set)
    → contains_key n taken ≡ true
    → contains_key n (insert k tt taken) ≡ true
grown n k taken h = contains_key-insert n k taken ∙ by (text_eq k n)
  where
    by : (b : Bool) → (if b then true else contains_key n taken) ≡ true
    by true = refl
    by false = h

-- The name offered to a conflict is not taken.
pub adopt_free :
    (base : Text) (taken : Set)
    → contains_key (next_free (length taken) base (λ name. contains_key name taken)) taken ≡ false
adopt_free base taken =
    ap (λ n. contains_key (next_free n base (λ name. contains_key name taken)) taken)
      (sym (length-keys taken))
    ∙ (next_free-IsFirstFree (keys taken) base (λ name. contains_key name taken)
        (λ name t. (keys_iff name taken).1 t)).2

contrary : {b : Bool} → b ≡ true → ¬ (b ≡ false)
contrary h f = let bad : true ≡ false = sym h ∙ f in cc

-- What a plan has handed out, what is taken and what is still to be sorted.
pub record Handed (canonical : Map Server) (plan : ImportPlan) (taken : Set) (rest : List Text)
    : Type 0 where
  pub new_distinct : Distinct (names plan.new)
  pub adopted_distinct : Distinct (adopted plan.conflicts)
  pub apart : (n : Text) → In n (names plan.new) → ¬ In n (adopted plan.conflicts)
  pub new_unused : (n : Text) → In n (names plan.new) → contains_key n canonical ≡ false
  pub adopted_unused : (n : Text) → In n (adopted plan.conflicts) → contains_key n canonical ≡ false
  pub new_taken : (n : Text) → In n (names plan.new) → contains_key n taken ≡ true
  pub adopted_taken : (n : Text) → In n (adopted plan.conflicts) → contains_key n taken ≡ true
  pub rest_distinct : Distinct rest
  pub rest_taken : (n : Text) → In n rest → contains_key n taken ≡ true
  pub rest_new : (n : Text) → In n rest → ¬ In n (names plan.new)
  pub rest_adopted : (n : Text) → In n rest → ¬ In n (adopted plan.conflicts)
  pub canonical_taken : (n : Text) → contains_key n canonical ≡ true → contains_key n taken ≡ true

module _ (canonical : Map Server) (plan : ImportPlan) (taken : Set) (c : ImportCandidate)
    (rest : List Text) (h : Handed canonical plan taken (c.name ∷ rest)) where
  -- A candidate under a name that the config does not hold.
  pub to_new :
      contains_key c.name canonical ≡ false
      → Handed canonical (record plan { new = plan.new ++ c ∷ [] }) taken rest
  to_new free = record {
    new_distinct =
        rw (names-snoc plan.new c)
          (Distinct-snoc c.name (names plan.new) h.new_distinct (h.rest_new c.name (inl refl)));
    adopted_distinct = h.adopted_distinct;
    apart =
        λ n i j. elim (last_new n i) [ inl k ↦ h.apart n k j | inr e ↦ h.rest_adopted n (inl e) j ];
    new_unused = λ n i. elim (last_new n i) [
      | inl k ↦ h.new_unused n k
      | inr e ↦ ap (λ x. contains_key x canonical) e ∙ free
    ];
    adopted_unused = h.adopted_unused;
    new_taken =
        λ n i. elim (last_new n i) [ inl k ↦ h.new_taken n k | inr e ↦ h.rest_taken n (inl e) ];
    adopted_taken = h.adopted_taken;
    rest_distinct = h.rest_distinct.1;
    rest_taken = λ n i. h.rest_taken n (inr i);
    rest_new = λ n i j. elim (last_new n j) [
      | inl k ↦ h.rest_new n (inr i) k
      | inr e ↦ h.rest_distinct.0 (subst (λ x. In x rest) e i)
    ];
    rest_adopted = λ n i. h.rest_adopted n (inr i);
    canonical_taken = h.canonical_taken;
  }
    where
      last_new :
          (n : Text) → In n (names (plan.new ++ c ∷ [])) → In n (names plan.new) ⊎ (n ≡ c.name)
      last_new n i = last_cases n c.name (names plan.new) (subst (In n) (names-snoc plan.new c) i)

  -- A candidate that the config already holds.
  pub to_already : Handed canonical (record plan { already = plan.already ++ c ∷ [] }) taken rest
  to_already = record {
    new_distinct = h.new_distinct;
    adopted_distinct = h.adopted_distinct;
    apart = h.apart;
    new_unused = h.new_unused;
    adopted_unused = h.adopted_unused;
    new_taken = h.new_taken;
    adopted_taken = h.adopted_taken;
    rest_distinct = h.rest_distinct.1;
    rest_taken = λ n i. h.rest_taken n (inr i);
    rest_new = λ n i. h.rest_new n (inr i);
    rest_adopted = λ n i. h.rest_adopted n (inr i);
    canonical_taken = h.canonical_taken;
  }

  -- A conflict, offered a name that is not taken.
  pub to_conflicts :
      (name : Text)
      → contains_key name taken ≡ false
      → Handed canonical
          (record plan { conflicts = plan.conflicts ++ record c { adopt_as = some name } ∷ [] })
          (insert name tt taken)
          rest
  to_conflicts name free = record {
    new_distinct = h.new_distinct;
    adopted_distinct = rw (adopted-snoc plan.conflicts c name) (
        Distinct-snoc name (adopted plan.conflicts) h.adopted_distinct
          (λ i. contrary (h.adopted_taken name i) free));
    apart = λ n i j. elim (last_adopted n j) [
      | inl k ↦ h.apart n i k
      | inr e ↦ contrary (h.new_taken n i) (untaken n e)
    ];
    new_unused = h.new_unused;
    adopted_unused = λ n i. elim (last_adopted n i) [
      | inl k ↦ h.adopted_unused n k
      | inr e ↦ elim (Bool-cases (contains_key n canonical)) [
        | inl t ↦ absurd (contrary (h.canonical_taken n t) (untaken n e))
        | inr f ↦ f
      ]
    ];
    new_taken = λ n i. grown n name taken (h.new_taken n i);
    adopted_taken = λ n i. elim (last_adopted n i) [
      | inl k ↦ grown n name taken (h.adopted_taken n k)
      | inr e ↦ ap (λ x. contains_key x (insert name tt taken)) e ∙ inserted name taken
    ];
    rest_distinct = h.rest_distinct.1;
    rest_taken = λ n i. grown n name taken (h.rest_taken n (inr i));
    rest_new = λ n i. h.rest_new n (inr i);
    rest_adopted = λ n i j. elim (last_adopted n j) [
      | inl k ↦ h.rest_adopted n (inr i) k
      | inr e ↦ contrary (h.rest_taken n (inr i)) (untaken n e)
    ];
    canonical_taken = λ n t. grown n name taken (h.canonical_taken n t);
  }
    where
      untaken : (n : Text) → n ≡ name → contains_key n taken ≡ false
      untaken n e = ap (λ x. contains_key x taken) e ∙ free

      last_adopted :
          (n : Text)
          → In n (adopted (plan.conflicts ++ record c { adopt_as = some name } ∷ []))
          → In n (adopted plan.conflicts) ⊎ (n ≡ name)
      last_adopted n i =
          last_cases n name (adopted plan.conflicts)
            (subst (In n) (adopted-snoc plan.conflicts c name) i)
