-- ===== src/Import/Fresh.antt =====
-- plan_import never hands out one name twice.
use mcpgw.Base.{
  ◌≡◌, refl, ap, ◌∙◌, Bool, true, false, Option, none, some, List, [], ◌∷◌, ◌++◌, In,
  In-append_cases, All, length, if◌then◌else◌, inl, inr,
}
use mcpgw.Base.Bytes.{Text}
use mcpgw.Base.Map.{Map, Set, get, contains_key, insert, keys}
use mcpgw.Config.Server.{Server}
use mcpgw.Sync.Places.{keys_iff}
use mcpgw.Import.Suffix.{next_free}
use mcpgw.Import.Address.{same_transport}
use mcpgw.Import.Plan.{
  ImportCandidate, ImportPlan, ClientRead, names, extend, sort_candidate, sort_candidates,
  take_sources, plan_import,
}
use mcpgw.Import.Names.{Distinct, take_sources-Distinct}
use mcpgw.Import.Handed.{
  Handed, adopted, adopt_free, inserted, grown, to_new, to_already, to_conflicts,
}

module _ (canonical : Map Server) where
  -- The candidate under its name in the config, if it has one there.
  sort_candidate-Handed :
      (c : ImportCandidate) (plan : ImportPlan) (taken : Set) (rest : List Text)
      → Handed canonical plan taken (c.name ∷ rest)
      → Handed canonical
          (sort_candidate canonical c (plan, taken)).0
          (sort_candidate canonical c (plan, taken)).1
          rest
  unfolding sort_candidate contains_key
  sort_candidate-Handed c plan taken rest h = at (get c.name canonical) refl
    where
      next : Option Server → ImportPlan × Set
      next o = elim o [
        | none ↦ (record plan { new = plan.new ++ c ∷ [] }, taken)
        | some existing ↦
            if same_transport existing.transport c.server.transport
            then (record plan { already = plan.already ++ c ∷ [] }, taken)
            else (
              record plan {
                conflicts =
                    plan.conflicts
                    ++ record c {
                      adopt_as =
                          some (next_free (length taken) c.name (λ name. contains_key name taken));
                    }
                      ∷ [];
              },
              insert (next_free (length taken) c.name (λ name. contains_key name taken)) tt taken,
            )
      ]

      known :
          (b : Bool) (existing : Server)
          → same_transport existing.transport c.server.transport ≡ b
          → Handed canonical (next (some existing)).0 (next (some existing)).1 rest
      known true existing e = rw e (to_already canonical plan taken c rest h)
      known false existing e =
          rw e (to_conflicts canonical plan taken c rest h _ (adopt_free c.name taken))

      at :
          (o : Option Server)
          → get c.name canonical ≡ o
          → Handed canonical (next o).0 (next o).1 rest
      at none e =
          to_new canonical plan taken c rest h (ap (λ o. elim o [ none ↦ false | some s ↦ true ]) e)
      at (some existing) e = known _ existing refl

  sort_candidates-Handed :
      (candidates : List ImportCandidate) (plan : ImportPlan) (taken : Set)
      → Handed canonical plan taken (names candidates)
      → Handed canonical
          (sort_candidates canonical candidates (plan, taken)).0
          (sort_candidates canonical candidates (plan, taken)).1
          []
  unfolding sort_candidates
  sort_candidates-Handed [] plan taken h = h
  sort_candidates-Handed (c ∷ candidates) plan taken h =
      sort_candidates-Handed candidates _ _
        (sort_candidate-Handed c plan taken (names candidates) h)

extend_grown :
    (n : Text) (taken : Set) (l : List Text)
    → contains_key n taken ≡ true
    → contains_key n (extend taken l) ≡ true
unfolding extend
extend_grown n taken [] h = h
extend_grown n taken (m ∷ l) h = extend_grown n (insert m tt taken) l (grown n m taken h)

extend_here :
    (n : Text) (taken : Set) (l : List Text) → In n l → contains_key n (extend taken l) ≡ true
unfolding extend
extend_here n taken [] i = elim i [ ]
extend_here n taken (m ∷ l) (inl e) =
    extend_grown n (insert m tt taken) l
      (ap (λ x. contains_key x (insert m tt taken)) e ∙ inserted m taken)
extend_here n taken (m ∷ l) (inr i) = extend_here n (insert m tt taken) l i

Distinct-append :
    (a b : List Text)
    → Distinct a
    → Distinct b
    → ((n : Text) → In n a → ¬ In n b)
    → Distinct (a ++ b)
Distinct-append [] b da db h = db
Distinct-append (x ∷ a) b (nx, da) db h = (
  λ i. elim (In-append_cases x a b i) [ inl j ↦ nx j | inr j ↦ h x (inl refl) j ],
  Distinct-append a b da db (λ n i. h n (inr i)),
)

In-All : {P : Text → Type 0} (l : List Text) → ((n : Text) → In n l → P n) → All P l
In-All [] h = tt
In-All (x ∷ l) h = (h x (inl refl), In-All l (λ n i. h n (inr i)))

-- The names under which a plan would write an entry that is not there: its new candidates, and its
-- conflicts kept beside the entry that they disagree with.
abbrev pub handed_out : ImportPlan → List Text
handed_out plan = names plan.new ++ adopted plan.conflicts

-- Whatever the clients hold, the names that a plan would write new entries under are all different,
-- and none is a name of the config.
pub plan_import-Distinct :
    (sources : List (Text × ClientRead)) (canonical : Map Server) (command_exists : Text → Bool)
    → Distinct (handed_out (plan_import sources canonical command_exists))
      × All
          (λ name. contains_key name canonical ≡ false)
          (handed_out (plan_import sources canonical command_exists))
unfolding plan_import adopted
plan_import-Distinct sources canonical command_exists =
    closed_by (sort_candidates-Handed canonical candidates empty taken start)
  where
    candidates : List ImportCandidate
    candidates = take_sources command_exists canonical sources []

    empty : ImportPlan
    empty = record { new = []; already = []; conflicts = [] }

    taken : Set
    taken = extend (extend [] (keys canonical)) (names candidates)

    start : Handed canonical empty taken (names candidates)
    start = record {
      new_distinct = tt;
      adopted_distinct = tt;
      apart = λ n i. elim i [ ];
      new_unused = λ n i. elim i [ ];
      adopted_unused = λ n i. elim i [ ];
      new_taken = λ n i. elim i [ ];
      adopted_taken = λ n i. elim i [ ];
      rest_distinct = take_sources-Distinct command_exists canonical sources [] tt;
      rest_taken = λ n i. extend_here n (extend [] (keys canonical)) (names candidates) i;
      rest_new = λ n i j. elim j [ ];
      rest_adopted = λ n i j. elim j [ ];
      canonical_taken = λ n t.
          extend_grown n _ (names candidates)
            (extend_here n [] (keys canonical) ((keys_iff n canonical).1 t));
    }

    closed_by :
        {plan : ImportPlan} {after : Set}
        → Handed canonical plan after []
        → Distinct (handed_out plan)
          × All (λ name. contains_key name canonical ≡ false) (handed_out plan)
    closed_by {plan} h = (
      Distinct-append (names plan.new) (adopted plan.conflicts) h.new_distinct h.adopted_distinct
          h.apart,
      In-All (handed_out plan) (λ n i.
          elim (In-append_cases n (names plan.new) (adopted plan.conflicts) i) [
            | inl j ↦ h.new_unused n j
            | inr j ↦ h.adopted_unused n j
          ]),
    )
