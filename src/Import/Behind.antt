-- ===== src/Import/Behind.antt =====
-- Every entry of every client stands behind a candidate of the plan.
use mcpgw.Base.{
  ◌≡◌, refl, Bool, true, false, Option, none, some, List, [], ◌∷◌, ◌++◌, In, Exists, length, ◌⊎◌,
  if◌then◌else◌, inl, inr,
}
use mcpgw.Base.Bytes.{Text}
use mcpgw.Base.Map.{Map, Set, get, insert, contains_key}
use mcpgw.Config.Server.{Server}
use mcpgw.Import.Address.{same_transport}
use mcpgw.Import.Suffix.{next_free}
use mcpgw.Import.Plan.{
  ImportCandidate, ImportPlan, ClientRead, sort_candidate, sort_candidates, take_sources,
  plan_import,
}
use mcpgw.Import.Origins.{StandsFor, Exists-left, Exists-right, take_sources_made}

-- Sorted into a plan, or still to be sorted.
abbrev Sorted : (ImportCandidate → Type 0) → ImportPlan → List ImportCandidate → Type 0
Sorted P plan rest =
    Exists P plan.new ⊎ (Exists P plan.already ⊎ (Exists P plan.conflicts ⊎ Exists P rest))

module _ (P : ImportCandidate → Type 0) (canonical : Map Server)
    (adoptable : (c : ImportCandidate) (name : Text)
      → P c
      → P (record c { adopt_as = some name })) where
  sort_candidate_kept :
      (c : ImportCandidate) (plan : ImportPlan) (taken : Set) (rest : List ImportCandidate)
      → Sorted P plan (c ∷ rest)
      → Sorted P (sort_candidate canonical c (plan, taken)).0 rest
  unfolding sort_candidate
  sort_candidate_kept c plan taken rest h = at (get c.name canonical)
    where
      name : Text
      name = next_free (length taken) c.name (λ name. contains_key name taken)

      next : Option Server → ImportPlan × Set
      next o = elim o [
        | none ↦ (record plan { new = plan.new ++ c ∷ [] }, taken)
        | some existing ↦
            if same_transport existing.transport c.server.transport
            then (record plan { already = plan.already ++ c ∷ [] }, taken)
            else (
              record plan { conflicts = plan.conflicts ++ record c { adopt_as = some name } ∷ [] },
              insert name tt taken,
            )
      ]

      to_new : Sorted P plan (c ∷ rest) → Sorted P (record plan { new = plan.new ++ c ∷ [] }) rest
      to_new (inl x) = inl (Exists-left P plan.new (c ∷ []) x)
      to_new (inr (inl x)) = inr (inl x)
      to_new (inr (inr (inl x))) = inr (inr (inl x))
      to_new (inr (inr (inr (inl p)))) = inl (Exists-right P plan.new (c ∷ []) (inl p))
      to_new (inr (inr (inr (inr x)))) = inr (inr (inr x))

      to_already :
          Sorted P plan (c ∷ rest)
          → Sorted P (record plan { already = plan.already ++ c ∷ [] }) rest
      to_already (inl x) = inl x
      to_already (inr (inl x)) = inr (inl (Exists-left P plan.already (c ∷ []) x))
      to_already (inr (inr (inl x))) = inr (inr (inl x))
      to_already (inr (inr (inr (inl p)))) =
          inr (inl (Exists-right P plan.already (c ∷ []) (inl p)))
      to_already (inr (inr (inr (inr x)))) = inr (inr (inr x))

      to_conflicts :
          Sorted P plan (c ∷ rest)
          → Sorted P
              (record plan { conflicts = plan.conflicts ++ record c { adopt_as = some name } ∷ [] })
              rest
      to_conflicts (inl x) = inl x
      to_conflicts (inr (inl x)) = inr (inl x)
      to_conflicts (inr (inr (inl x))) =
          inr (inr (inl (Exists-left P plan.conflicts (record c { adopt_as = some name } ∷ []) x)))
      to_conflicts (inr (inr (inr (inl p)))) = inr (
          inr (
            inl (
              Exists-right P plan.conflicts (record c { adopt_as = some name } ∷ [])
                (inl (adoptable c name p)))))
      to_conflicts (inr (inr (inr (inr x)))) = inr (inr (inr x))

      known :
          (b : Bool) (existing : Server)
          → same_transport existing.transport c.server.transport ≡ b
          → Sorted P (next (some existing)).0 rest
      known true existing e = rw e (to_already h)
      known false existing e = rw e (to_conflicts h)

      at : (o : Option Server) → Sorted P (next o).0 rest
      at none = to_new h
      at (some existing) = known _ existing refl

  sort_candidates_kept :
      (candidates : List ImportCandidate) (plan : ImportPlan) (taken : Set)
      → Sorted P plan candidates
      → Sorted P (sort_candidates canonical candidates (plan, taken)).0 []
  unfolding sort_candidates
  sort_candidates_kept [] plan taken h = h
  sort_candidates_kept (c ∷ candidates) plan taken h =
      sort_candidates_kept candidates _ _ (sort_candidate_kept c plan taken candidates h)

-- Every entry of every client that was read stands behind a candidate of the plan: the candidate
-- names it among its origins and addresses the same server.
pub plan_import-StandsFor :
    (sources : List (Text × ClientRead)) (canonical : Map Server) (command_exists : Text → Bool)
    (client_id : Text) (read : ClientRead) (name : Text) (server : Server)
    → In (client_id, read) sources
    → In (name, server) read.servers
    → Exists (StandsFor (client_id, name) server.transport) (
        (plan_import sources canonical command_exists).new
        ++ (plan_import sources canonical command_exists).already
        ++ (plan_import sources canonical command_exists).conflicts)
unfolding plan_import
plan_import-StandsFor sources canonical command_exists client_id read name server i k = placed _ (
    sort_candidates_kept P canonical (λ c n p. p) (take_sources command_exists canonical sources [])
      _ _
      (inr (
        inr (
          inr (
            take_sources_made command_exists canonical client_id name server read sources [] i
              k)))))
  where
    P : ImportCandidate → Type 0
    P c = StandsFor (client_id, name) server.transport c

    placed :
        (plan : ImportPlan)
        → Sorted P plan []
        → Exists P (plan.new ++ plan.already ++ plan.conflicts)
    placed plan (inl x) =
        Exists-left P (plan.new ++ plan.already) plan.conflicts
          (Exists-left P plan.new plan.already x)
    placed plan (inr (inl x)) =
        Exists-left P (plan.new ++ plan.already) plan.conflicts
          (Exists-right P plan.new plan.already x)
    placed plan (inr (inr (inl x))) = Exists-right P (plan.new ++ plan.already) plan.conflicts x
    placed plan (inr (inr (inr x))) = elim x [ ]
