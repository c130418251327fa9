-- ===== src/Import/Origins.antt =====
-- The first loop of plan_import keeps every entry behind a candidate.
use mathlib.Core.Path.{subst}
use mcpgw.Base.{
  ◌≡◌, refl, Bool, true, false, Option, none, some, List, [], ◌∷◌, ◌++◌, In, In-append_left,
  In-append_right, Exists, if◌then◌else◌, inl, inr,
}
use mcpgw.Base.Bytes.{Text}
use mcpgw.Base.Map.{Map}
use mcpgw.Config.Server.{Server, Transport}
use mcpgw.Import.Address.{same_transport_iff, addressed}
use mcpgw.Import.Plan.{
  ImportCandidate, ClientRead, Problem, take_entry, take_servers, take_sources, change_first,
  adopt_origin, candidate_of, notes_of,
}

-- A candidate that names the entry among its origins and addresses the same server.
abbrev pub StandsFor : Text × Text → Transport → ImportCandidate → Type 0
StandsFor origin target c = In origin c.origins × (addressed c.server.transport ≡ addressed target)

module _ (P : ImportCandidate → Type 0) where
  pub Exists-left : (a b : List ImportCandidate) → Exists P a → Exists P (a ++ b)
  Exists-left [] b h = elim h [ ]
  Exists-left (c ∷ a) b (inl p) = inl p
  Exists-left (c ∷ a) b (inr h) = inr (Exists-left a b h)

  pub Exists-right : (a b : List ImportCandidate) → Exists P b → Exists P (a ++ b)
  Exists-right [] b h = h
  Exists-right (c ∷ a) b h = inr (Exists-right a b h)

  abbrev Holds : Option (List ImportCandidate) → Type 0
  Holds none = Unit
  Holds (some changed) = Exists P changed

  module _ (test : ImportCandidate → Bool) (change : ImportCandidate → ImportCandidate) where
    change_first_kept :
        (candidates : List ImportCandidate)
        → ((c : ImportCandidate) → P c → P (change c))
        → Exists P candidates
        → Holds (change_first test change candidates)
    unfolding change_first
    change_first_kept [] k h = tt
    change_first_kept (c ∷ candidates) k h =
        at (test c) (change_first test change candidates) (λ i. change_first_kept candidates k i) h
      where
        at :
            (b : Bool) (o : Option (List ImportCandidate))
            → (Exists P candidates → Holds o)
            → Exists P (c ∷ candidates)
            → Holds (
                if b
                then some (change c ∷ candidates)
                else elim o [ none ↦ none | some changed ↦ some (c ∷ changed) ])
        at true o ih (inl p) = inl (k c p)
        at true o ih (inr i) = inr i
        at false none ih h = tt
        at false (some changed) ih (inl p) = inl p
        at false (some changed) ih (inr i) = inr (ih i)

    change_first_made :
        (candidates : List ImportCandidate)
        → ((c : ImportCandidate) → test c ≡ true → P (change c))
        → Holds (change_first test change candidates)
    unfolding change_first
    change_first_made [] k = tt
    change_first_made (c ∷ candidates) k =
        at (test c) refl (change_first test change candidates) (change_first_made candidates k)
      where
        at :
            (b : Bool)
            → test c ≡ b
            → (o : Option (List ImportCandidate)) → Holds o
            → Holds (
                if b
                then some (change c ∷ candidates)
                else elim o [ none ↦ none | some changed ↦ some (c ∷ changed) ])
        at true e o h = inl (k c e)
        at false e none h = tt
        at false e (some changed) h = inr h

module _ (command_exists : Text → Bool) (canonical : Map Server) (origin : Text × Text)
    (target : Transport) where
  abbrev Behind : List ImportCandidate → Type 0
  Behind candidates = Exists (StandsFor origin target) candidates

  take_entry_kept :
      (client_id : Text) (problems : List Problem) (orig_name : Text) (server : Server)
      (candidates : List ImportCandidate)
      → Behind candidates
      → Behind (take_entry command_exists canonical client_id problems orig_name server candidates)
  unfolding take_entry adopt_origin
  take_entry_kept client_id problems orig_name server candidates h = at _ (
      change_first_kept (StandsFor origin target) _ _ candidates
        (λ c (i, e). (In-append_left origin c.origins ((client_id, orig_name) ∷ []) i, e)) h)
    where
      at :
          (o : Option (List ImportCandidate))
          → Holds (StandsFor origin target) o
          → Behind (elim o [
            | some changed ↦ changed
            | none ↦
                candidates
                ++ candidate_of command_exists canonical candidates
                    (client_id, orig_name)
                    (notes_of orig_name problems)
                    server
                  ∷ []
          ])
      at (some changed) k = k
      at none k = Exists-left (StandsFor origin target) candidates _ h

  take_servers_kept :
      (client_id : Text) (problems : List Problem) (servers : Map Server)
      (candidates : List ImportCandidate)
      → Behind candidates
      → Behind (take_servers command_exists canonical client_id problems servers candidates)
  unfolding take_servers
  take_servers_kept client_id problems [] candidates h = h
  take_servers_kept client_id problems ((name, server) ∷ servers) candidates h =
      take_servers_kept client_id problems servers _
        (take_entry_kept client_id problems name server candidates h)

  take_sources_kept :
      (sources : List (Text × ClientRead)) (candidates : List ImportCandidate)
      → Behind candidates
      → Behind (take_sources command_exists canonical sources candidates)
  unfolding take_sources
  take_sources_kept [] candidates h = h
  take_sources_kept ((client_id, read) ∷ sources) candidates h =
      take_sources_kept sources _
        (take_servers_kept client_id read.problems read.servers candidates h)

module _ (command_exists : Text → Bool) (canonical : Map Server) (client_id name : Text)
    (server : Server) where
  abbrev Stands : List ImportCandidate → Type 0
  Stands candidates = Exists (StandsFor (client_id, name) server.transport) candidates

  take_entry_made :
      (problems : List Problem) (candidates : List ImportCandidate)
      → Stands (take_entry command_exists canonical client_id problems name server candidates)
  unfolding take_entry adopt_origin candidate_of
  take_entry_made problems candidates = at _ (
      change_first_made (StandsFor (client_id, name) server.transport) _ _ candidates (λ c e. (
        In-append_right (client_id, name) c.origins ((client_id, name) ∷ []) (inl refl),
        (same_transport_iff c.server.transport server.transport).0 e,
      )))
    where
      at :
          (o : Option (List ImportCandidate))
          → Holds (StandsFor (client_id, name) server.transport) o
          → Stands (elim o [
            | some changed ↦ changed
            | none ↦
                candidates
                ++ candidate_of command_exists canonical candidates
                    (client_id, name)
                    (notes_of name problems)
                    server
                  ∷ []
          ])
      at (some changed) k = k
      at none k =
          Exists-right (StandsFor (client_id, name) server.transport) candidates _
            (inl (inl refl, refl))

  take_servers_made :
      (problems : List Problem) (servers : Map Server) (candidates : List ImportCandidate)
      → In (name, server) servers
      → Stands (take_servers command_exists canonical client_id problems servers candidates)
  unfolding take_servers
  take_servers_made problems [] candidates i = elim i [ ]
  take_servers_made problems ((n, s) ∷ servers) candidates (inl e) =
      take_servers_kept command_exists canonical (client_id, name) server.transport client_id
        problems servers _
        (subst
          (λ p. Stands (take_entry command_exists canonical client_id problems p.0 p.1 candidates))
          e (take_entry_made problems candidates))
  take_servers_made problems ((n, s) ∷ servers) candidates (inr i) =
      take_servers_made problems servers
        (take_entry command_exists canonical client_id problems n s candidates) i

  pub take_sources_made :
      (read : ClientRead) (sources : List (Text × ClientRead)) (candidates : List ImportCandidate)
      → In (client_id, read) sources
      → In (name, server) read.servers
      → Stands (take_sources command_exists canonical sources candidates)
  unfolding take_sources
  take_sources_made read [] candidates i k = elim i [ ]
  take_sources_made read ((d, r) ∷ sources) candidates (inl e) k =
      take_sources_kept command_exists canonical (client_id, name) server.transport sources _
        (subst
          (λ p.
            Stands (take_servers command_exists canonical p.0 p.1.problems p.1.servers candidates))
          e (take_servers_made read.problems read.servers candidates k))
  take_sources_made read ((d, r) ∷ sources) candidates (inr i) k =
      take_sources_made read sources
        (take_servers command_exists canonical d r.problems r.servers candidates) i k
