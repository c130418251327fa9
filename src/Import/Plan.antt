-- ===== src/Import/Plan.antt =====
-- crates/core/src/import.rs: `plan_import`, its two loops and what each turn does.
use mcpgw.Base.{
  Bool, true, false, not, ◌&&◌, ◌||◌, ◌+◌, Option, none, some, List, [], ◌∷◌, ◌++◌, map, any, find,
  retain, is_empty, length, if◌then◌else◌, Result, ok, err,
}
use mcpgw.Base.Bytes.{Text, text_eq}
use mcpgw.Base.Map.{Map, Set, get, contains_key, insert, keys}
use mcpgw.Config.Name.{Reason, validate_name}
use mcpgw.Config.Server.{Server, Transport, stdio, http}
use mcpgw.Import.Slug.{slugify}
use mcpgw.Import.Suffix.{next_free}
use mcpgw.Import.Address.{same_transport, canonical_url, Texts-discrete, Headers-discrete}
use mathlib.Core.Logic.{ite}

pub record Problem : Type 0 where
  pub server : Option Text
  pub message : Text

pub record ClientRead : Type 0 where
  pub servers : Map Server
  pub problems : List Problem

pub record SameAddress : Type 0 where
  pub name : Text
  pub canonical : Bool

pub record ImportCandidate : Type 0 where
  pub name : Text
  pub server : Server
  pub origins : List (Text × Text)
  pub renamed : Bool
  pub notes : List Text
  pub command_missing : Bool
  pub same_address : Option SameAddress
  pub adopt_as : Option Text

pub record ImportPlan : Type 0 where
  pub new : List ImportCandidate
  pub already : List ImportCandidate
  pub conflicts : List ImportCandidate

abbrev is_about : Text → Option Text → Bool
is_about name none = false
is_about name (some server) = text_eq server name

-- The messages of the problems with one entry.
unfoldable pub notes_of : Text → List Problem → List Text
unfolding text_eq
notes_of name problems = map (λ p. p.message) (retain (λ p. is_about name p.server) problems)

-- push, unless it is there
abbrev push_new : List Text → Text → List Text
push_new list x = if any (λ y. text_eq y x) list then list else list ++ x ∷ []

unfoldable pub push_all : List Text → List Text → List Text
unfolding text_eq
push_all list [] = list
push_all list (x ∷ more) = push_all (push_new list x) more

-- A source with a definition that was seen before.
unfoldable pub adopt_origin : Text × Text → Server → List Text → ImportCandidate → ImportCandidate
unfolding push_all
adopt_origin origin server notes candidate = record candidate {
  origins = candidate.origins ++ origin ∷ [];
  server = record candidate.server {
    enabled = candidate.server.enabled && server.enabled;
    tags = push_all candidate.server.tags server.tags;
  };
  notes = push_all candidate.notes notes;
}

-- The first of a list that passes a test, changed in its place: none where none passes.
unfoldable pub change_first :
    (ImportCandidate → Bool)
    → (ImportCandidate → ImportCandidate)
    → List ImportCandidate
    → Option (List ImportCandidate)
change_first test change [] = none
change_first test change (c ∷ candidates) =
    let rest = change_first test change candidates in
    if test c
    then some (change c ∷ candidates)
    else elim rest [ none ↦ none | some changed ↦ some (c ∷ changed) ]

unfoldable pub claimed : List ImportCandidate → Text → Bool
unfolding text_eq
claimed candidates name = any (λ c. text_eq c.name name) candidates

abbrev pub is_valid : Result Reason (Unit {0}) → Bool
is_valid (ok u) = true
is_valid (err reason) = false

-- What the search for a name passes over.
abbrev pub is_taken : Map Server → List ImportCandidate → Text → Text → Bool
is_taken canonical candidates orig_name name =
    claimed candidates name || contains_key name canonical && not (text_eq name orig_name)

-- The name of a new candidate, and whether it is another than the client's.
unfoldable pub choose_name : Map Server → List ImportCandidate → Text → Text × Bool
unfolding validate_name claimed slugify next_free contains_key text_eq
choose_name canonical candidates orig_name =
    let valid = is_valid (validate_name orig_name) in
    if valid && not (claimed candidates orig_name) then (orig_name, false) else (
      next_free (length candidates + length canonical)
          (if valid then orig_name else slugify orig_name)
          (is_taken canonical candidates orig_name),
      true,
    )

-- The same URL and the same header names with other values.
abbrev address_matches : Text → Map Text → Transport → Bool
address_matches url headers (stdio command args env) = false
address_matches url headers (http other_url other_command other_headers other_auth) =
    text_eq (canonical_url url) (canonical_url other_url)
    && ite (Texts-discrete (keys other_headers) (keys headers)) true false
    && not (ite (Headers-discrete other_headers headers) true false)

abbrev address_among : (Transport → Bool) → Map Server → List ImportCandidate → Option SameAddress
address_among test canonical candidates = elim (find (λ p. test p.1.transport) canonical) [
  | some (name, existing) ↦ some (record { name = name; canonical = true })
  | none ↦ elim (find (λ c. test c.server.transport) candidates) [
    | some c ↦ some (record { name = c.name; canonical = false })
    | none ↦ none
  ]
]

unfoldable pub same_address : Transport → Map Server → List ImportCandidate → Option SameAddress
unfolding canonical_url text_eq keys Texts-discrete Headers-discrete
same_address (stdio command args env) canonical candidates = none
same_address (http url command headers auth) canonical candidates =
    if is_empty headers
    then none
    else address_among (address_matches url headers) canonical candidates

abbrev is_missing : (Text → Bool) → Transport → Bool
is_missing command_exists (stdio command args env) = not (command_exists command)
is_missing command_exists (http url command headers auth) = false

unfoldable pub candidate_of :
    (Text → Bool)
    → Map Server
    → List ImportCandidate
    → Text × Text
    → List Text
    → Server
    → ImportCandidate
unfolding choose_name same_address
candidate_of command_exists canonical candidates origin notes server =
    let chosen = choose_name canonical candidates origin.1 in
    let missing = is_missing command_exists server.transport in
    record {
      name = chosen.0;
      server = record server { enabled = server.enabled && not missing };
      origins = origin ∷ [];
      renamed = chosen.1;
      notes = notes;
      command_missing = missing;
      same_address = same_address server.transport canonical candidates;
      adopt_as = none;
    }

-- One turn of the inner loop.
unfoldable pub take_entry :
    (Text → Bool)
    → Map Server
    → Text
    → List Problem
    → Text
    → Server
    → List ImportCandidate
    → List ImportCandidate
unfolding notes_of change_first same_transport adopt_origin candidate_of
take_entry command_exists canonical client_id problems orig_name server candidates =
    let notes = notes_of orig_name problems in
    elim (change_first (λ c. same_transport c.server.transport server.transport)
      (adopt_origin (client_id, orig_name) server notes) candidates) [
        | some changed ↦ changed
        | none ↦
            candidates
            ++ candidate_of command_exists canonical candidates (client_id, orig_name) notes server
              ∷ []
      ]

unfoldable pub take_servers :
    (Text → Bool)
    → Map Server
    → Text
    → List Problem
    → Map Server
    → List ImportCandidate
    → List ImportCandidate
unfolding take_entry
take_servers command_exists canonical client_id problems [] candidates = candidates
take_servers command_exists canonical client_id problems ((name, server) ∷ servers) candidates =
    take_servers command_exists canonical client_id problems servers
      (take_entry command_exists canonical client_id problems name server candidates)

unfoldable pub take_sources :
    (Text → Bool)
    → Map Server
    → List (Text × ClientRead)
    → List ImportCandidate
    → List ImportCandidate
unfolding take_servers
take_sources command_exists canonical [] candidates = candidates
take_sources command_exists canonical ((client_id, read) ∷ sources) candidates =
    take_sources command_exists canonical sources
      (take_servers command_exists canonical client_id read.problems read.servers candidates)

-- Inserting into a BTreeSet
unfoldable pub extend : Set → List Text → Set
unfolding insert
extend taken [] = taken
extend taken (name ∷ names) = extend (insert name tt taken) names

-- One turn of the second loop.
unfoldable pub sort_candidate : Map Server → ImportCandidate → ImportPlan × Set → ImportPlan × Set
unfolding get same_transport next_free contains_key insert
sort_candidate canonical candidate (plan, taken) = elim (get candidate.name canonical) [
  | none ↦ (record plan { new = plan.new ++ candidate ∷ [] }, taken)
  | some existing ↦
      if same_transport existing.transport candidate.server.transport
      then (record plan { already = plan.already ++ candidate ∷ [] }, taken)
      else (
        record plan {
          conflicts =
              plan.conflicts
              ++ record candidate {
                adopt_as =
                    some
                      (next_free (length taken) candidate.name (λ name. contains_key name taken));
              }
                ∷ [];
        },
        insert (next_free (length taken) candidate.name (λ name. contains_key name taken)) tt taken,
      )
]

unfoldable pub sort_candidates :
    Map Server → List ImportCandidate → ImportPlan × Set → ImportPlan × Set
unfolding sort_candidate
sort_candidates canonical [] state = state
sort_candidates canonical (c ∷ candidates) state =
    sort_candidates canonical candidates (sort_candidate canonical c state)

abbrev pub names : List ImportCandidate → List Text
names candidates = map (λ c. c.name) candidates

unfoldable pub plan_import : List (Text × ClientRead) → Map Server → (Text → Bool) → ImportPlan
unfolding take_sources extend sort_candidates keys
plan_import sources canonical command_exists =
    let candidates = take_sources command_exists canonical sources [] in
    (sort_candidates canonical candidates (
      record { new = []; already = []; conflicts = [] },
      extend (extend [] (keys canonical)) (names candidates),
    )).0
