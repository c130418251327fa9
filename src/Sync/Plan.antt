-- ===== src/Sync/Plan.antt =====
-- plan_sync: the pass over the canonical servers, then the pass over the client's own entries.
use mcpgw.Base.{
  Bool, true, not, ◌&&◌, ◌||◌, Option, none, some, List, [], ◌∷◌, ◌++◌, any, is_empty,
  if◌then◌else◌,
}
use mcpgw.Base.Bytes.{Text, text_eq}
use mcpgw.Base.Map.{Map, Set, get, contains_key, insert, keys}
use mcpgw.Config.Server.{Server}
use mcpgw.Clients.Json.{Json, Object, object, fields_of, as_object, put, json_eq}
use mcpgw.Clients.Schema.{ClientKind, codec, preserved_fields}
use mcpgw.Clients.Emit.{emit}

pub record SyncPlan : Type 0 where
  pub adds : List Text
  pub updates : List Text
  pub removes : List Text
  pub conflicts : List Text
  pub foreign : List Text
  pub unexclude : List Text
  pub desired : Map Json

abbrev pub empty_plan : SyncPlan
empty_plan = record {
  adds = [];
  updates = [];
  removes = [];
  conflicts = [];
  foreign = [];
  unexclude = [];
  desired = [];
}

unfoldable pub has_changes : SyncPlan → Bool
has_changes plan = not (
    is_empty plan.adds && is_empty plan.updates && is_empty plan.removes && is_empty plan.unexclude)

unfoldable pub managed_after : SyncPlan → List Text
unfolding keys
managed_after plan = keys plan.desired

unfoldable pub client_entry : ClientKind → Server → Json
unfolding codec emit
client_entry kind server = emit (codec kind).entries server

-- One preserved field: copied if the entry on disk has it and the emitted one has not.
abbrev pub carry_field : Option Json → Bool → Text → Object → Object
carry_field none present name target = target
carry_field (some value) present name target = if present then target else put name value target

unfoldable pub carry_fields : List Text → Object → Object → Object
unfolding get contains_key put
carry_fields [] existing target = target
carry_fields (name ∷ names) existing target =
    carry_fields names existing
      (carry_field (get name existing) (contains_key name target) name target)

abbrev pub carry_objects : List Text → Json → Option Object → Option Object → Json
carry_objects names emitted (some existing) (some target) =
    object (fields_of (carry_fields names existing target))
carry_objects names emitted existing target = emitted

abbrev pub bind_object : Option Json → Option Object
bind_object none = none
bind_object (some value) = as_object value

unfoldable pub carry_over_client_fields : ClientKind → Option Json → Json → Json
unfolding codec preserved_fields carry_fields as_object fields_of
carry_over_client_fields kind existing emitted =
    let fields = preserved_fields (codec kind).entries in
    if is_empty fields
    then emitted
    else carry_objects fields emitted (bind_object existing) (as_object emitted)

-- current.get(name) != Some(&emitted), for a name that is there
unfoldable pub differs : Option Json → Json → Bool
unfolding json_eq
differs none emitted = true
differs (some value) emitted = not (json_eq value emitted)

-- What is written under a name: the emitted entry with the client's own fields carried over.
unfoldable pub entry_for : ClientKind → Object → Text → Server → Json
unfolding client_entry carry_over_client_fields get
entry_for kind current name server =
    carry_over_client_fields kind (get name current) (client_entry kind server)

abbrev pub wanted : Bool → Bool → Text → Json → SyncPlan → SyncPlan
wanted exists changed name emitted plan =
    let noted =
      if not exists
      then record plan { adds = plan.adds ++ name ∷ [] }
      else if changed
      then record plan { updates = plan.updates ++ name ∷ [] }
      else plan in
    record noted { desired = insert name emitted noted.desired }

-- The tests of one turn of the first loop: is the server enabled, does the client have the name, is
-- the name ours, does the entry differ.
abbrev pub plan_tests : (enabled exists ours changed : Bool) → Text → Json → SyncPlan → SyncPlan
plan_tests enabled exists ours changed name emitted plan =
    if not enabled
    then plan
    else if exists && not ours
    then record plan { conflicts = plan.conflicts ++ name ∷ [] }
    else wanted exists changed name emitted plan

-- One turn of the first loop.
unfoldable pub plan_server : ClientKind → Object → Set → Text → Server → SyncPlan → SyncPlan
unfolding contains_key get insert entry_for differs
plan_server kind current managed name server plan =
    let emitted = entry_for kind current name server in
    plan_tests server.enabled (contains_key name current) (contains_key name managed)
      (differs (get name current) emitted) name emitted plan

unfoldable pub plan_servers : ClientKind → Object → Set → Map Server → SyncPlan → SyncPlan
unfolding plan_server
plan_servers kind current managed [] plan = plan
plan_servers kind current managed ((name, server) ∷ canonical) plan =
    plan_servers kind current managed canonical (plan_server kind current managed name server plan)

unfoldable pub list_contains : Text → List Text → Bool
unfolding text_eq
list_contains name names = any (λ n. text_eq n name) names

-- One turn of the second loop.
unfoldable pub plan_entry : Set → Text → SyncPlan → SyncPlan
unfolding contains_key list_contains
plan_entry managed name plan =
    if contains_key name plan.desired || list_contains name plan.conflicts
    then plan
    else if contains_key name managed
    then record plan { removes = plan.removes ++ name ∷ [] }
    else record plan { foreign = plan.foreign ++ name ∷ [] }

unfoldable pub plan_entries : Set → List Text → SyncPlan → SyncPlan
unfolding plan_entry
plan_entries managed [] plan = plan
plan_entries managed (name ∷ names) plan = plan_entries managed names (plan_entry managed name plan)

unfoldable pub plan_sync : ClientKind → Object → Map Server → Set → SyncPlan
unfolding plan_servers plan_entries keys
plan_sync kind current canonical managed =
    plan_entries managed (keys current) (plan_servers kind current managed canonical empty_plan)
