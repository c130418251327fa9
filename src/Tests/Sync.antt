-- ===== src/Tests/Sync.antt =====
-- Synchronising one client at concrete documents.
use mcpgw.Base.{true, false, ◌≡◌, refl, none, some, [], ◌∷◌, In}
use mcpgw.Base.Bytes.{Text, codes, text_cmp}
use mcpgw.Base.Map.{Map, Set, get, contains_key}
use mcpgw.Config.Server.{Server, stdio, http}
use mcpgw.Clients.Json.{Json, entries_of, Object, string, object, boolean, fields_of}
use mcpgw.Clients.Schema.{ClientKind, codec}
use mcpgw.Clients.Edit.{json_entries}
use mcpgw.Sync.Apply.{apply_plan}
use mcpgw.Sync.Again.{recorded, plan_sync-apply_plan}
use mcpgw.Sync.Names.{under_client_names, under_client_names-resolved}
use mcpgw.Sync.Plan.{SyncPlan, has_changes, plan_sync}
use mcpgw.Sync.Fate.{fate}
use mcpgw.Sync.Decided.{Verdict, plan_sync-fate, plan_sync-stranger}

abbrev npx : Server
npx = record {
  enabled = true;
  tags = [];
  calls_per_minute = 0;
  transport = stdio (codes "npx") [] [];
  tools = none;
}

abbrev remote : Server
remote = record npx { transport = http (codes "https://x") [] [] none }

abbrev canonical : Map Server
canonical = (codes "fs", npx) ∷ (codes "gh", remote) ∷ (codes "mine", npx) ∷ []

-- The client switched `fs` off, holds an entry `mine` of its own and one that is to go.
abbrev current : Object
current =
    (
      codes "fs",
      object (
          fields_of
            ((codes "disabled", boolean true) ∷ (codes "command", string (codes "npx")) ∷ [])),
    )
    ∷ (codes "mine", string (codes "x"))
    ∷ (codes "old", string (codes "y"))
    ∷ (codes "other", string (codes "z"))
    ∷ []

abbrev managed : Set
managed = (codes "fs", tt) ∷ (codes "old", tt) ∷ []

abbrev plan : SyncPlan
plan = plan_sync ClientKind.cline current canonical managed

plan_runs :
    (plan.adds ≡ codes "gh" ∷ [])
    × (plan.updates ≡ [])
    × (plan.removes ≡ codes "old" ∷ [])
    × (plan.conflicts ≡ codes "mine" ∷ [])
    × (plan.foreign ≡ codes "other" ∷ [])
unfolding plan_sync text_cmp
plan_runs = (refl, refl, refl, refl, refl)

plan_sync-fate_example :
    Verdict ClientKind.cline current canonical managed
      (codes "old")
      plan
      (fate ClientKind.cline current managed canonical (codes "old"))
unfolding text_cmp
plan_sync-fate_example =
    plan_sync-fate ClientKind.cline current canonical managed (codes "old")
      ((refl, (refl, tt)), ((refl, tt), (tt, tt)))

plan_sync-stranger_example :
    (¬ In (codes "mine") plan.adds)
    × (¬ In (codes "mine") plan.updates)
    × (¬ In (codes "mine") plan.removes)
    × (get (codes "mine") plan.desired ≡ none)
unfolding text_cmp contains_key
plan_sync-stranger_example =
    plan_sync-stranger ClientKind.cline current canonical managed (codes "mine")
      ((refl, (refl, tt)), ((refl, tt), (tt, tt))) refl refl

-- This client's `gh` stands for the canonical `fs`.
abbrev answers : Map Text
answers = (codes "gh", codes "fs") ∷ []

names_run :
    ((under_client_names canonical answers).desired ≡ (codes "gh", npx) ∷ (codes "mine", npx) ∷ [])
    × ((under_client_names canonical answers).displaced ≡ codes "gh" ∷ [])
unfolding under_client_names text_cmp
names_run = (refl, refl)

under_client_names-resolved_example : get (codes "fs") canonical ≡ some npx
unfolding under_client_names text_cmp get
under_client_names-resolved_example =
    under_client_names-resolved canonical answers (codes "gh") (codes "fs") npx
      ((refl, (refl, tt)), ((refl, tt), (tt, tt))) (tt, tt) refl refl

-- The document of a Cline that holds these entries.
abbrev document : Json
document = object (fields_of ((codes "mcpServers", object (fields_of current)) ∷ []))

plan_sync-apply_plan_example :
    has_changes (
      plan_sync ClientKind.cline
        (json_entries
          (codec ClientKind.cline).root
          (apply_plan ClientKind.cline document (
            plan_sync ClientKind.cline
              (json_entries (codec ClientKind.cline).root document)
              canonical
              managed)).0)
        canonical
        (recorded (
          plan_sync ClientKind.cline
            (json_entries (codec ClientKind.cline).root document)
            canonical
            managed)))
    ≡ false
unfolding plan_sync apply_plan json_entries text_cmp fields_of entries_of codec get
    mcpgw.Clients.Unique.IsUnique
plan_sync-apply_plan_example =
    plan_sync-apply_plan ClientKind.cline document canonical managed
      ((refl, (refl, tt)), ((refl, tt), (tt, tt))) (tt, (tt, (tt, tt)))
      (refl, (refl, tt, (refl, tt, tt)), (refl, tt, (refl, tt, (refl, tt, tt)))) refl
