-- ===== src/Tests/Context.antt =====
-- Gemini's exclusion list at a concrete document.
use mcpgw.Base.{◌≡◌, refl, ◌↔◌, ◌⊎◌, List, [], ◌∷◌, In}
use mcpgw.Base.Bytes.{codes, text_cmp}
use mcpgw.Base.Map.{keys}
use mcpgw.Clients.Json.{Json, null, string, array, object, fields_of, items_of}
use mcpgw.Clients.Schema.{ClientKind}
use mcpgw.Sync.Plan.{SyncPlan, empty_plan}
use mcpgw.Sync.Context.{excluded_names, plan_client_context, plan_client_context-unexclude}

abbrev excluded_here : List Json
excluded_here = string (codes "gh") ∷ string (codes "mine") ∷ null ∷ string (codes "gh") ∷ []

abbrev document : Json
document = object (
    fields_of (
      (codes "mcp", object (fields_of ((codes "excluded", array (items_of excluded_here)) ∷ [])))
      ∷ []))

abbrev planned : SyncPlan
planned = record empty_plan {
  adds = codes "gh" ∷ [];
  desired = (codes "gh", null) ∷ [];
  conflicts = codes "mine" ∷ [];
}

context_runs : (plan_client_context ClientKind.gemini document planned).unexclude ≡ codes "gh" ∷ []
unfolding plan_client_context text_cmp fields_of items_of
context_runs = refl

plan_client_context-unexclude_example :
    (In (codes "gh") (plan_client_context ClientKind.gemini document planned).unexclude ↔ (
      In (codes "gh") (codes "gh" ∷ codes "mine" ∷ codes "gh" ∷ [])
      × (In (codes "gh") (keys planned.desired) ⊎ In (codes "gh") planned.removes)))
    × (plan_client_context ClientKind.gemini document planned ≡ record planned {
      unexclude = (plan_client_context ClientKind.gemini document planned).unexclude;
    })
unfolding excluded_names fields_of items_of
plan_client_context-unexclude_example =
    plan_client_context-unexclude ClientKind.gemini document planned
      (codes "gh" ∷ codes "mine" ∷ codes "gh" ∷ []) (codes "gh") refl
