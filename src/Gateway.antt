-- ===== src/Gateway.antt =====
-- crates/core/src/gateway.rs: which tools of its server an endpoint shows to a client and lets it
-- call. What the upstream answers is a list of tools of any type with a name.
pub mod Shown
pub mod Refused
pub mod Origin
use mcpgw.Base.{ℕ, Bool, true, false, not, Option, none, some, List, [], ◌∷◌, retain, if◌then◌else◌}
use mcpgw.Base.Bytes.{Text}
use mcpgw.Base.Map.{get}
use mcpgw.Config.Scope.{ClientScope, ClientScopes, scope_of, has_server, scope_allows_tool}
use mcpgw.Config.Server.{Server, allows_tool}
use mcpgw.Upstream.Budget.{OverBudget, Budget, charge}
use mcpgw.Upstream.Slot.{Upstream}
use mcpgw.Upstream.Apply.{Manager, Heap, update, server}

-- The fields that decide neither what is shown nor what may be called are left out.
pub record Gateway : Type 0 where
  pub manager : Manager
  pub upstream : Text
  pub clients : ClientScopes

-- The three messages, by what they name.
pub data Refusal : Type 0 where
  not_allowed : (tool server : Text) → Refusal
  not_offered : (server client : Text) → Refusal
  not_allowed_for : (tool server client : Text) → Refusal

-- The scope of a client that is tagged and has one.
abbrev pub scope_for : ClientScopes → Option Text → Option (Text × ClientScope)
scope_for clients none = none
scope_for clients (some client) = elim (scope_of clients client) [
  | none ↦ none
  | some scope ↦ some (client, scope)
]

abbrev pub offered : Option Server → Text → Bool
offered none tool = true
offered (some s) tool = allows_tool s tool

abbrev pub scope_refusal : Text → Text → Option (Text × ClientScope) → Option Refusal
scope_refusal tool upstream none = none
scope_refusal tool upstream (some (client, scope)) =
    if not (has_server scope upstream)
    then some (not_offered upstream client)
    else if not (scope_allows_tool scope tool)
    then some (not_allowed_for tool upstream client)
    else none

unfoldable pub refusal : Gateway → Text → Option Text → Option Refusal
unfolding server allows_tool scope_of has_server scope_allows_tool
refusal gateway tool client =
    if not (offered (server gateway.manager gateway.upstream) tool)
    then some (not_allowed tool gateway.upstream)
    else scope_refusal tool gateway.upstream (scope_for gateway.clients client)

unfoldable pub allows : Gateway → Text → Option Text → Bool
unfolding refusal
allows gateway tool client = elim (refusal gateway tool client) [ none ↦ true | some why ↦ false ]

-- list_tools, on the merged pages of the upstream: a request with a cursor asks for a page after the
-- last.
unfoldable pub list_tools :
    {Tool : Type 0} → (Tool → Text) → Gateway → Bool → Option Text → List Tool → List Tool
unfolding allows
list_tools name gateway has_cursor client tools =
    if has_cursor then [] else retain (λ tool. allows gateway (name tool) client) tools

abbrev pub put_budget : Upstream → Budget → Upstream
put_budget u budget = record u { budget = budget }

-- UpstreamManager::charge
unfoldable pub manager_charge : Manager → Text → ℕ → Option OverBudget × Manager
unfolding get charge
manager_charge m name now = elim (get name m.upstreams) [
  | none ↦ (none, m)
  | some id ↦ (
    (charge (m.heap id).server.calls_per_minute now (m.heap id).budget).0,
    record m {
      heap = update m.heap id (
          put_budget (m.heap id)
            (charge (m.heap id).server.calls_per_minute now (m.heap id).budget).1);
    },
  )
]

-- How far a call gets before the upstream is acquired.
pub data Admission : Type 0 where
  denied : Refusal → Admission
  throttled : OverBudget → Admission
  forwarded : Admission

abbrev metered : Gateway → Option OverBudget × Manager → Admission × Gateway
metered gateway (some over, m) = (throttled over, record gateway { manager = m })
metered gateway (none, m) = (forwarded, record gateway { manager = m })

unfoldable pub call_tool : Gateway → ℕ → Text → Option Text → Admission × Gateway
unfolding refusal manager_charge
call_tool gateway now tool client = elim (refusal gateway tool client) [
  | some why ↦ (denied why, gateway)
  | none ↦ metered gateway (manager_charge gateway.manager gateway.upstream now)
]
