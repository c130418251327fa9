-- ===== src/Tests/Gateway.antt =====
-- An endpoint at concrete inputs.
use mcpgw.Base.{
  ◌≡◌, ◌≢◌, ◌↔◌, refl, sym, ap, ◌∙◌, true, false, Option, none, some, List, [], ◌∷◌, In,
}
use mcpgw.Base.Bytes.{Text, codes}
use mcpgw.Config.Rules.{warn}
use mcpgw.Config.Scope.{ClientScopes}
use mcpgw.Config.Server.{Server, stdio}
use mcpgw.Upstream.Slot.{upstream_publishing}
use mcpgw.Gateway.{Gateway, not_allowed_for, Admission, denied, forwarded, list_tools, call_tool}
use mcpgw.Gateway.Shown.{is_denied, list_tools_iff}
use mcpgw.Gateway.Origin.{guard_origin, IsLocalOrigin, guard_origin_iff}
use mcpgw.Gateway.Refused.{call_tool-refused}

abbrev metered_server : Server
metered_server = record {
  enabled = true;
  tags = [];
  calls_per_minute = 1;
  transport = stdio (codes "npx") [] [];
  tools = none;
}

-- Cursor gets every tool of the server but one.
abbrev scopes : ClientScopes
scopes =
    (
      codes "cursor",
      record {
        servers = [];
        max_tools = none;
        tools = some (record { allow = []; deny = codes "rm" ∷ []; drift = warn });
      },
    )
    ∷ []

abbrev gateway : Gateway
gateway = record {
  manager = record {
    upstreams = (codes "fs", 0) ∷ [];
    heap = λ id. upstream_publishing metered_server 0;
    fresh = 1;
    channels = 1;
  };
  upstream = codes "fs";
  clients = scopes;
}

abbrev cursor : Option Text
cursor = some (codes "cursor")

abbrev tools : List Text
tools = codes "ls" ∷ codes "rm" ∷ []

calls_run :
    (list_tools (λ t. t) gateway false cursor tools ≡ codes "ls" ∷ [])
    × ((call_tool gateway 7 (codes "rm") cursor).0
        ≡ denied (not_allowed_for (codes "rm") (codes "fs") (codes "cursor")))
    × ((call_tool gateway 7 (codes "ls") cursor).0 ≡ forwarded)
unfolding list_tools call_tool upstream_publishing mcpgw.Upstream.Budget.burst
    mcpgw.Upstream.Budget.interval
calls_run = (refl, refl, refl)

list_tools_iff_example :
    In (codes "rm") (list_tools (λ t. t) gateway false cursor tools)
    ↔ (In (codes "rm") tools × (is_denied (call_tool gateway 7 (codes "rm") cursor).0 ≡ false))
list_tools_iff_example = list_tools_iff (λ t. t) gateway cursor tools (codes "rm") 7

denied-forwarded : (a : Admission) → is_denied a ≡ true → a ≢ forwarded
denied-forwarded a h e = clash (sym h ∙ ap is_denied e)
  where
    clash : ¬ (true ≡ false)
    clash q = cc

call_tool-refused_example : (call_tool gateway 7 (codes "rm") cursor).1 ≡ gateway
unfolding call_tool upstream_publishing
call_tool-refused_example =
    call_tool-refused gateway 7 (codes "rm") cursor
      (denied-forwarded (call_tool gateway 7 (codes "rm") cursor).0 refl)

origins_run :
    (guard_origin (some (codes "http://[::1]:8137")) ≡ true)
    × (guard_origin (some (codes "http://localhost.evil.example")) ≡ false)
    × (guard_origin (some (codes "null")) ≡ false)
    × (guard_origin none ≡ true)
unfolding guard_origin
origins_run = (refl, refl, refl, refl)

guard_origin_iff_example :
    (guard_origin (some (codes "http://[::1]:8137")) ≡ true)
    ↔ IsLocalOrigin (codes "http://[::1]:8137")
guard_origin_iff_example = guard_origin_iff (codes "http://[::1]:8137")
