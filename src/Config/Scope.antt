-- ===== src/Config/Scope.antt =====
-- crates/core/src/config.rs: `ClientScope` and the live table `ClientScopes`.
use mcpgw.Base.{ℕ, Bool, true, false, not, ◌||◌, Option, none, some, List, any, is_empty}
use mcpgw.Base.Bytes.{Text, text_eq}
use mcpgw.Base.Map.{Map, get}
use mcpgw.Config.Rules.{ToolRules, allows, rules_is_empty}

pub record ClientScope : Type 0 where
  pub servers : List Text
  pub max_tools : Option ℕ
  pub tools : Option ToolRules

unfoldable pub has_server : ClientScope → Text → Bool
unfolding text_eq
has_server scope server = is_empty scope.servers || any (λ name. text_eq name server) scope.servers

-- Option::is_none_or over the rules of a table that may be absent
unfoldable pub tools_allow : Option ToolRules → Text → Bool
unfolding allows
tools_allow none tool = true
tools_allow (some rules) tool = allows rules tool

unfoldable pub scope_allows_tool : ClientScope → Text → Bool
unfolding tools_allow
scope_allows_tool scope tool = tools_allow scope.tools tool

abbrev rules_restrict : Option ToolRules → Bool
rules_restrict none = false
rules_restrict (some rules) = not (rules_is_empty rules)

unfoldable pub restricts : ClientScope → Bool
unfolding rules_is_empty
restricts scope = not (is_empty scope.servers) || rules_restrict scope.tools

abbrev pub ClientScopes : Type 0
ClientScopes = Map ClientScope

unfoldable pub scope_of : ClientScopes → Text → Option ClientScope
unfolding get
scope_of scopes client = get client scopes
