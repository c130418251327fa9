-- ===== src/Config/Server.antt =====
-- crates/core/src/config.rs: `Server`, `Transport` and `ServerAuth`, with their derived equality.
use native.Mathlib.Decide.{ℕ_discrete}
use mcpgw.Base.{ℕ, Bool, Option, none, some, List}
use mcpgw.Base.Bytes.{Text}
use mcpgw.Base.Map.{Map}
use mcpgw.Config.Rules.{ToolRules, Drift, warn}
use mcpgw.Config.Scope.{tools_allow}

pub record ServerAuth : Type 0 where
  pub client_id : Option Text
  pub client_secret_env : Option Text
  pub scopes : List Text

pub data Transport : Type 0 where
  stdio : (command : Text) (args : List Text) (env : Map Text) → Transport
  http :
      (url : Text) (headers_command : List Text) (headers : Map Text) (auth : Option ServerAuth)
      → Transport

pub record Server : Type 0 where
  pub enabled : Bool
  pub tags : List Text
  pub calls_per_minute : ℕ
  pub transport : Transport
  pub tools : Option ToolRules

unfoldable pub Text-discrete : Discrete Text
unfolding ℕ_discrete
Text-discrete = hlevel ℕ_discrete

unfoldable pub Transport-discrete : Discrete Transport
unfolding ℕ_discrete
Transport-discrete = hlevel ℕ_discrete

unfoldable pub Server-discrete : Discrete Server
unfolding ℕ_discrete
Server-discrete = hlevel ℕ_discrete

unfoldable pub allows_tool : Server → Text → Bool
unfolding tools_allow
allows_tool server tool = tools_allow server.tools tool

unfoldable pub drift : Server → Drift
drift server = elim server.tools [ none ↦ warn | some rules ↦ rules.drift ]
