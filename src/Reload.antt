-- ===== src/Reload.antt =====
-- crates/core/src/reload.rs: how a change of the config file reaches a running gateway. A pipe of the
-- endpoint table is known by its server's name: what it reads it reads from the manager and the scopes.
pub mod Serving
pub mod Once
use mathlib.Core.Logic.{ite}
use native.Mathlib.Decide.{ℕ_discrete}
use mcpgw.Base.{
  ℕ, Bool, true, false, not, ◌&&◌, Option, none, some, List, [], ◌∷◌, retain, map, if◌then◌else◌,
  Result, ok, err,
}
use mcpgw.Base.Bytes.{Text}
use mcpgw.Base.Map.{Map, get}
use mcpgw.Config.Scope.{ClientScopes}
use mcpgw.Config.Server.{Server}
use mcpgw.Upstream.Apply.{Manager, apply}

-- The time of the last change, where there is one, and the length; none without a file.
abbrev pub Stamp : Type 0
Stamp = Option (Option ℕ × ℕ)

unfoldable pub Stamp-discrete : Discrete Stamp
unfolding ℕ_discrete
Stamp-discrete = hlevel ℕ_discrete

pub record Config : Type 0 where
  pub servers : Map Server
  pub clients : ClientScopes

pub record Reloader : Type 0 where
  pub manager : Manager
  pub endpoints : List Text
  pub selection : Option (List Text)
  pub clients : ClientScopes
  pub seen : Stamp

-- What one look at the file gives: its stamp, and its config or why it is not read.
pub record Reading : Type 0 where
  pub stamp : Stamp
  pub loaded : Result Text Config

abbrev pub is_on : Option Server → Bool
is_on none = false
is_on (some server) = server.enabled

unfoldable pub select : Option (List Text) → Config → List Text
unfolding get
select (some names) config = retain (λ name. is_on (get name config.servers)) names
select none config = map (λ p. p.0) (retain (λ p. p.1.enabled) config.servers)

-- Reloader::apply
unfoldable pub apply_config : Reloader → Config → Reloader
unfolding select apply
apply_config r config = record r {
  clients = config.clients;
  manager = (apply r.manager config.servers).0;
  endpoints = select r.selection config;
}

unfoldable pub reload : Reloader → Reading → Result Text Reloader × Reloader
unfolding apply_config
reload r reading =
    let marked = record r { seen = reading.stamp } in
    elim reading.loaded [
      | err why ↦ (err why, marked)
      | ok config ↦ (ok (apply_config marked config), apply_config marked config)
    ]

unfoldable pub changed : Reloader → Stamp → Bool
unfolding Stamp-discrete
changed r stamp = not (ite (Stamp-discrete stamp r.seen) true false)

-- One turn of the loop of watch, forced by a SIGHUP or not; what it prints is left out.
unfoldable pub poll : Reloader → Bool × Reading → Reloader
unfolding changed reload
poll r (forced, reading) =
    if not forced && not (changed r reading.stamp) then r else (reload r reading).1

unfoldable pub polls : Reloader → List (Bool × Reading) → Reloader
unfolding poll
polls r [] = r
polls r (look ∷ looks) = polls (poll r look) looks
