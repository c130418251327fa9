-- ===== src/State/Origin.antt =====
-- The origin key of a scope is read back as that scope.
use mcpgw.Base.{◌≡◌, refl, ap, ◌∙◌, some}
use mcpgw.Base.Bytes.{Text}
use mcpgw.Clients.Schema.{ClientKind, claude_desktop, claude_code, cursor, cline_cli}
use mcpgw.State.{Scope, home, project, origin_key, from_origin}

-- The path of a project's scope is shown as it is, as one of UTF-8 is.
abbrev pub IsShown : (Text → Text) → Scope → Type 0
IsShown display (home kind) = Unit {0}
IsShown display (project kind path) = display path ≡ path

-- The scope that a key holds: the path as it is shown.
unfoldable shown : (Text → Text) → Scope → Scope
shown display (home kind) = home kind
shown display (project kind path) = project kind (display path)

read_back :
    (display : Text → Text) (scope : Scope)
    → from_origin (origin_key display scope) ≡ some (shown display scope)
unfolding from_origin origin_key shown
read_back display (home claude_desktop) = refl
read_back display (home claude_code) = refl
read_back display (home cursor) = refl
read_back display (home ClientKind.vs_code) = refl
read_back display (home ClientKind.gemini) = refl
read_back display (home ClientKind.codex) = refl
read_back display (home ClientKind.opencode) = refl
read_back display (home ClientKind.windsurf) = refl
read_back display (home ClientKind.zed) = refl
read_back display (home ClientKind.cline) = refl
read_back display (home cline_cli) = refl
read_back display (home ClientKind.amp) = refl
read_back display (home ClientKind.zoo_code) = refl
read_back display (project claude_desktop path) = refl
read_back display (project claude_code path) = refl
read_back display (project cursor path) = refl
read_back display (project ClientKind.vs_code path) = refl
read_back display (project ClientKind.gemini path) = refl
read_back display (project ClientKind.codex path) = refl
read_back display (project ClientKind.opencode path) = refl
read_back display (project ClientKind.windsurf path) = refl
read_back display (project ClientKind.zed path) = refl
read_back display (project ClientKind.cline path) = refl
read_back display (project cline_cli path) = refl
read_back display (project ClientKind.amp path) = refl
read_back display (project ClientKind.zoo_code path) = refl

shown_same :
    (display : Text → Text) (scope : Scope) → IsShown display scope → shown display scope ≡ scope
unfolding shown
shown_same display (home kind) h = refl
shown_same display (project kind path) h = ap (project kind) h

-- Every scope is read back from its origin key: that of the user's own file, and that of a project's
-- whose path is shown as it is, whatever else the path holds, also the separator.
pub from_origin-origin_key :
    (display : Text → Text) (scope : Scope)
    → IsShown display scope
    → from_origin (origin_key display scope) ≡ some scope
from_origin-origin_key display scope h =
    read_back display scope ∙ ap some (shown_same display scope h)
