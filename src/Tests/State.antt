-- ===== src/Tests/State.antt =====
-- The state file at concrete scopes.
use mcpgw.Base.{◌==◌, ◌++◌, ◌≡◌, refl, false, some, [], ◌∷◌, if◌then◌else◌}
use mcpgw.Base.Bytes.{Text, codes}
use mcpgw.Base.Map.{Set, insert}
use mcpgw.Clients.Schema.{cursor, claude_code}
use mcpgw.State.{
  ManagedState, Scope, project, managed, resolved, claim, resolve_to, same_file, origin_key,
  from_origin, project_scopes,
}
use mcpgw.State.Owned.{claim-managed, Recorded}
use mcpgw.State.Answered.{resolve_to-resolved}
use mcpgw.State.Origin.{from_origin-origin_key}

-- A normalisation that drops one leading dot.
abbrev drop_dot : Text → Text
drop_dot [] = []
drop_dot (c ∷ path) = if c == 46 then path else c ∷ path

abbrev empty_state : ManagedState
empty_state = record { clients = []; resolved = []; files = []; migrated = false }

abbrev names : Set
names = (codes "gh", tt) ∷ []

abbrev here : Scope
here = project cursor (codes "./mcp.json")

abbrev there : Scope
there = project claude_code (codes "/mcp.json")

-- Two spellings of one file, under two clients: one record, which the later client keeps.
claim_runs :
    (managed drop_dot there (claim drop_dot here names empty_state) ≡ names)
    × (project_scopes (claim drop_dot here names empty_state)
        ≡ project cursor (codes "/mcp.json") ∷ [])
unfolding claim managed project_scopes
claim_runs = (refl, refl)

claim-managed_example :
    (managed drop_dot there (claim drop_dot here names empty_state)
      ≡ (if same_file drop_dot here there then names else managed drop_dot there empty_state))
    × (resolved drop_dot there (claim drop_dot here names empty_state)
        ≡ resolved drop_dot there empty_state)
    × Recorded drop_dot here (codes "/mcp.json") empty_state (claim drop_dot here names empty_state)
    × ((claim drop_dot here names empty_state).migrated ≡ empty_state.migrated)
claim-managed_example = claim-managed drop_dot here there names (codes "/mcp.json") empty_state

resolve_to-resolved_example :
    (resolved drop_dot there (resolve_to drop_dot here (codes "gh") (codes "gh-2") empty_state) ≡ (
      if same_file drop_dot here there
      then insert (codes "gh") (codes "gh-2") (resolved drop_dot here empty_state)
      else resolved drop_dot there empty_state))
    × (managed drop_dot there (resolve_to drop_dot here (codes "gh") (codes "gh-2") empty_state)
        ≡ managed drop_dot there empty_state)
    × Recorded drop_dot here
        (codes "/mcp.json")
        empty_state
        (resolve_to drop_dot here (codes "gh") (codes "gh-2") empty_state)
    × ((resolve_to drop_dot here (codes "gh") (codes "gh-2") empty_state).migrated
        ≡ empty_state.migrated)
resolve_to-resolved_example =
    resolve_to-resolved drop_dot here there (codes "gh") (codes "gh-2") (codes "/mcp.json")
      empty_state

-- U+FFFD
abbrev replacement : Text
replacement = 239 ∷ 191 ∷ 189 ∷ []

-- What is shown for a byte that begins no character: the replacement character.
abbrev lossy : Text → Text
lossy [] = []
lossy (c ∷ path) = (if c == 255 then replacement else c ∷ []) ++ lossy path

-- A path that is no UTF-8 is not read back.
lossy_runs :
    from_origin (origin_key lossy (project cursor (255 ∷ []))) ≡ some (project cursor (replacement))
unfolding from_origin origin_key
lossy_runs = refl

from_origin-origin_key_example : from_origin (origin_key lossy here) ≡ some here
from_origin-origin_key_example = from_origin-origin_key lossy here refl
