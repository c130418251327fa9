-- ===== src/Clients/Schema.antt =====
-- ClientKind::codec and EntrySchema: which client uses which shape, and what each shape holds.
use mcpgw.Base.{Bool, true, false, Option, none, some, List, [], ◌∷◌}
use mcpgw.Base.Bytes.{Text, codes}

pub data ClientKind : Type 0 where
  claude_desktop claude_code cursor vs_code gemini codex opencode windsurf zed cline cline_cli amp
        zoo_code :
      ClientKind

pub data Format : Type 0 where
  json jsonc toml : Format

pub data EntrySchema : Type 0 where
  mcp_servers vs_code gemini codex opencode windsurf zed cline amp zoo_code : EntrySchema

pub record Codec : Type 0 where
  pub format : Format
  pub root : List Text
  pub entries : EntrySchema

abbrev rooted : Format → Text → EntrySchema → Codec
rooted format root entries = record { format = format; root = root ∷ []; entries = entries }

unfoldable pub codec : ClientKind → Codec
codec ClientKind.vs_code = rooted json (codes "servers") EntrySchema.vs_code
codec ClientKind.gemini = rooted json (codes "mcpServers") EntrySchema.gemini
codec ClientKind.codex = rooted toml (codes "mcp_servers") EntrySchema.codex
codec ClientKind.opencode = rooted jsonc (codes "mcp") EntrySchema.opencode
codec ClientKind.windsurf = rooted json (codes "mcpServers") EntrySchema.windsurf
codec ClientKind.zed = rooted jsonc (codes "context_servers") EntrySchema.zed
codec ClientKind.cline = rooted jsonc (codes "mcpServers") EntrySchema.cline
codec ClientKind.cline_cli = rooted jsonc (codes "mcpServers") EntrySchema.cline
codec ClientKind.amp = rooted jsonc (codes "amp.mcpServers") EntrySchema.amp
codec ClientKind.zoo_code = rooted json (codes "mcpServers") EntrySchema.zoo_code
codec claude_desktop = rooted json (codes "mcpServers") mcp_servers
codec claude_code = rooted json (codes "mcpServers") mcp_servers
codec cursor = rooted json (codes "mcpServers") mcp_servers

unfoldable pub helper_field : EntrySchema → Option Text
helper_field mcp_servers = some (codes "headersHelper")
helper_field EntrySchema.codex = some (codes "http_headers_helper")
helper_field _ = none

unfoldable pub carries_headers : EntrySchema → Bool
carries_headers EntrySchema.zed = false
carries_headers _ = true

unfoldable pub preserved_fields : EntrySchema → List Text
preserved_fields EntrySchema.cline = codes "disabled" ∷ codes "autoApprove" ∷ []
preserved_fields EntrySchema.zoo_code =
    codes "disabled" ∷ codes "autoApprove" ∷ codes "alwaysAllow" ∷ codes "disabledTools" ∷ []
preserved_fields EntrySchema.amp = codes "disabled" ∷ []
preserved_fields _ = []
