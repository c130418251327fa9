-- ===== src/Clients/Ids.antt =====
-- ClientKind::id and its reverse: how a client is named in the state file.
use mcpgw.Base.{◌≡◌, refl, Option, some, List, [], ◌∷◌, find}
use mcpgw.Base.Bytes.{Text, codes, text_eq}
use mcpgw.Clients.Schema.{ClientKind, claude_desktop, claude_code, cursor, cline_cli}

abbrev pub all_kinds : List ClientKind
all_kinds =
    claude_desktop ∷ claude_code ∷ cursor ∷ ClientKind.vs_code ∷ ClientKind.gemini
    ∷ ClientKind.codex ∷ ClientKind.opencode ∷ ClientKind.windsurf ∷ ClientKind.zed
    ∷ ClientKind.cline ∷ cline_cli ∷ ClientKind.amp ∷ ClientKind.zoo_code ∷ []

unfoldable pub id : ClientKind → Text
id claude_desktop = codes "claude-desktop"
id claude_code = codes "claude-code"
id cursor = codes "cursor"
id ClientKind.vs_code = codes "vscode"
id ClientKind.gemini = codes "gemini"
id ClientKind.codex = codes "codex"
id ClientKind.opencode = codes "opencode"
id ClientKind.windsurf = codes "windsurf"
id ClientKind.zed = codes "zed"
id ClientKind.cline = codes "cline"
id cline_cli = codes "cline-cli"
id ClientKind.amp = codes "amp"
id ClientKind.zoo_code = codes "zoo"

unfoldable pub from_id : Text → Option ClientKind
unfolding id text_eq
from_id name = find (λ kind. text_eq (id kind) name) all_kinds

pub from_id-id : (kind : ClientKind) → from_id (id kind) ≡ some kind
unfolding from_id
from_id-id claude_desktop = refl
from_id-id claude_code = refl
from_id-id cursor = refl
from_id-id ClientKind.vs_code = refl
from_id-id ClientKind.gemini = refl
from_id-id ClientKind.codex = refl
from_id-id ClientKind.opencode = refl
from_id-id ClientKind.windsurf = refl
from_id-id ClientKind.zed = refl
from_id-id ClientKind.cline = refl
from_id-id cline_cli = refl
from_id-id ClientKind.amp = refl
from_id-id ClientKind.zoo_code = refl
