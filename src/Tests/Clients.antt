-- ===== src/Tests/Clients.antt =====
-- Reading, writing and editing client entries at concrete inputs.
use mcpgw.Base.{◌↔◌, ◌≡◌, refl, true, none, some, List, [], ◌∷◌, ok, err}
use mcpgw.Base.Bytes.{Text, codes}
use mcpgw.Config.Server.{Server, http}
use mcpgw.Clients.Json.{Json, string, number, object, fields_of}
use mcpgw.Clients.Schema.{gemini, mcp_servers, cline}
use mcpgw.Clients.Emit.{emit}
use mcpgw.Clients.Fields.{no_target}
use mcpgw.Clients.Parse.{parse, server_of, legacy_sse}
use mcpgw.Clients.RoundTrip.{parse-emit}
use mcpgw.Clients.Edit.{edit_json, refused_at, locate_in, json_entries, put_all, remove_all}
use mcpgw.Clients.Edit.Refused.{edit_json-locate_in}
use mcpgw.Clients.Edit.Located.{edit_json-json_entries}

abbrev minted : Server
minted = record {
  enabled = true;
  tags = codes "work" ∷ [];
  calls_per_minute = 3;
  transport =
      http (codes "https://x") (codes "mint" ∷ codes "-v" ∷ []) ((codes "A", codes "1") ∷ []) none;
  tools = none;
}

-- The tags and the call budget are mcpgw's own; the helper comes back as two words.
parse-emit_example :
    parse mcp_servers (emit mcp_servers minted)
    ≡ ok (
      server_of true (
          http
            (codes "https://x")
            (codes "mint" ∷ codes "-v" ∷ [])
            ((codes "A", codes "1") ∷ [])
            none),
      none,
    )
unfolding mcpgw.Clients.Schema.helper_field mcpgw.Clients.Fields.split_whitespace
    mcpgw.Clients.Emit.join_spaced
parse-emit_example = parse-emit mcp_servers minted (tt, tt)

abbrev one : Text → Json → Json
one key value = object (fields_of ((key, value) ∷ []))

-- An untyped remote entry of Cline's is read by the old transport, an entry without a target is not
-- read.
parse_runs :
    (parse cline (one (codes "url") (string (codes "u")))
      ≡ ok (server_of true (http (codes "u") [] [] none), some legacy_sse))
    × (parse gemini (one (codes "type") (string (codes "stdio"))) ≡ err no_target)
unfolding parse fields_of
parse_runs = (refl, refl)

abbrev path : List Text
path = codes "a" ∷ codes "b" ∷ []

abbrev broken : Json
broken = one (codes "a") (number (codes "7"))

edit_json-locate_in_example :
    ((edit_json path broken (codes "x" ∷ []) [] ≡ (broken, err (codes "a" ∷ [])))
      ↔ (refused_at (locate_in path broken) ≡ some (codes "a" ∷ [])))
    × (refused_at (edit_json path broken (codes "x" ∷ []) []).1
        ≡ refused_at (locate_in path broken))
edit_json-locate_in_example = edit_json-locate_in path broken (codes "x" ∷ []) [] (codes "a" ∷ [])

-- The read of that document is refused, so the edit is.
edit_refused_run : edit_json path broken (codes "x" ∷ []) [] ≡ (broken, err (codes "a" ∷ []))
unfolding locate_in fields_of
edit_refused_run = (edit_json-locate_in path broken (codes "x" ∷ []) [] (codes "a" ∷ [])).0.1 refl

abbrev fresh : Json
fresh = one (codes "c") (number (codes "7"))

abbrev entry : Text × Json
entry = (codes "fs", string (codes "e"))

edit_json-json_entries_example :
    json_entries path (edit_json path fresh (codes "x" ∷ []) (entry ∷ [])).0
    ≡ put_all (entry ∷ []) (remove_all (codes "x" ∷ []) (json_entries path fresh))
unfolding edit_json
edit_json-json_entries_example =
    edit_json-json_entries path fresh (codes "x" ∷ []) (entry ∷ []) refl

edit_runs : json_entries path (edit_json path fresh (codes "x" ∷ []) (entry ∷ [])).0 ≡ entry ∷ []
unfolding edit_json json_entries
edit_runs = refl
