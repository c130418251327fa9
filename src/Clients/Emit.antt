-- ===== src/Clients/Emit.antt =====
-- EntrySchema::emit: the client-shaped value of one canonical server.
use mcpgw.Base.{Bool, Option, none, some, List, [], ◌∷◌, ◌++◌, map, is_empty, if◌then◌else◌}
use mcpgw.Base.Bytes.{Text, codes}
use mcpgw.Base.Map.{Map}
use mcpgw.Config.Server.{Server, Transport, stdio, http}
use mcpgw.Clients.Json.{Json, string, array, object, Object, fields_of, items_of, put}
use mcpgw.Clients.Schema.{
  EntrySchema, mcp_servers, vs_code, gemini, codex, opencode, windsurf, zed, cline, amp, zoo_code,
  helper_field,
}

abbrev pub string_pair : Text × Text → Text × Json
string_pair (k, v) = (k, string v)

unfoldable pub string_map : Map Text → Json
unfolding fields_of
string_map m = object (fields_of (map string_pair m))

unfoldable pub string_array : List Text → Json
unfolding items_of
string_array l = array (items_of (map string l))

-- [String]::join(" ")
unfoldable pub join_spaced : List Text → Text
join_spaced [] = []
join_spaced (t ∷ []) = t
join_spaced (t ∷ u ∷ l) = t ++ codes " " ++ join_spaced (u ∷ l)

abbrev pub put_unless : Bool → Text → Json → Object → Object
put_unless empty k v obj = if empty then obj else put k v obj

-- The target field of a remote entry.
unfoldable pub put_target : EntrySchema → Text → Object → Object
unfolding put
put_target gemini url obj = put (codes "httpUrl") (string url) obj
put_target codex url obj = put (codes "url") (string url) obj
put_target windsurf url obj = put (codes "serverUrl") (string url) obj
put_target zed url obj = put (codes "url") (string url) obj
put_target amp url obj = put (codes "url") (string url) obj
put_target cline url obj =
    put (codes "url") (string url) (put (codes "type") (string (codes "streamableHttp")) obj)
put_target zoo_code url obj =
    put (codes "url") (string url) (put (codes "type") (string (codes "streamable-http")) obj)
put_target mcp_servers url obj =
    put (codes "url") (string url) (put (codes "type") (string (codes "http")) obj)
put_target vs_code url obj =
    put (codes "url") (string url) (put (codes "type") (string (codes "http")) obj)
-- Unreachable: `emit` writes this shape whole.
put_target opencode url obj = obj

unfoldable pub headers_key : EntrySchema → Text
headers_key codex = codes "http_headers"
headers_key _ = codes "headers"

abbrev pub put_helper : Option Text → List Text → Object → Object
put_helper none argv obj = obj
put_helper (some key) argv obj = put_unless (is_empty argv) key (string (join_spaced argv)) obj

abbrev pub put_type : EntrySchema → Object → Object
put_type vs_code obj = put (codes "type") (string (codes "stdio")) obj
put_type _ obj = obj

abbrev pub put_source : EntrySchema → Object → Object
put_source zed obj = put (codes "source") (string (codes "custom")) obj
put_source _ obj = obj

unfoldable pub emit_object : EntrySchema → Transport → Object
unfolding put put_target headers_key helper_field string_map string_array join_spaced
emit_object schema (stdio command args env) = put_source schema (
    put_unless (is_empty env) (codes "env") (string_map env) (
      put_unless (is_empty args) (codes "args") (string_array args)
        (put (codes "command") (string command) (put_type schema []))))
emit_object schema (http url headers_command headers auth) =
    put_helper (helper_field schema) headers_command (
      put_unless (is_empty headers) (headers_key schema) (string_map headers)
        (put_target schema url []))

unfoldable pub emit_opencode : Transport → Object
unfolding put string_map string_array
emit_opencode (stdio command args env) =
    put_unless (is_empty env) (codes "environment") (string_map env) (
      put (codes "command") (string_array (command ∷ args))
        (put (codes "type") (string (codes "local")) []))
emit_opencode (http url headers_command headers auth) =
    put_unless (is_empty headers) (codes "headers") (string_map headers)
      (put (codes "url") (string url) (put (codes "type") (string (codes "remote")) []))

unfoldable pub emitted_object : EntrySchema → Server → Object
unfolding emit_object emit_opencode
emitted_object opencode server = emit_opencode server.transport
emitted_object schema server = emit_object schema server.transport

unfoldable pub emit : EntrySchema → Server → Json
unfolding emitted_object fields_of
emit schema server = object (fields_of (emitted_object schema server))
