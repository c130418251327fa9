-- ===== src/Clients/RoundTrip.antt =====
-- What `emit` writes is what `parse` reads back.
use mathlib.Core.Path.{ap₂}
use mcpgw.Base.{◌≡◌, refl, ap, ◌∙◌, true, none, some, List, [], ◌∷◌, map, is_empty, ok, ◌>>=◌}
use mcpgw.Base.Bytes.{Text, codes}
use mcpgw.Base.Map.{Map, collect, IsSorted, collect-sorted}
use mcpgw.Config.Server.{Server, Transport, stdio, http}
use mcpgw.Clients.Json.{Object, string, fields_of, items_of, as_object}
use mcpgw.Clients.Schema.{
  EntrySchema, mcp_servers, vs_code, gemini, codex, opencode, windsurf, zed, cline, amp, zoo_code,
}
use mcpgw.Clients.Objects.{entries_of-fields_of}
use mcpgw.Clients.Emit.{
  string_pair, string_map, string_array, emit, emit_object, emit_opencode, emitted_object,
  headers_key,
}
use mcpgw.Clients.Fields.{items_text, fields_text, list_of, map_of}
use mcpgw.Clients.Parse.{parse, parse_entry, server_of, with_auth, join_notes}
use mcpgw.Clients.Found.{
  parse_object-stdio, parse_object-http, parse_object-local, parse_object-remote, as_local,
  IsPatched, read_back, plain, unless,
}

items_text-items_of : (key : Text) (l : List Text) → items_text key (items_of (map string l)) ≡ ok l
unfolding items_text items_of
items_text-items_of key [] = refl
items_text-items_of key (t ∷ l) = rw (items_text-items_of key l) refl

fields_text-fields_of :
    (key : Text) (m : Map Text) → fields_text key (fields_of (map string_pair m)) ≡ ok m
unfolding fields_text fields_of
fields_text-fields_of key [] = refl
fields_text-fields_of key ((k, t) ∷ m) = rw (fields_text-fields_of key m) refl

read_array :
    (key : Text) (l : List Text) → list_of key (unless (is_empty l) (string_array l)) ≡ ok l
unfolding string_array
read_array key [] = refl
read_array key (t ∷ l) = items_text-items_of key (t ∷ l)

read_map :
    (key : Text) (m : Map Text)
    → IsSorted m
    → map_of key (unless (is_empty m) (string_map m)) ≡ ok m
unfolding string_map
read_map key [] s = refl
read_map key (p ∷ m) s =
    ap (λ r. r >>= λ texts. ok (collect texts)) (fields_text-fields_of key (p ∷ m))
    ∙ ap ok (collect-sorted (p ∷ m) s)

-- The keys of a transport's map stand in order.
abbrev pub HasSortedKeys : Transport → Type 0
HasSortedKeys (stdio command args env) = IsSorted env
HasSortedKeys (http url argv headers auth) = IsSorted headers

-- What an entry says of a transport: the login is mcpgw's own, and of a headers command only what the
-- shape has a field for, split at its white space.
abbrev pub kept_of : EntrySchema → Transport → Transport
kept_of schema (stdio command args env) = stdio command args env
kept_of schema (http url argv headers auth) = http url (read_back schema argv) headers none

patched_back :
    (schema : EntrySchema) (transport : Transport)
    → IsPatched schema
    → HasSortedKeys transport
    → parse_entry schema (some (emit_object schema transport))
      ≡ ok (server_of true (kept_of schema transport), none)
unfolding emit_object
patched_back schema (stdio command args env) p s =
    ap (λ r. r >>= λ read. ok (with_auth schema obj read read.0.transport))
      (parse_object-stdio schema (is_empty args) (is_empty env) command (string_array args)
          (string_map env) p
        ∙ ap₂ (λ l m. plain (l >>= λ texts. m >>= λ pairs. ok (stdio command texts pairs)))
            (read_array (codes "args") args) (read_map (codes "env") env s))
  where
    obj : Object
    obj = emit_object schema (stdio command args env)
patched_back schema (http url argv headers auth) p s =
    let (found, words, quiet) =
      parse_object-http schema url argv (is_empty headers) (string_map headers) p in
    ap (λ r. r >>= λ read. ok (with_auth schema obj read read.0.transport))
      (found
        ∙ ap (λ m. plain (m >>= λ pairs. ok (http url [] pairs none)))
            (read_map (headers_key schema) headers s))
    ∙ ap₂
        (λ w a. ok (
          record (server_of true (http url w headers none)) { transport = http url w headers none },
          join_notes none a,
        ))
        words quiet
  where
    obj : Object
    obj = emit_object schema (http url argv headers auth)

opencode_back :
    (transport : Transport)
    → HasSortedKeys transport
    → parse_entry opencode (some (emit_opencode transport))
      ≡ ok (server_of true (kept_of opencode transport), none)
unfolding emit_opencode
opencode_back (stdio command args env) s =
    ap (λ r. r >>= λ read. ok (with_auth opencode obj read read.0.transport))
      (parse_object-local (is_empty env) (string_array (command ∷ args)) (string_map env)
        ∙ ap₂ (λ l m. plain (as_local l m)) (read_array (codes "command") (command ∷ args))
            (read_map (codes "environment") env s))
  where
    obj : Object
    obj = emit_opencode (stdio command args env)
opencode_back (http url argv headers auth) s =
    let (found, words, quiet) =
      parse_object-remote url argv (is_empty headers) (string_map headers) in
    ap (λ r. r >>= λ read. ok (with_auth opencode obj read read.0.transport))
      (found
        ∙ ap (λ m. plain (m >>= λ pairs. ok (http url [] pairs none)))
            (read_map (codes "headers") headers s))
    ∙ ap₂ (λ w a. ok (server_of true (http url w headers none), join_notes none a)) words quiet
  where
    obj : Object
    obj = emit_opencode (http url argv headers auth)

entry_back :
    (schema : EntrySchema) (server : Server)
    → HasSortedKeys server.transport
    → parse_entry schema (some (emitted_object schema server))
      ≡ ok (server_of true (kept_of schema server.transport), none)
unfolding emitted_object
entry_back opencode server s = opencode_back server.transport s
entry_back mcp_servers server s = patched_back mcp_servers server.transport tt s
entry_back vs_code server s = patched_back vs_code server.transport tt s
entry_back gemini server s = patched_back gemini server.transport tt s
entry_back codex server s = patched_back codex server.transport tt s
entry_back windsurf server s = patched_back windsurf server.transport tt s
entry_back zed server s = patched_back zed server.transport tt s
entry_back cline server s = patched_back cline server.transport tt s
entry_back amp server s = patched_back amp server.transport tt s
entry_back zoo_code server s = patched_back zoo_code server.transport tt s

-- In each of the ten shapes, the entry that is emitted for a server is read back without an error or
-- a note, as an enabled server with the same command, arguments and environment, or the same URL and
-- headers. What an entry has no place for comes back empty: tags, rules, the call budget and the
-- login; a headers command comes back, split at its white space, where the shape has a field for it.
pub parse-emit :
    (schema : EntrySchema) (server : Server)
    → HasSortedKeys server.transport
    → parse schema (emit schema server)
      ≡ ok (server_of true (kept_of schema server.transport), none)
unfolding parse emit as_object
parse-emit schema server s =
    ap (λ o. parse_entry schema (some o)) (entries_of-fields_of (emitted_object schema server))
    ∙ entry_back schema server s
