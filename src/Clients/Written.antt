-- ===== src/Clients/Written.antt =====
-- An emitted entry has no key twice.
use mcpgw.Base.{
  ◌≡◌, refl, Bool, true, false, Option, none, some, List, [], ◌∷◌, map, is_empty, if◌then◌else◌,
}
use mcpgw.Base.Bytes.{Text, codes, text_eq}
use mcpgw.Base.Map.{Map, get, IsSorted, Below-get}
use mcpgw.Config.Server.{Server, Transport, stdio, http}
use mcpgw.Clients.Json.{Json, string, Object, items_of, put}
use mcpgw.Clients.Schema.{
  EntrySchema, mcp_servers, vs_code, gemini, codex, opencode, windsurf, zed, cline, amp, zoo_code,
  helper_field,
}
use mcpgw.Clients.Emit.{
  string_pair, string_map, string_array, put_unless, put_helper, put_type, put_source, put_target,
  headers_key, join_spaced, emit_object, emit_opencode, emitted_object,
}
use mcpgw.Clients.Unique.{IsUnique, AreUnique}
use mcpgw.Clients.Objects.{Unique, Unique-fields_of, put-Unique}
use mcpgw.Clients.RoundTrip.{HasSortedKeys}

strings-AreUnique : (l : List Text) → AreUnique (items_of (map string l))
unfolding IsUnique items_of
strings-AreUnique [] = tt
strings-AreUnique (t ∷ l) = (tt, strings-AreUnique l)

string_array-IsUnique : (l : List Text) → IsUnique (string_array l)
unfolding string_array IsUnique
string_array-IsUnique l = strings-AreUnique l

get-string_pair : (k : Text) (m : Map Text) → get k m ≡ none → get k (map string_pair m) ≡ none
unfolding get
get-string_pair k [] h = refl
get-string_pair k ((j, t) ∷ m) h = next (text_eq j k) h (get-string_pair k m)
  where
    next :
        (b : Bool)
        → (if b then some t else get k m) ≡ none
        → (get k m ≡ none → get k (map string_pair m) ≡ none)
        → (if b then some (string t) else get k (map string_pair m)) ≡ none
    next true h ih = cc
    next false h ih = ih h

pairs-Unique : (m : Map Text) → IsSorted m → Unique (map string_pair m)
unfolding IsUnique
pairs-Unique [] s = tt
pairs-Unique ((k, t) ∷ m) (b, s) = (get-string_pair k m (Below-get k m b), tt, pairs-Unique m s)

string_map-IsUnique : (m : Map Text) → IsSorted m → IsUnique (string_map m)
unfolding string_map IsUnique
string_map-IsUnique m s = Unique-fields_of (map string_pair m) (pairs-Unique m s)

put_string-Unique : (k t : Text) (o : Object) → Unique o → Unique (put k (string t) o)
unfolding IsUnique
put_string-Unique k t o u = put-Unique k (string t) o tt u

put_unless-Unique :
    (empty : Bool) (k : Text) (v : Json) (o : Object)
    → IsUnique v
    → Unique o
    → Unique (put_unless empty k v o)
put_unless-Unique true k v o w u = u
put_unless-Unique false k v o w u = put-Unique k v o w u

put_helper-Unique :
    (key : Option Text) (argv : List Text) (o : Object) → Unique o → Unique (put_helper key argv o)
unfolding IsUnique
put_helper-Unique none argv o u = u
put_helper-Unique (some key) argv o u =
    put_unless-Unique (is_empty argv) key (string (join_spaced argv)) o tt u

put_type-Unique : (schema : EntrySchema) → Unique (put_type schema [])
put_type-Unique vs_code = put_string-Unique (codes "type") (codes "stdio") [] tt
put_type-Unique mcp_servers = tt
put_type-Unique gemini = tt
put_type-Unique codex = tt
put_type-Unique opencode = tt
put_type-Unique windsurf = tt
put_type-Unique zed = tt
put_type-Unique cline = tt
put_type-Unique amp = tt
put_type-Unique zoo_code = tt

put_source-Unique : (schema : EntrySchema) (o : Object) → Unique o → Unique (put_source schema o)
put_source-Unique zed o u = put_string-Unique (codes "source") (codes "custom") o u
put_source-Unique mcp_servers o u = u
put_source-Unique vs_code o u = u
put_source-Unique gemini o u = u
put_source-Unique codex o u = u
put_source-Unique opencode o u = u
put_source-Unique windsurf o u = u
put_source-Unique cline o u = u
put_source-Unique amp o u = u
put_source-Unique zoo_code o u = u

typed_url-Unique :
    (url kind : Text)
    → Unique (put (codes "url") (string url) (put (codes "type") (string kind) []))
typed_url-Unique url kind =
    put_string-Unique (codes "url") url _ (put_string-Unique (codes "type") kind [] tt)

put_target-Unique : (schema : EntrySchema) (url : Text) → Unique (put_target schema url [])
unfolding put_target
put_target-Unique gemini url = put_string-Unique (codes "httpUrl") url [] tt
put_target-Unique codex url = put_string-Unique (codes "url") url [] tt
put_target-Unique windsurf url = put_string-Unique (codes "serverUrl") url [] tt
put_target-Unique zed url = put_string-Unique (codes "url") url [] tt
put_target-Unique amp url = put_string-Unique (codes "url") url [] tt
put_target-Unique cline url = typed_url-Unique url (codes "streamableHttp")
put_target-Unique zoo_code url = typed_url-Unique url (codes "streamable-http")
put_target-Unique mcp_servers url = typed_url-Unique url (codes "http")
put_target-Unique vs_code url = typed_url-Unique url (codes "http")
put_target-Unique opencode url = tt

emit_object-Unique :
    (schema : EntrySchema) (transport : Transport)
    → HasSortedKeys transport
    → Unique (emit_object schema transport)
unfolding emit_object
emit_object-Unique schema (stdio command args env) s = put_source-Unique schema _ (
    put_unless-Unique (is_empty env) (codes "env") (string_map env) _ (string_map-IsUnique env s) (
      put_unless-Unique (is_empty args) (codes "args") (string_array args) _
        (string_array-IsUnique args)
        (put_string-Unique (codes "command") command _ (put_type-Unique schema))))
emit_object-Unique schema (http url argv headers auth) s =
    put_helper-Unique (helper_field schema) argv _ (
      put_unless-Unique (is_empty headers) (headers_key schema) (string_map headers) _
        (string_map-IsUnique headers s) (put_target-Unique schema url))

emit_opencode-Unique :
    (transport : Transport) → HasSortedKeys transport → Unique (emit_opencode transport)
unfolding emit_opencode
emit_opencode-Unique (stdio command args env) s =
    put_unless-Unique (is_empty env) (codes "environment") (string_map env) _
      (string_map-IsUnique env s)
      (put-Unique (codes "command") (string_array (command ∷ args))
        (put (codes "type") (string (codes "local")) []) (string_array-IsUnique (command ∷ args))
        (put_string-Unique (codes "type") (codes "local") [] tt))
emit_opencode-Unique (http url argv headers auth) s =
    put_unless-Unique (is_empty headers) (codes "headers") (string_map headers) _
      (string_map-IsUnique headers s) (typed_url-Unique url (codes "remote"))

pub emitted_object-Unique :
    (schema : EntrySchema) (server : Server)
    → HasSortedKeys server.transport
    → Unique (emitted_object schema server)
unfolding emitted_object
emitted_object-Unique opencode server s = emit_opencode-Unique server.transport s
emitted_object-Unique mcp_servers server s = emit_object-Unique mcp_servers server.transport s
emitted_object-Unique vs_code server s = emit_object-Unique vs_code server.transport s
emitted_object-Unique gemini server s = emit_object-Unique gemini server.transport s
emitted_object-Unique codex server s = emit_object-Unique codex server.transport s
emitted_object-Unique windsurf server s = emit_object-Unique windsurf server.transport s
emitted_object-Unique zed server s = emit_object-Unique zed server.transport s
emitted_object-Unique cline server s = emit_object-Unique cline server.transport s
emitted_object-Unique amp server s = emit_object-Unique amp server.transport s
emitted_object-Unique zoo_code server s = emit_object-Unique zoo_code server.transport s
