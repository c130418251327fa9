-- ===== src/Clients/Found.antt =====
-- What each parser finds in what each shape writes.
use mcpgw.Base.{
  is_empty, Absurd, ◌≡◌, refl, Bool, true, false, Option, none, some, List, [], ◌∷◌, if◌then◌else◌,
  Result, ok, err, ◌>>=◌,
}
use mcpgw.Base.Bytes.{Text, codes}
use mcpgw.Base.Map.{Map}
use mcpgw.Config.Server.{Transport, stdio, http}
use mcpgw.Clients.Json.{Json, Object, string, put}
use mcpgw.Clients.Schema.{
  EntrySchema, mcp_servers, vs_code, gemini, codex, opencode, windsurf, zed, cline, amp, zoo_code,
  helper_field,
}
use mcpgw.Clients.Emit.{
  put_unless, put_helper, put_type, put_source, put_target, headers_key, join_spaced,
}
use mcpgw.Clients.Fields.{Unread, command_empty, list_of, map_of, split_whitespace}
use mcpgw.Clients.Parse.{
  Read, split_argv, legacy_sse, is_http, join_notes, server_of, parse_object, helper_argv,
  client_managed_auth,
}

-- The values that an object holds unless they are empty.
abbrev pub unless : Bool → Json → Option Json
unless true v = none
unless false v = some v

abbrev pub stdio_object : EntrySchema → Text → Bool → Json → Bool → Json → Object
stdio_object schema command no_args args no_env env = put_source schema (
    put_unless no_env (codes "env") env (
      put_unless no_args (codes "args") args
        (put (codes "command") (string command) (put_type schema []))))

abbrev pub http_object : EntrySchema → Text → List Text → Bool → Json → Object
http_object schema url argv no_headers headers =
    put_helper (helper_field schema) argv
      (put_unless no_headers (headers_key schema) headers (put_target schema url []))

abbrev pub plain : Result Unread Transport → Read
plain read = read >>= λ transport. ok (server_of true transport, none)

abbrev pub as_stdio : Text → Text → Option Json → Option Json → Result Unread Transport
as_stdio env command args vars = list_of (codes "args") args >>= λ texts.
    map_of env vars >>= λ pairs. ok (stdio command texts pairs)

abbrev pub as_http : Text → Text → Option Json → Result Unread Transport
as_http key url headers = map_of key headers >>= λ pairs. ok (http url [] pairs none)

-- Every shape but one that writes its entries whole.
abbrev pub IsPatched : EntrySchema → Type 0
IsPatched opencode = Absurd {0}
IsPatched _ = Unit

-- A parser that looks at what another one read, where it finds nothing to say.
after_stdio :
    (c : Text) (l : Result Unread (List Text)) (m : Result Unread (Map Text))
    → (plain (l >>= λ texts. m >>= λ pairs. ok (stdio c texts pairs)) >>= λ read.
        ok (read.0, if is_http read.0.transport then some legacy_sse else read.1))
      ≡ plain (l >>= λ texts. m >>= λ pairs. ok (stdio c texts pairs))
after_stdio c (err e) m = refl
after_stdio c (ok l) (err e) = refl
after_stdio c (ok l) (ok m) = refl

after_http :
    (url : Text) (m : Result Unread (Map Text))
    → (plain (m >>= λ pairs. ok (http url [] pairs none)) >>= λ read. ok (read.0, read.1))
      ≡ plain (m >>= λ pairs. ok (http url [] pairs none))
after_http url (err e) = refl
after_http url (ok m) = refl

after_renamed :
    (url : Text) (m : Result Unread (Map Text))
    → (plain (m >>= λ pairs. ok (http url [] pairs none)) >>= λ read.
        ok (read.0, join_notes none read.1))
      ≡ plain (m >>= λ pairs. ok (http url [] pairs none))
after_renamed url (err e) = refl
after_renamed url (ok m) = refl

pub parse_object-stdio :
    (schema : EntrySchema) (a e : Bool) (c : Text) (args env : Json)
    → IsPatched schema
    → parse_object schema (stdio_object schema c a args e env)
      ≡ plain (as_stdio (codes "env") c (unless a args) (unless e env))
unfolding parse_object put
parse_object-stdio mcp_servers true true c args env p = refl
parse_object-stdio mcp_servers true false c args env p = refl
parse_object-stdio mcp_servers false true c args env p = refl
parse_object-stdio mcp_servers false false c args env p = refl
parse_object-stdio vs_code true true c args env p = refl
parse_object-stdio vs_code true false c args env p = refl
parse_object-stdio vs_code false true c args env p = refl
parse_object-stdio vs_code false false c args env p = refl
parse_object-stdio gemini true true c args env p = refl
parse_object-stdio gemini true false c args env p = refl
parse_object-stdio gemini false true c args env p = refl
parse_object-stdio gemini false false c args env p = refl
parse_object-stdio codex true true c args env p = refl
parse_object-stdio codex true false c args env p = refl
parse_object-stdio codex false true c args env p = refl
parse_object-stdio codex false false c args env p = refl
parse_object-stdio windsurf true true c args env p = refl
parse_object-stdio windsurf true false c args env p = refl
parse_object-stdio windsurf false true c args env p = refl
parse_object-stdio windsurf false false c args env p = refl
parse_object-stdio zed true true c args env p = refl
parse_object-stdio zed true false c args env p = refl
parse_object-stdio zed false true c args env p = refl
parse_object-stdio zed false false c args env p = refl
parse_object-stdio cline true true c args env p =
    after_stdio c (list_of (codes "args") (unless true args))
      (map_of (codes "env") (unless true env))
parse_object-stdio cline true false c args env p =
    after_stdio c (list_of (codes "args") (unless true args))
      (map_of (codes "env") (unless false env))
parse_object-stdio cline false true c args env p =
    after_stdio c (list_of (codes "args") (unless false args))
      (map_of (codes "env") (unless true env))
parse_object-stdio cline false false c args env p =
    after_stdio c (list_of (codes "args") (unless false args))
      (map_of (codes "env") (unless false env))
parse_object-stdio amp true true c args env p = refl
parse_object-stdio amp true false c args env p = refl
parse_object-stdio amp false true c args env p = refl
parse_object-stdio amp false false c args env p = refl
parse_object-stdio zoo_code true true c args env p =
    after_stdio c (list_of (codes "args") (unless true args))
      (map_of (codes "env") (unless true env))
parse_object-stdio zoo_code true false c args env p =
    after_stdio c (list_of (codes "args") (unless true args))
      (map_of (codes "env") (unless false env))
parse_object-stdio zoo_code false true c args env p =
    after_stdio c (list_of (codes "args") (unless false args))
      (map_of (codes "env") (unless true env))
parse_object-stdio zoo_code false false c args env p =
    after_stdio c (list_of (codes "args") (unless false args))
      (map_of (codes "env") (unless false env))
parse_object-stdio opencode a e c args env p = elim p [ ]

-- The argv that the entry's helper line is split into again.
abbrev pub read_back : EntrySchema → List Text → List Text
read_back schema argv = elim (helper_field schema) [
  | none ↦ []
  | some key ↦ if is_empty argv then [] else split_whitespace (join_spaced argv)
]

pub parse_object-http :
    (schema : EntrySchema) (url : Text) (argv : List Text) (h : Bool) (headers : Json)
    → IsPatched schema
    → (parse_object schema (http_object schema url argv h headers)
        ≡ plain (as_http (headers_key schema) url (unless h headers)))
      × (helper_argv schema (http_object schema url argv h headers) ≡ read_back schema argv)
      × (client_managed_auth schema (http_object schema url argv h headers) ≡ none)
unfolding parse_object put put_target headers_key helper_field helper_argv client_managed_auth
parse_object-http mcp_servers url [] true headers p = (refl, refl, refl)
parse_object-http mcp_servers url [] false headers p = (refl, refl, refl)
parse_object-http mcp_servers url (w ∷ argv) true headers p = (refl, refl, refl)
parse_object-http mcp_servers url (w ∷ argv) false headers p = (refl, refl, refl)
parse_object-http vs_code url argv true headers p = (refl, refl, refl)
parse_object-http vs_code url argv false headers p = (refl, refl, refl)
parse_object-http gemini url argv true headers p = (refl, refl, refl)
parse_object-http gemini url argv false headers p = (refl, refl, refl)
parse_object-http codex url [] true headers p = (refl, refl, refl)
parse_object-http codex url [] false headers p = (refl, refl, refl)
parse_object-http codex url (w ∷ argv) true headers p = (refl, refl, refl)
parse_object-http codex url (w ∷ argv) false headers p = (refl, refl, refl)
parse_object-http windsurf url argv true headers p =
    (after_renamed url (map_of (codes "headers") (unless true headers)), refl, refl)
parse_object-http windsurf url argv false headers p =
    (after_renamed url (map_of (codes "headers") (unless false headers)), refl, refl)
parse_object-http zed url argv true headers p = (refl, refl, refl)
parse_object-http zed url argv false headers p = (refl, refl, refl)
parse_object-http cline url argv true headers p =
    (after_http url (map_of (codes "headers") (unless true headers)), refl, refl)
parse_object-http cline url argv false headers p =
    (after_http url (map_of (codes "headers") (unless false headers)), refl, refl)
parse_object-http amp url argv true headers p = (refl, refl, refl)
parse_object-http amp url argv false headers p = (refl, refl, refl)
parse_object-http zoo_code url argv true headers p =
    (after_http url (map_of (codes "headers") (unless true headers)), refl, refl)
parse_object-http zoo_code url argv false headers p =
    (after_http url (map_of (codes "headers") (unless false headers)), refl, refl)
parse_object-http opencode url argv h headers p = elim p [ ]

abbrev pub local_object : Json → Bool → Json → Object
local_object argv no_env env =
    put_unless no_env (codes "environment") env
      (put (codes "command") argv (put (codes "type") (string (codes "local")) []))

abbrev pub remote_object : Text → Bool → Json → Object
remote_object url no_headers headers =
    put_unless no_headers (codes "headers") headers
      (put (codes "url") (string url) (put (codes "type") (string (codes "remote")) []))

abbrev pub as_local : Result Unread (List Text) → Result Unread (Map Text) → Result Unread Transport
as_local argv env = argv >>= λ texts.
    split_argv command_empty texts >>= λ parts. env >>= λ vars. ok (stdio parts.0 parts.1 vars)

pub parse_object-local :
    (e : Bool) (argv env : Json)
    → parse_object opencode (local_object argv e env)
      ≡ plain (
          as_local
            (list_of (codes "command") (some argv))
            (map_of (codes "environment") (unless e env)))
unfolding parse_object put
parse_object-local true argv env = refl
parse_object-local false argv env = refl

pub parse_object-remote :
    (url : Text) (argv : List Text) (h : Bool) (headers : Json)
    → (parse_object opencode (remote_object url h headers)
        ≡ plain (as_http (codes "headers") url (unless h headers)))
      × (helper_argv opencode (remote_object url h headers) ≡ read_back opencode argv)
      × (client_managed_auth opencode (remote_object url h headers) ≡ none)
unfolding parse_object put helper_field helper_argv client_managed_auth
parse_object-remote url argv true headers = (refl, refl, refl)
parse_object-remote url argv false headers = (refl, refl, refl)
