-- ===== src/Clients/Parse.antt =====
-- EntrySchema::parse: one client entry as a canonical server, in each of the ten shapes. Errors are
-- the reasons of `Unread`; a note is the text that the source reports.
use mcpgw.Base.{
  Bool, true, false, not, ◌&&◌, ◌||◌, Option, none, some, List, [], ◌∷◌, ◌++◌, if◌then◌else◌,
  Result, ok, err, ◌>>=◌,
}
use mcpgw.Base.Bytes.{Text, codes, text_eq}
use mcpgw.Base.Map.{get, contains_key, remove}
use mcpgw.Config.Server.{Server, Transport, stdio, http}
use mcpgw.Clients.Json.{Json, boolean, string, Object, put, as_object}
use mcpgw.Clients.Schema.{
  EntrySchema, gemini, codex, opencode, windsurf, cline, zoo_code, helper_field,
}
use mcpgw.Clients.Fields.{
  Unread, entry_not_object, type_not_string, both_targets, neither_target, no_target, command_empty,
  unknown_type, missing, string_field, string_list, string_object, ok_or, split_whitespace,
}

abbrev pub Read : Type 0
Read = Result Unread (Server × Option Text)

abbrev pub legacy_sse : Text
legacy_sse = codes "legacy `sse` transport read as http"

-- The server that a parser builds around a transport.
abbrev pub server_of : Bool → Transport → Server
server_of enabled transport = record {
  enabled = enabled;
  tags = [];
  calls_per_minute = 0;
  transport = transport;
  tools = none;
}

abbrev is_true : Option Json → Bool
is_true (some (boolean b)) = b
is_true _ = false

abbrev is_false : Option Json → Bool
is_false (some (boolean b)) = not b
is_false _ = false

abbrev type_of : Option Json → Result Unread (Option Text)
type_of none = ok none
type_of (some (string t)) = ok (some t)
type_of (some _) = err type_not_string

-- Which target an entry without a type has.
abbrev by_target : Bool → Bool → Result Unread Bool
by_target true false = ok true
by_target false true = ok false
by_target true true = err both_targets
by_target false false = err neither_target

unfoldable pub declared_kind : Option Text → Bool → Bool → Result Unread (Bool × Option Text)
unfolding text_eq
declared_kind none has_command has_url = by_target has_command has_url >>= λ stdio. ok (stdio, none)
declared_kind (some t) has_command has_url =
    if text_eq t (codes "stdio")
    then ok (true, none)
    else if text_eq t (codes "http")
        || text_eq t (codes "streamable-http")
        || text_eq t (codes "streamable_http")
        || text_eq t (codes "streamableHttp")
    then ok (false, none)
    else if text_eq t (codes "sse")
    then ok (false, some legacy_sse)
    else err (unknown_type t)

unfoldable pub read_stdio : Object → Text → Unread → Result Unread Transport
unfolding string_field string_list string_object
read_stdio obj env reason = do
  found ← string_field obj (codes "command")
  command ← ok_or reason found
  args ← string_list obj (codes "args")
  vars ← string_object obj env
  ok (stdio command args vars)

unfoldable pub read_http : Object → Text → Text → Result Unread Transport
unfolding string_object
read_http obj url headers_key = do
  headers ← string_object obj headers_key
  ok (http url [] headers none)

unfoldable pub read_url : Object → Result Unread Transport
unfolding string_field read_http
read_url obj = do
  found ← string_field obj (codes "url")
  url ← ok_or (missing (codes "url")) found
  read_http obj url (codes "headers")

unfoldable pub parse_mcp_servers : Object → Read
unfolding get contains_key declared_kind read_stdio read_url
parse_mcp_servers obj = do
  declared ← type_of (get (codes "type") obj)
  kind ←
      declared_kind declared (contains_key (codes "command") obj) (contains_key (codes "url") obj)
  transport ←
      (if kind.0 then read_stdio obj (codes "env") (missing (codes "command")) else read_url obj)
  ok (server_of (not (is_true (get (codes "disabled") obj))) transport, kind.1)

abbrev pub join_notes : Option Text → Option Text → Option Text
join_notes (some a) (some b) = some (a ++ codes "; " ++ b)
join_notes (some a) none = some a
join_notes none b = b

abbrev note_if : Bool → Text → Option Text
note_if true note = some note
note_if false note = none

abbrev windsurf_of : Object → Option Json → Read
windsurf_of obj none = parse_mcp_servers obj
windsurf_of obj (some server_url) = do
  read ← parse_mcp_servers (remove (codes "serverUrl") (put (codes "url") server_url obj))
  ok (
    read.0,
    join_notes
        (note_if (contains_key (codes "url") obj)
          (codes "`url` ignored: `serverUrl` takes precedence"))
        read.1,
  )

unfoldable pub parse_windsurf : Object → Read
unfolding parse_mcp_servers get contains_key put remove
parse_windsurf obj = windsurf_of obj (get (codes "serverUrl") obj)

abbrev pub is_http : Transport → Bool
is_http (stdio command args env) = false
is_http (http url headers_command headers auth) = true

unfoldable pub parse_cline : Object → Read
unfolding parse_mcp_servers contains_key
parse_cline obj = do
  read ← parse_mcp_servers obj
  ok (
    read.0,
    if not (contains_key (codes "type") obj) && is_http read.0.transport
        then some legacy_sse
        else read.1,
  )

abbrev with_note : Option Text → Result Unread Transport → Read
with_note remark read = read >>= λ transport. ok (server_of true transport, remark)

abbrev is_some : Option Text → Bool
is_some none = false
is_some (some t) = true

abbrev gemini_of : Object → Option Text → Option Text → Read
gemini_of obj (some url) sse =
    with_note (note_if (is_some sse) (codes "`url` ignored: `httpUrl` takes precedence"))
      (read_http obj url (codes "headers"))
gemini_of obj none (some url) = with_note (some legacy_sse) (read_http obj url (codes "headers"))
gemini_of obj none none = with_note none (read_stdio obj (codes "env") no_target)

unfoldable pub parse_gemini : Object → Read
unfolding string_field read_http read_stdio
parse_gemini obj = do
  http_url ← string_field obj (codes "httpUrl")
  sse_url ← string_field obj (codes "url")
  gemini_of obj http_url sse_url

abbrev codex_of : Object → Option Text → Option Text → Result Unread Transport
codex_of obj (some command) none = do
  args ← string_list obj (codes "args")
  env ← string_object obj (codes "env")
  ok (stdio command args env)
codex_of obj none (some url) = read_http obj url (codes "http_headers")
codex_of obj (some command) (some url) = err both_targets
codex_of obj none none = err neither_target

unfoldable pub parse_codex : Object → Read
unfolding string_field string_list string_object read_http get
parse_codex obj = do
  command ← string_field obj (codes "command")
  url ← string_field obj (codes "url")
  transport ← codex_of obj command url
  ok (server_of (not (is_false (get (codes "enabled") obj))) transport, none)

unfoldable pub local_kind : Option Text → Bool → Bool → Result Unread Bool
unfolding text_eq
local_kind none has_command has_url = by_target has_command has_url
local_kind (some t) has_command has_url =
    if text_eq t (codes "local")
    then ok true
    else if text_eq t (codes "remote")
    then ok false
    else err (unknown_type t)

abbrev pub split_argv : Unread → List Text → Result Unread (Text × List Text)
split_argv e [] = err e
split_argv e (command ∷ args) = ok (command, args)

unfoldable pub read_local : Object → Result Unread Transport
unfolding string_list string_object contains_key
read_local obj = do
  argv ← string_list obj (codes "command")
  parts ←
      split_argv
        (if contains_key (codes "command") obj then command_empty else missing (codes "command"))
        argv
  env ← string_object obj (codes "environment")
  ok (stdio parts.0 parts.1 env)

unfoldable pub parse_opencode : Object → Read
unfolding get contains_key local_kind read_local read_url
parse_opencode obj = do
  declared ← type_of (get (codes "type") obj)
  local ← local_kind declared (contains_key (codes "command") obj) (contains_key (codes "url") obj)
  transport ← (if local then read_local obj else read_url obj)
  ok (server_of (not (is_false (get (codes "enabled") obj))) transport, none)

abbrev helper_words : Option Json → List Text
helper_words (some (string line)) = split_whitespace line
helper_words _ = []

unfoldable pub helper_argv : EntrySchema → Object → List Text
unfolding helper_field get split_whitespace
helper_argv schema obj = elim (helper_field schema) [
  | none ↦ []
  | some key ↦ helper_words (get key obj)
]

abbrev auth_note : Text → Text → Text
auth_note client kind = client ++ codes "-managed " ++ kind ++ codes " not carried over"

abbrev is_off : Option Json → Bool
is_off none = true
is_off oauth = is_false oauth

unfoldable pub client_managed_auth : EntrySchema → Object → Option Text
unfolding contains_key get
client_managed_auth codex obj =
    note_if (contains_key (codes "auth") obj || contains_key (codes "bearer_token_env_var") obj)
      (auth_note (codes "codex") (codes "auth"))
client_managed_auth opencode obj =
    note_if (not (is_off (get (codes "oauth") obj))) (auth_note (codes "opencode") (codes "oauth"))
client_managed_auth gemini obj =
    note_if (contains_key (codes "oauth") obj || contains_key (codes "authProviderType") obj)
      (auth_note (codes "gemini") (codes "auth"))
client_managed_auth _ obj = none

unfoldable pub parse_object : EntrySchema → Object → Read
unfolding parse_gemini parse_codex parse_opencode parse_windsurf parse_cline parse_mcp_servers
parse_object gemini obj = parse_gemini obj
parse_object codex obj = parse_codex obj
parse_object opencode obj = parse_opencode obj
parse_object windsurf obj = parse_windsurf obj
parse_object cline obj = parse_cline obj
parse_object zoo_code obj = parse_cline obj
parse_object _ obj = parse_mcp_servers obj

-- What `parse` adds to the reading of every shape: the helper and the note on a client's own login.
abbrev pub with_auth :
    EntrySchema → Object → Server × Option Text → Transport → Server × Option Text
with_auth schema obj (server, note) (stdio command args env) = (server, note)
with_auth schema obj (server, note) (http url headers_command headers auth) = (
  record server { transport = http url (helper_argv schema obj) headers auth },
  join_notes note (client_managed_auth schema obj),
)

abbrev pub parse_entry : EntrySchema → Option Object → Read
parse_entry schema none = err entry_not_object
parse_entry schema (some obj) = do
  read ← parse_object schema obj
  ok (with_auth schema obj read read.0.transport)

unfoldable pub parse : EntrySchema → Json → Read
unfolding as_object parse_object helper_argv client_managed_auth
parse schema entry = parse_entry schema (as_object entry)
