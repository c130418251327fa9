-- ===== src/State.antt =====
-- crates/core/src/state.rs: which entries of which client file mcpgw owns, and what they stand for.
-- A path is its bytes. `file_key` is the normalisation of a path, which needs the file system; it is
-- a parameter, so that two spellings of one file may or may not have one key. `display` is what Path
-- gives to be shown, also a parameter, since it replaces the bytes that are no UTF-8.
pub mod Owned
pub mod Answered
pub mod Origin
use mcpgw.Base.{
  ℕ, ◌==◌, Bool, true, false, Option, none, some, List, [], ◌∷◌, ◌++◌, if◌then◌else◌, is_empty, map,
}
use mcpgw.Base.Bytes.{Text, codes, text_eq}
use mcpgw.Base.Map.{Map, Set, get, insert, get_or}
use mcpgw.Clients.Schema.{ClientKind}
use mcpgw.Clients.Ids.{id, from_id}

pub record FileRecord : Type 0 where
  pub client : Text
  pub managed : Set
  pub resolved : Map Text

pub record ManagedState : Type 0 where
  pub clients : Map Set
  pub resolved : Map (Map Text)
  pub files : Map FileRecord
  pub migrated : Bool

pub data Scope : Type 0 where
  home : ClientKind → Scope
  project : (kind : ClientKind) (path : Text) → Scope

-- Scope::kind
unfoldable pub kind_of : Scope → ClientKind
kind_of (home kind) = kind
kind_of (project kind path) = kind

abbrev pub no_record : FileRecord
no_record = record { client = []; managed = []; resolved = [] }

abbrev pub managed_in : Option FileRecord → Set
managed_in none = []
managed_in (some r) = r.managed

abbrev pub resolved_in : Option FileRecord → Map Text
resolved_in none = []
resolved_in (some r) = r.resolved

module _ (file_key : Text → Text) where
  unfoldable pub managed : Scope → ManagedState → Set
  unfolding get id
  managed (home kind) state = get_or [] (get (id kind) state.clients)
  managed (project kind path) state = managed_in (get (file_key path) state.files)

  unfoldable pub resolved : Scope → ManagedState → Map Text
  unfolding get id
  resolved (home kind) state = get_or [] (get (id kind) state.resolved)
  resolved (project kind path) state = resolved_in (get (file_key path) state.files)

  -- The record of a project file, with the client of the scope that touches it now.
  abbrev pub record_for : ClientKind → Text → ManagedState → FileRecord
  record_for kind path state = record (get_or no_record (get (file_key path) state.files)) {
    client = id kind;
  }

  abbrev with_file : Text → FileRecord → ManagedState → ManagedState
  with_file path r state = record state { files = insert (file_key path) r state.files }

  unfoldable pub claim : Scope → Set → ManagedState → ManagedState
  unfolding get insert id
  claim (home kind) names state = record state { clients = insert (id kind) names state.clients }
  claim (project kind path) names state =
      with_file path (record (record_for kind path state) { managed = names }) state

  unfoldable pub adopt : Scope → Text → ManagedState → ManagedState
  unfolding get insert id
  adopt (home kind) name state = record state {
    clients =
        insert (id kind) (insert name tt (get_or [] (get (id kind) state.clients))) state.clients;
  }
  adopt (project kind path) name state =
      let r = record_for kind path state in
      with_file path (record r { managed = insert name tt r.managed }) state

  unfoldable pub resolve_to : Scope → Text → Text → ManagedState → ManagedState
  unfolding get insert id
  resolve_to (home kind) entry canonical state = record state {
    resolved =
        insert (id kind) (insert entry canonical (get_or [] (get (id kind) state.resolved)))
          state.resolved;
  }
  resolve_to (project kind path) entry canonical state =
      let r = record_for kind path state in
      with_file path (record r { resolved = insert entry canonical r.resolved }) state

  -- Whether two scopes are one file.
  abbrev pub same_file : Scope → Scope → Bool
  same_file (home kind) (home other) = text_eq (id kind) (id other)
  same_file (project kind path) (project other at) = text_eq (file_key path) (file_key at)
  same_file _ _ = false

-- '@'
abbrev at_sign : ℕ
at_sign = 64

module _ (display : Text → Text) where
  unfoldable pub origin_key : Scope → Text
  unfolding id
  origin_key (home kind) = id kind
  origin_key (project kind path) = id kind ++ at_sign ∷ display path

abbrev behind : ℕ → Option (Text × Text) → Option (Text × Text)
behind c none = none
behind c (some (before, after)) = some (c ∷ before, after)

-- str::split_once('@')
unfoldable pub split_at_sign : Text → Option (Text × Text)
split_at_sign [] = none
split_at_sign (c ∷ text) =
    let rest = behind c (split_at_sign text) in if c == at_sign then some ([], text) else rest

abbrev as_home : Option ClientKind → Option Scope
as_home none = none
as_home (some kind) = some (home kind)

abbrev as_project : Text → Option ClientKind → Option Scope
as_project path none = none
as_project path (some kind) = some (project kind path)

abbrev origin_parts : Text → Option (Text × Text) → Option Scope
origin_parts key none = as_home (from_id key)
origin_parts key (some (name, path)) = as_project path (from_id name)

unfoldable pub from_origin : Text → Option Scope
unfolding from_id split_at_sign
from_origin key = origin_parts key (split_at_sign key)

abbrev push_scope : Bool → Option ClientKind → Text → List Scope → List Scope
push_scope true kind path rest = rest
push_scope false none path rest = rest
push_scope false (some kind) path rest = project kind path ∷ rest

unfoldable pub scopes_of : Map FileRecord → List Scope
unfolding from_id
scopes_of [] = []
scopes_of ((path, r) ∷ files) =
    push_scope (is_empty r.managed) (from_id r.client) path (scopes_of files)

unfoldable pub project_scopes : ManagedState → List Scope
unfolding scopes_of
project_scopes state = scopes_of state.files
