-- ===== src/State/Owned.antt =====
-- What claiming and adopting change in the state.
use mcpgw.Base.{◌≡◌, refl, ap, ◌∙◌, Bool, true, false, Option, none, some, [], if◌then◌else◌}
use mcpgw.Base.Bytes.{Text, text_eq, text_eq_iff}
use mcpgw.Base.Map.{Map, Set, get, insert, get_or, get-insert}
use mcpgw.Clients.Schema.{ClientKind}
use mcpgw.Clients.Ids.{id}
use mcpgw.State.{
  no_record, managed_in, resolved_in, record_for, FileRecord, ManagedState, Scope, home, project,
  managed, resolved, claim, adopt, same_file, kind_of,
}

pub or_if :
    {V : Type 0} (d : V) (b : Bool) (v : V) (o : Option V)
    → get_or d (if b then some v else o) ≡ (if b then v else get_or d o)
or_if d true v o = refl
or_if d false v o = refl

pub managed_if :
    (b : Bool) (r : FileRecord) (o : Option FileRecord)
    → managed_in (if b then some r else o) ≡ (if b then r.managed else managed_in o)
managed_if true r o = refl
managed_if false r o = refl

pub resolved_if :
    (b : Bool) (r : FileRecord) (o : Option FileRecord)
    → resolved_in (if b then some r else o) ≡ (if b then r.resolved else resolved_in o)
resolved_if true r o = refl
resolved_if false r o = refl

pub managed_record : (o : Option FileRecord) → (get_or no_record o).managed ≡ managed_in o
managed_record none = refl
managed_record (some r) = refl

pub resolved_record : (o : Option FileRecord) → (get_or no_record o).resolved ≡ resolved_in o
resolved_record none = refl
resolved_record (some r) = refl

pub same_if : {V : Type 0} (b : Bool) (x y : V) → (b ≡ true → x ≡ y) → (if b then x else y) ≡ y
same_if true x y h = h refl
same_if false x y h = refl

-- The client that a path's record names.
abbrev pub client_in : Option FileRecord → Option Text
client_in none = none
client_in (some r) = some r.client

client_if :
    (b : Bool) (r : FileRecord) (o : Option FileRecord)
    → client_in (if b then some r else o) ≡ (if b then some r.client else client_in o)
client_if true r o = refl
client_if false r o = refl

module _ (file_key : Text → Text) where
  -- Whether a key is that of a scope's project file.
  abbrev pub is_file : Scope → Text → Bool
  is_file (home kind) key = false
  is_file (project kind path) key = text_eq (file_key path) key

  -- The record of a touched project file names the client of the scope, and that of every other file
  -- the client it named before, where it had one.
  abbrev pub Recorded : Scope → Text → ManagedState → ManagedState → Type 0
  Recorded scope key before after =
      client_in (get key after.files)
      ≡ (if is_file scope key then some (id (kind_of scope)) else client_in (get key before.files))

  pub client_set :
      (key path : Text) (r : FileRecord) (state : ManagedState)
      → client_in (get key (insert (file_key path) r state.files))
        ≡ (if text_eq (file_key path) key then some r.client else client_in (get key state.files))
  client_set key path r state =
      ap client_in (get-insert key (file_key path) r state.files)
      ∙ client_if (text_eq (file_key path) key) r (get key state.files)

  get_file :
      (kind : ClientKind) (path at : Text) (state : ManagedState)
      → (o : FileRecord → Map Text) → text_eq (file_key path) (file_key at) ≡ true
      → o (get_or no_record (get (file_key path) state.files))
        ≡ o (get_or no_record (get (file_key at) state.files))
  get_file kind path at state o h =
      ap (λ k. o (get_or no_record (get k state.files)))
        ((text_eq_iff (file_key path) (file_key at)).0 h)

  resolved_kept :
      (kind : ClientKind) (path at : Text) (m : Set) (state : ManagedState)
      → resolved_in (
          get (file_key at) (
            insert
              (file_key path)
              (record (record_for file_key kind path state) { managed = m })
              state.files))
        ≡ resolved_in (get (file_key at) state.files)
  resolved_kept kind path at m state =
      ap resolved_in (
        get-insert (file_key at) (file_key path)
          (record (record_for file_key kind path state) { managed = m }) state.files)
      ∙ (resolved_if (text_eq (file_key path) (file_key at))
            (record (record_for file_key kind path state) { managed = m })
            (get (file_key at) state.files)
          ∙ same_if (text_eq (file_key path) (file_key at))
              (get_or no_record (get (file_key path) state.files)).resolved
              (resolved_in (get (file_key at) state.files))
              (λ h.
                get_file kind path at state (λ r. r.resolved) h
                ∙ resolved_record (get (file_key at) state.files)))

  managed_set :
      (kind : ClientKind) (path at : Text) (m : Set) (state : ManagedState)
      → managed_in (
          get (file_key at) (
            insert
              (file_key path)
              (record (record_for file_key kind path state) { managed = m })
              state.files))
        ≡ (if text_eq (file_key path) (file_key at)
            then m
            else managed_in (get (file_key at) state.files))
  managed_set kind path at m state =
      ap managed_in (
        get-insert (file_key at) (file_key path)
          (record (record_for file_key kind path state) { managed = m }) state.files)
      ∙ managed_if (text_eq (file_key path) (file_key at))
          (record (record_for file_key kind path state) { managed = m })
          (get (file_key at) state.files)

  -- Claiming a file's names makes them what mcpgw owns in that file, and changes neither what it owns
  -- in another nor what any entry stands for; two scopes with one path key are one file, whichever
  -- client names it. The record of a claimed project file then names the client of the scope, and the
  -- record of every other file the client it named before.
  pub claim-managed :
      (scope other : Scope) (names : Set) (key : Text) (state : ManagedState)
      → (managed file_key other (claim file_key scope names state)
          ≡ (if same_file file_key scope other then names else managed file_key other state))
        × (resolved file_key other (claim file_key scope names state)
            ≡ resolved file_key other state)
        × Recorded scope key state (claim file_key scope names state)
        × ((claim file_key scope names state).migrated ≡ state.migrated)
  unfolding managed resolved claim kind_of
  claim-managed (home kind) (home other) names key state = (
    ap (get_or []) (get-insert (id other) (id kind) names state.clients)
        ∙ or_if [] (text_eq (id kind) (id other)) names (get (id other) state.clients),
    refl,
    refl,
    refl,
  )
  claim-managed (home kind) (project other at) names key state = (refl, refl, refl, refl)
  claim-managed (project kind path) (home other) names key state =
      (refl, refl, client_set key path _ state, refl)
  claim-managed (project kind path) (project other at) names key state = (
    managed_set kind path at names state,
    resolved_kept kind path at names state,
    client_set key path _ state,
    refl,
  )

  -- Adopting an entry adds its name to what mcpgw owns in that file, and changes nothing else of what
  -- it owns or of what any entry stands for.
  adopt-managed :
      (scope other : Scope) (name : Text) (state : ManagedState)
      → (managed file_key other (adopt file_key scope name state) ≡ (
          if same_file file_key scope other
          then insert name tt (managed file_key scope state)
          else managed file_key other state))
        × (resolved file_key other (adopt file_key scope name state)
            ≡ resolved file_key other state)
  unfolding managed resolved adopt
  adopt-managed (home kind) (home other) name state = (
    ap (get_or []) (
          get-insert (id other) (id kind) (insert name tt (get_or [] (get (id kind) state.clients)))
            state.clients)
        ∙ or_if [] (text_eq (id kind) (id other))
            (insert name tt (get_or [] (get (id kind) state.clients)))
            (get (id other) state.clients),
    refl,
  )
  adopt-managed (home kind) (project other at) name state = (refl, refl)
  adopt-managed (project kind path) (home other) name state = (refl, refl)
  adopt-managed (project kind path) (project other at) name state = (
    managed_set kind path at (insert name tt (record_for file_key kind path state).managed) state
        ∙ ap
            (λ m.
              if text_eq (file_key path) (file_key at)
              then insert name tt m
              else managed_in (get (file_key at) state.files))
            (managed_record (get (file_key path) state.files)),
    resolved_kept kind path at (insert name tt (record_for file_key kind path state).managed) state,
  )
