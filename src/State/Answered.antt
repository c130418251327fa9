-- ===== src/State/Answered.antt =====
-- What resolving an entry changes in the state.
use mcpgw.Base.{◌≡◌, refl, ap, ◌∙◌, [], if◌then◌else◌}
use mcpgw.Base.Bytes.{Text, text_eq, text_eq_iff}
use mcpgw.Base.Map.{Map, get, insert, get_or, get-insert}
use mcpgw.Clients.Schema.{ClientKind}
use mcpgw.Clients.Ids.{id}
use mcpgw.State.{
  no_record, managed_in, resolved_in, record_for, FileRecord, ManagedState, Scope, home, project,
  managed, resolved, resolve_to, same_file, kind_of,
}
use mcpgw.State.Owned.{
  or_if, managed_if, resolved_if, managed_record, resolved_record, same_if, Recorded, client_set,
}

module _ (file_key : Text → Text) where
  module _ (kind : ClientKind) (path at : Text) (m : Map Text) (state : ManagedState) where
    abbrev answered : FileRecord
    answered = record (record_for file_key kind path state) { resolved = m }

    managed_kept :
        managed_in (get (file_key at) (insert (file_key path) answered state.files))
        ≡ managed_in (get (file_key at) state.files)
    managed_kept =
        ap managed_in (get-insert (file_key at) (file_key path) answered state.files)
        ∙ (managed_if (text_eq (file_key path) (file_key at)) answered
              (get (file_key at) state.files)
            ∙ same_if (text_eq (file_key path) (file_key at)) answered.managed
                (managed_in (get (file_key at) state.files))
                (λ h.
                  ap (λ k. (get_or no_record (get k state.files)).managed)
                    ((text_eq_iff (file_key path) (file_key at)).0 h)
                  ∙ managed_record (get (file_key at) state.files)))

    resolved_set : resolved_in (get (file_key at) (insert (file_key path) answered state.files)) ≡ (
        if text_eq (file_key path) (file_key at)
        then m
        else resolved_in (get (file_key at) state.files))
    resolved_set =
        ap resolved_in (get-insert (file_key at) (file_key path) answered state.files)
        ∙ resolved_if (text_eq (file_key path) (file_key at)) answered
            (get (file_key at) state.files)

  -- Resolving an entry records in that file the canonical server it stands for, and changes neither
  -- what mcpgw owns in any file nor what the other entries of that file, or those of another, stand
  -- for. The record of the touched project file then names the client of the scope, and the record of
  -- every other file the client it named before.
  pub resolve_to-resolved :
      (scope other : Scope) (entry canonical key : Text) (state : ManagedState)
      → (resolved file_key other (resolve_to file_key scope entry canonical state) ≡ (
          if same_file file_key scope other
          then insert entry canonical (resolved file_key scope state)
          else resolved file_key other state))
        × (managed file_key other (resolve_to file_key scope entry canonical state)
            ≡ managed file_key other state)
        × Recorded file_key scope key state (resolve_to file_key scope entry canonical state)
        × ((resolve_to file_key scope entry canonical state).migrated ≡ state.migrated)
  unfolding managed resolved resolve_to kind_of
  resolve_to-resolved (home kind) (home other) entry canonical key state = (
    ap (get_or []) (
          get-insert (id other) (id kind)
            (insert entry canonical (get_or [] (get (id kind) state.resolved))) state.resolved)
        ∙ or_if [] (text_eq (id kind) (id other))
            (insert entry canonical (get_or [] (get (id kind) state.resolved)))
            (get (id other) state.resolved),
    refl,
    refl,
    refl,
  )
  resolve_to-resolved (home kind) (project other at) entry canonical key state =
      (refl, refl, refl, refl)
  resolve_to-resolved (project kind path) (home other) entry canonical key state =
      (refl, refl, client_set file_key key path _ state, refl)
  resolve_to-resolved (project kind path) (project other at) entry canonical key state = (
    resolved_set kind path at
          (insert entry canonical (record_for file_key kind path state).resolved) state
        ∙ ap
            (λ m.
              if text_eq (file_key path) (file_key at)
              then insert entry canonical m
              else resolved_in (get (file_key at) state.files))
            (resolved_record (get (file_key path) state.files)),
    managed_kept kind path at
        (insert entry canonical (record_for file_key kind path state).resolved) state,
    client_set file_key key path _ state,
    refl,
  )
