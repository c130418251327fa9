-- ===== src/Clients/Edit.antt =====
-- crates/core/src/clients/codec.rs: the server map inside a JSON document, read and edited. A refusal
-- carries the keys on the way to the one that is not an object.
pub mod Refused
pub mod Located
use mcpgw.Base.{
  ◌≡◌, refl, sym, ap, ◌∙◌, ◌↔◌, Bool, true, false, Option, none, some, List, [], ◌∷◌, ◌++◌,
  if◌then◌else◌, Result, ok, err, ◌>>=◌, Option-cases, inl, inr,
}
use mcpgw.Base.Bytes.{Text, text_eq}
use mcpgw.Base.Map.{get, get_or}
use mcpgw.Clients.Json.{
  Json, null, boolean, number, string, array, object, closed, Object, fields_of, entries_of, put,
  as_object,
}
use mcpgw.Clients.Objects.{swap_remove, put_same, get-put, fields_of-entries_of}

-- RootPath::locate_in: none where a key on the way is absent.
unfoldable pub locate_from : List Text → List Text → Json → Result (List Text) (Option Object)
unfolding as_object get
locate_from walked [] node = elim (as_object node) [
  | none ↦ err walked
  | some entries ↦ ok (some entries)
]
locate_from walked (segment ∷ path) node = elim (as_object node) [
  | none ↦ err walked
  | some entries ↦ elim (get segment entries) [
    | none ↦ ok none
    | some value ↦ locate_from (walked ++ segment ∷ []) path value
  ]
]

unfoldable pub locate_in : List Text → Json → Result (List Text) (Option Object)
unfolding locate_from
locate_in path root = locate_from [] path root

abbrev pub entries_or_none : Result (List Text) (Option Object) → Object
entries_or_none (ok (some entries)) = entries
entries_or_none (ok none) = []
entries_or_none (err path) = []

unfoldable pub json_entries : List Text → Json → Object
unfolding locate_in
json_entries path root = entries_or_none (locate_in path root)

abbrev pub Edited : Type 0
Edited = Json × Result (List Text) (Unit {0})

abbrev pub inside : Text → Object → Edited → Edited
inside segment entries (next, done) = (object (fields_of (put segment next entries)), done)

-- json_map_mut with what is then done to the map: a missing key is made an empty object on the way.
unfoldable pub edit_from : (Object → Object) → List Text → List Text → Json → Edited
unfolding as_object fields_of get put
edit_from edit walked [] node = elim (as_object node) [
  | none ↦ (node, err walked)
  | some entries ↦ (object (fields_of (edit entries)), ok tt)
]
edit_from edit walked (segment ∷ path) node = elim (as_object node) [
  | none ↦ (node, err walked)
  | some entries ↦
      inside segment entries (
        edit_from edit (walked ++ segment ∷ []) path (get_or (object closed) (get segment entries)))
]

unfoldable pub remove_all : List Text → Object → Object
unfolding swap_remove
remove_all [] entries = entries
remove_all (name ∷ names) entries = remove_all names (swap_remove name entries)

unfoldable pub put_all : List (Text × Json) → Object → Object
unfolding put
put_all [] entries = entries
put_all ((name, entry) ∷ upserts) entries = put_all upserts (put name entry entries)

unfoldable pub edit_json : List Text → Json → List Text → List (Text × Json) → Edited
unfolding edit_from remove_all put_all
edit_json path root removes upserts =
    edit_from (λ entries. put_all upserts (remove_all removes entries)) [] path root

-- A refusal, as the keys walked.
abbrev pub refused_at : {A : Type 0} → Result (List Text) A → Option (List Text)
refused_at (ok a) = none
refused_at (err path) = some path
