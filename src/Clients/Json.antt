-- ===== src/Clients/Json.antt =====
-- The JSON values of serde_json with `preserve_order`: an object keeps the order of its fields, and
-- two objects are equal whatever that order is.
use mcpgw.Base.{
  ℕ, Bool, true, false, ◌&&◌, Option, none, some, List, [], ◌∷◌, ◌==◌, if◌then◌else◌, suc,
}
use mcpgw.Base.Bytes.{Text, text_eq}

mutual
  pub data Json : Type 0 where
    null : Json
    boolean : Bool → Json
    number : Text → Json
    string : Text → Json
    array : Items → Json
    object : Fields → Json

  pub data Items : Type 0 where
    last : Items
    item : Json → Items → Items

  pub data Fields : Type 0 where
    closed : Fields
    field : Text → Json → Fields → Fields

-- An object as its fields in their order.
abbrev pub Object : Type 0
Object = List (Text × Json)

unfoldable pub fields_of : Object → Fields
fields_of [] = closed
fields_of ((k, v) ∷ o) = field k v (fields_of o)

unfoldable pub entries_of : Fields → Object
entries_of closed = []
entries_of (field k v o) = (k, v) ∷ entries_of o

unfoldable pub items_of : List Json → Items
items_of [] = last
items_of (v ∷ l) = item v (items_of l)

-- Map::insert: in place if the key is there, else behind the last field.
unfoldable pub put : Text → Json → Object → Object
unfolding text_eq
put k v [] = (k, v) ∷ []
put k v ((j, w) ∷ o) = let rest = put k v o in if text_eq j k then (j, v) ∷ o else (j, w) ∷ rest

unfoldable pub as_object : Json → Option Object
unfolding entries_of
as_object (object o) = some (entries_of o)
as_object _ = none

unfoldable pub field_of : Text → Fields → Option Json
unfolding text_eq
field_of k closed = none
field_of k (field j v o) = let rest = field_of k o in if text_eq j k then some v else rest

unfoldable pub field_count : Fields → ℕ
field_count closed = 0
field_count (field j v o) = suc (field_count o)

abbrev bool_eq : Bool → Bool → Bool
bool_eq true b = b
bool_eq false true = false
bool_eq false false = true

unfoldable mutual
  unfolding field_of field_count text_eq

  pub json_eq : Json → Json → Bool
  json_eq null null = true
  json_eq (boolean a) (boolean b) = bool_eq a b
  json_eq (number a) (number b) = text_eq a b
  json_eq (string a) (string b) = text_eq a b
  json_eq (array a) (array b) = items_eq a b
  json_eq (object a) (object b) = (field_count a == field_count b) && fields_within a b
  json_eq _ _ = false

  pub items_eq : Items → Items → Bool
  items_eq last last = true
  items_eq (item v a) (item w b) = json_eq v w && items_eq a b
  items_eq _ _ = false

  pub fields_within : Fields → Fields → Bool
  fields_within closed b = true
  fields_within (field k v a) b =
      elim (field_of k b) [ none ↦ false | some w ↦ json_eq v w ] && fields_within a b
