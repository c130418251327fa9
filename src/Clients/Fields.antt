-- ===== src/Clients/Fields.antt =====
-- crates/core/src/clients/codec.rs: the typed fields of an entry, and why an entry is not read.
use mcpgw.Base.{
  ℕ, zero, suc, ◌&&◌, ◌||◌, Option, none, some, List, [], ◌∷◌, ◌++◌, ◌==◌, leb, if◌then◌else◌,
  Result, ok, err, ◌>>=◌,
}
use mcpgw.Base.Bytes.{Text}
use mcpgw.Base.Map.{Map, get, collect}
use mcpgw.Clients.Json.{
  Json, Items, Fields, last, item, closed, field, string, array, object, Object,
}

-- The reasons that the messages spell.
pub data Unread : Type 0 where
  entry_not_object type_not_string both_targets neither_target no_target command_empty : Unread
  unknown_type missing not_string not_array odd_element not_object : Text → Unread
  odd_field : Text → Text → Unread

abbrev pub text_of : Text → Option Json → Result Unread (Option Text)
text_of key none = ok none
text_of key (some (string s)) = ok (some s)
text_of key (some _) = err (not_string key)

unfoldable pub string_field : Object → Text → Result Unread (Option Text)
unfolding get
string_field obj key = text_of key (get key obj)

-- Iterator::collect into a Result: the first error, or all the elements.
unfoldable pub items_text : Text → Items → Result Unread (List Text)
items_text key last = ok []
items_text key (item (string s) items) = items_text key items >>= λ texts. ok (s ∷ texts)
items_text key (item _ items) = err (odd_element key)

abbrev pub list_of : Text → Option Json → Result Unread (List Text)
list_of key none = ok []
list_of key (some (array items)) = items_text key items
list_of key (some _) = err (not_array key)

unfoldable pub string_list : Object → Text → Result Unread (List Text)
unfolding get items_text
string_list obj key = list_of key (get key obj)

unfoldable pub fields_text : Text → Fields → Result Unread (List (Text × Text))
fields_text key closed = ok []
fields_text key (field k (string s) fields) =
    fields_text key fields >>= λ texts. ok ((k, s) ∷ texts)
fields_text key (field k _ fields) = err (odd_field key k)

abbrev pub map_of : Text → Option Json → Result Unread (Map Text)
map_of key none = ok []
map_of key (some (object fields)) = fields_text key fields >>= λ texts. ok (collect texts)
map_of key (some _) = err (not_object key)

unfoldable pub string_object : Object → Text → Result Unread (Map Text)
unfolding get fields_text collect
string_object obj key = map_of key (get key obj)

-- Option::ok_or
abbrev pub ok_or : {A : Type 0} → Unread → Option A → Result Unread A
ok_or e none = err e
ok_or e (some a) = ok a

-- How many bytes of white space a text begins with: the encoding of one White_Space character.
unfoldable pub space : Text → ℕ
space (a ∷ b ∷ c ∷ text) =
    if (leb 9 a && leb a 13) || a == 32
    then 1
    else if a == 0xc2 && (b == 0x85 || b == 0xa0)
    then 2
    else if (a == 0xe1 && b == 0x9a && c == 0x80)
        || (a == 0xe2
            && b == 0x80
            && ((leb 0x80 c && leb c 0x8a) || c == 0xa8 || c == 0xa9 || c == 0xaf))
        || (a == 0xe2 && b == 0x81 && c == 0x9f)
        || (a == 0xe3 && b == 0x80 && c == 0x80)
    then 3
    else 0
space (a ∷ b ∷ []) =
    if (leb 9 a && leb a 13) || a == 32
    then 1
    else if a == 0xc2 && (b == 0x85 || b == 0xa0)
    then 2
    else 0
space (a ∷ []) = if (leb 9 a && leb a 13) || a == 32 then 1 else 0
space [] = 0

abbrev close_word : Text → List Text → List Text
close_word [] words = words
close_word (c ∷ word) words = (c ∷ word) ∷ words

-- str::split_whitespace: `skip` bytes of a space are left, and `word` is the word so far.
unfoldable pub words_from : ℕ → Text → Text → List Text
unfolding space
words_from skip word [] = close_word word []
words_from (suc skip) word (c ∷ text) = words_from skip word text
words_from zero word (c ∷ text) = elim (space (c ∷ text)) [
  | zero ↦ words_from 0 (word ++ c ∷ []) text
  | suc skip ↦ close_word word (words_from skip [] text)
]

unfoldable pub split_whitespace : Text → List Text
unfolding words_from
split_whitespace text = words_from 0 [] text
