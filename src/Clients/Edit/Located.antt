-- ===== src/Clients/Edit/Located.antt =====
-- What a read finds after an edit.
use mcpgw.Base.{
  ◌≡◌, refl, ap, ◌∙◌, Option, none, some, List, [], ◌∷◌, ◌++◌, if◌then◌else◌, Result, ok,
}
use mcpgw.Base.Bytes.{Text, text_eq_refl}
use mcpgw.Base.Map.{get, get_or}
use mcpgw.Clients.Json.{
  Json, null, boolean, number, string, array, object, closed, Object, fields_of, entries_of, put,
}
use mcpgw.Clients.Objects.{get-put, entries_of-fields_of}
use mcpgw.Clients.Edit.{
  locate_from, edit_from, edit_json, refused_at, remove_all, put_all, json_entries, entries_or_none,
}

module _ (edit : Object → Object) where
  fresh_entries :
      (walked path : List Text) → entries_or_none (locate_from walked path (object closed)) ≡ []
  unfolding locate_from entries_of
  fresh_entries walked [] = refl
  fresh_entries walked (s ∷ path) = refl

  edit_from_located :
      (walked path : List Text) (node : Json)
      → refused_at (edit_from edit walked path node).1 ≡ none
      → locate_from walked path (edit_from edit walked path node).0
        ≡ ok (some (edit (entries_or_none (locate_from walked path node))))
  unfolding edit_from locate_from
  edit_from_located walked [] (object f) h =
      ap (λ o. ok (some o)) (entries_of-fields_of (edit (entries_of f)))
  edit_from_located walked (s ∷ path) (object f) h =
      step (λ v. edit_from_located (walked ++ s ∷ []) path v) (get s (entries_of f)) h
    where
      next : List Text
      next = walked ++ s ∷ []

      found : (v : Json) → get s (entries_of (fields_of (put s v (entries_of f)))) ≡ some v
      found v =
          ap (get s) (entries_of-fields_of (put s v (entries_of f)))
          ∙ (get-put s s v (entries_of f)
              ∙ ap (λ b. if b then some v else get s (entries_of f)) (text_eq_refl s))

      look : Option Json → Result (List Text) (Option Object)
      look o = elim o [ none ↦ ok none | some value ↦ locate_from next path value ]

      step :
          ((v : Json)
            → refused_at (edit_from edit next path v).1 ≡ none
            → locate_from next path (edit_from edit next path v).0
              ≡ ok (some (edit (entries_or_none (locate_from next path v)))))
          → (o : Option Json)
          → refused_at (edit_from edit next path (get_or (object closed) o)).1 ≡ none
          → look (
              get s (
                entries_of (
                  fields_of (
                    put s (edit_from edit next path (get_or (object closed) o)).0 (entries_of f)))))
            ≡ ok (some (edit (entries_or_none (look o))))
      step ih none q =
          ap look (found (edit_from edit next path (object closed)).0)
          ∙ (ih (object closed) q ∙ ap (λ o. ok (some (edit o))) (fresh_entries next path))
      step ih (some v) q = ap look (found (edit_from edit next path v).0) ∙ ih v q
  edit_from_located walked [] null h = cc
  edit_from_located walked (s ∷ path) null h = cc
  edit_from_located walked [] (boolean b) h = cc
  edit_from_located walked (s ∷ path) (boolean b) h = cc
  edit_from_located walked [] (number n) h = cc
  edit_from_located walked (s ∷ path) (number n) h = cc
  edit_from_located walked [] (string t) h = cc
  edit_from_located walked (s ∷ path) (string t) h = cc
  edit_from_located walked [] (array l) h = cc
  edit_from_located walked (s ∷ path) (array l) h = cc

-- After an edit that is not refused, the server map that a read finds is the one it found before with
-- the names removed and the entries put, and an empty one if there was none.
pub edit_json-json_entries :
    (path : List Text) (root : Json) (removes : List Text) (upserts : List (Text × Json))
    → refused_at (edit_json path root removes upserts).1 ≡ none
    → json_entries path (edit_json path root removes upserts).0
      ≡ put_all upserts (remove_all removes (json_entries path root))
unfolding edit_json json_entries
edit_json-json_entries path root removes upserts h =
    ap entries_or_none
      (edit_from_located (λ entries. put_all upserts (remove_all removes entries)) [] path root h)
