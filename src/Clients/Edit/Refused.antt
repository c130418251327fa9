-- ===== src/Clients/Edit/Refused.antt =====
-- When an edit is refused, and that it has then changed nothing.
use mathlib.Core.Path.{ap₂}
use mcpgw.Base.{◌≡◌, refl, sym, ap, ◌∙◌, ◌↔◌, Option, none, some, List, [], ◌∷◌, ◌++◌, ok, err}
use mcpgw.Base.Bytes.{Text}
use mcpgw.Base.Map.{get, get_or}
use mcpgw.Clients.Json.{
  Json, null, boolean, number, string, array, object, closed, Object, fields_of, entries_of, put,
}
use mcpgw.Clients.Objects.{put_same, fields_of-entries_of}
use mcpgw.Clients.Edit.{
  locate_from, locate_in, edit_from, edit_json, refused_at, Edited, remove_all, put_all,
}

module _ (edit : Object → Object) where
  -- Below an object that has just been made nothing is refused.
  pub edit_from_fresh :
      (walked path : List Text) → refused_at (edit_from edit walked path (object closed)).1 ≡ none
  unfolding edit_from entries_of
  edit_from_fresh walked [] = refl
  edit_from_fresh walked (s ∷ path) = edit_from_fresh (walked ++ s ∷ []) path

  edit_from_refused :
      (walked path : List Text) (node : Json)
      → refused_at (edit_from edit walked path node).1 ≡ refused_at (locate_from walked path node)
  unfolding edit_from locate_from
  edit_from_refused walked [] (object f) = refl
  edit_from_refused walked (s ∷ path) (object f) =
      step (λ v. edit_from_refused (walked ++ s ∷ []) path v) (get s (entries_of f))
    where
      next : List Text
      next = walked ++ s ∷ []

      step :
          ((v : Json)
            → refused_at (edit_from edit next path v).1 ≡ refused_at (locate_from next path v))
          → (o : Option Json)
          → refused_at (edit_from edit next path (get_or (object closed) o)).1
            ≡ refused_at (elim o [ none ↦ ok none | some value ↦ locate_from next path value ])
      step ih none = edit_from_fresh next path
      step ih (some v) = ih v
  edit_from_refused walked [] null = refl
  edit_from_refused walked [] (boolean b) = refl
  edit_from_refused walked [] (number n) = refl
  edit_from_refused walked [] (string t) = refl
  edit_from_refused walked [] (array l) = refl
  edit_from_refused walked (s ∷ path) null = refl
  edit_from_refused walked (s ∷ path) (boolean b) = refl
  edit_from_refused walked (s ∷ path) (number n) = refl
  edit_from_refused walked (s ∷ path) (string t) = refl
  edit_from_refused walked (s ∷ path) (array l) = refl

  refused_clash : (p : List Text) → ¬ (◌≡◌ {A = Option (List Text)} none (some p))
  refused_clash p q = cc

  -- A refused edit has touched nothing.
  edit_from_untouched :
      (walked path p : List Text) (node : Json)
      → refused_at (edit_from edit walked path node).1 ≡ some p
      → (edit_from edit walked path node).0 ≡ node
  unfolding edit_from
  edit_from_untouched walked [] p (object f) h = absurd (refused_clash p h)
  edit_from_untouched walked (s ∷ path) p (object f) h =
      step (λ v. edit_from_untouched (walked ++ s ∷ []) path p v) (get s (entries_of f)) refl h
    where
      next : List Text
      next = walked ++ s ∷ []

      step :
          ((v : Json)
            → refused_at (edit_from edit next path v).1 ≡ some p
            → (edit_from edit next path v).0 ≡ v)
          → (o : Option Json) → get s (entries_of f) ≡ o
          → refused_at (edit_from edit next path (get_or (object closed) o)).1 ≡ some p
          → object (
              fields_of
                (put s (edit_from edit next path (get_or (object closed) o)).0 (entries_of f)))
            ≡ object f
      step ih none e q = absurd (refused_clash p (sym (edit_from_fresh next path) ∙ q))
      step ih (some v) e q =
          ap (λ x. object (fields_of (put s x (entries_of f)))) (ih v q)
          ∙ (ap (λ o. object (fields_of o)) (put_same s v (entries_of f) e)
              ∙ ap object (fields_of-entries_of f))
  edit_from_untouched walked [] p null h = refl
  edit_from_untouched walked [] p (boolean b) h = refl
  edit_from_untouched walked [] p (number n) h = refl
  edit_from_untouched walked [] p (string t) h = refl
  edit_from_untouched walked [] p (array l) h = refl
  edit_from_untouched walked (s ∷ path) p null h = refl
  edit_from_untouched walked (s ∷ path) p (boolean b) h = refl
  edit_from_untouched walked (s ∷ path) p (number n) h = refl
  edit_from_untouched walked (s ∷ path) p (string t) h = refl
  edit_from_untouched walked (s ∷ path) p (array l) h = refl

-- An edit is refused exactly where a read of the same path is, naming the same key, and a refused
-- edit leaves the document as it was, also where it had keys to make on the way.
pub edit_json-locate_in :
    (path : List Text) (root : Json) (removes : List Text) (upserts : List (Text × Json))
    (walked : List Text)
    → ((edit_json path root removes upserts ≡ (root, err walked))
        ↔ (refused_at (locate_in path root) ≡ some walked))
      × (refused_at (edit_json path root removes upserts).1 ≡ refused_at (locate_in path root))
unfolding edit_json locate_in
edit_json-locate_in path root removes upserts walked = (
  (
    λ e. sym same ∙ ap (λ x. refused_at x.1) e,
    λ h.
        both (edit_from edit [] path root) (same ∙ h)
          (edit_from_untouched edit [] path walked root (same ∙ h)),
  ),
  same,
)
  where
    edit : Object → Object
    edit entries = put_all upserts (remove_all removes entries)

    same : refused_at (edit_from edit [] path root).1 ≡ refused_at (locate_from [] path root)
    same = edit_from_refused edit [] path root

    both : (x : Edited) → refused_at x.1 ≡ some walked → x.0 ≡ root → x ≡ (root, err walked)
    both (node, ok u) q e = cc
    both (node, err p) q e = let key : p ≡ walked = cc in ap₂ (λ a b. (a, err b)) e key
