-- ===== src/Sync/Apply.antt =====
-- apply_plan: a plan carried out on a client's document, and what the server map then holds.
use mcpgw.Base.{
  ◌≡◌, refl, ap, ◌∙◌, Bool, true, false, ◌||◌, Option, none, some, List, [], ◌∷◌, ◌++◌, map,
  if◌then◌else◌,
}
use mcpgw.Base.Bytes.{Text, text_eq, text_eq_iff}
use mcpgw.Base.Map.{get, get_or}
use mcpgw.Clients.Json.{Json, null, Object, put}
use mcpgw.Clients.Schema.{ClientKind, codec}
use mcpgw.Clients.Objects.{Unique, swap_remove, get-put, get-swap_remove, swap_remove-Unique}
use mcpgw.Clients.Edit.{Edited, edit_json, remove_all, put_all, json_entries, refused_at}
use mcpgw.Clients.Edit.Located.{edit_json-json_entries}
use mcpgw.Sync.Plan.{SyncPlan, list_contains}

abbrev pub planned : SyncPlan → Text → Json
planned plan name = get_or null (get name plan.desired)

-- SyncPlan::upserts. Every name added or updated has an entry in the plan.
unfoldable pub upserts : SyncPlan → List (Text × Json)
unfolding get
upserts plan = map (λ name. (name, planned plan name)) (plan.adds ++ plan.updates)

unfoldable pub apply_plan : ClientKind → Json → SyncPlan → Edited
unfolding codec edit_json upserts
apply_plan kind root plan = edit_json (codec kind).root root plan.removes (upserts plan)

-- What a lookup sees in the server map once a plan is carried out.
abbrev pub looked_up : Bool → Bool → Json → Option Json → Option Json
looked_up put_there removed entry found =
    if put_there then some entry else if removed then none else found

get-remove_all :
    (n : Text) (names : List Text) (o : Object)
    → Unique o
    → get n (remove_all names o) ≡ (if list_contains n names then none else get n o)
unfolding remove_all list_contains
get-remove_all n [] o u = refl
get-remove_all n (m ∷ names) o u =
    get-remove_all n names (swap_remove m o) (swap_remove-Unique m o u)
    ∙ (ap (λ x. if list_contains n names then none else x) (get-swap_remove n m o u)
        ∙ nested (text_eq m n) (list_contains n names))
  where
    nested :
        (a b : Bool)
        → (if b then none else if a then none else get n o) ≡ (if a || b then none else get n o)
    nested true true = refl
    nested true false = refl
    nested false b = refl

get-put_all :
    (n : Text) (entry : Text → Json) (names : List Text) (o : Object)
    → get n (put_all (map (λ name. (name, entry name)) names) o)
      ≡ (if list_contains n names then some (entry n) else get n o)
unfolding put_all list_contains
get-put_all n entry [] o = refl
get-put_all n entry (m ∷ names) o =
    get-put_all n entry names (put m (entry m) o)
    ∙ (ap (λ x. if list_contains n names then some (entry n) else x) (get-put n m (entry m) o)
        ∙ nested (text_eq m n) refl (list_contains n names))
  where
    nested :
        (a : Bool)
        → text_eq m n ≡ a
        → (b : Bool)
        → (if b then some (entry n) else if a then some (entry m) else get n o)
          ≡ (if a || b then some (entry n) else get n o)
    nested true e true = refl
    nested true e false = ap (λ k. some (entry k)) ((text_eq_iff m n).0 e)
    nested false e b = refl

-- The server map of an edited document, name by name.
pub get-apply_plan :
    (kind : ClientKind) (root : Json) (plan : SyncPlan) (n : Text)
    → Unique (json_entries (codec kind).root root)
    → refused_at (apply_plan kind root plan).1 ≡ none
    → get n (json_entries (codec kind).root (apply_plan kind root plan).0)
      ≡ looked_up
          (list_contains n (plan.adds ++ plan.updates))
          (list_contains n plan.removes)
          (planned plan n)
          (get n (json_entries (codec kind).root root))
unfolding apply_plan upserts
get-apply_plan kind root plan n u h =
    ap (get n) (
      edit_json-json_entries path root plan.removes
        (map (λ name. (name, planned plan name)) (plan.adds ++ plan.updates)) h)
    ∙ (get-put_all n (planned plan) (plan.adds ++ plan.updates) (remove_all plan.removes entries)
        ∙ ap (λ x. if list_contains n (plan.adds ++ plan.updates) then some (planned plan n) else x)
            (get-remove_all n plan.removes entries u))
  where
    path : List Text
    path = (codec kind).root

    entries : Object
    entries = json_entries path root
