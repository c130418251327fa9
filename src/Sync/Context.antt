-- ===== src/Sync/Context.antt =====
-- plan_client_context: the names to drop from a client's own exclusion list.
use mathlib.Core.Path.{subst}
use mcpgw.Base.{
  ◌≡◌, refl, sym, ap, ◌∙◌, ◌↔◌, ◌⊎◌, inl, inr, Bool, true, false, ◌||◌, Option, none, some, List,
  [], ◌∷◌, ◌++◌, In, In-append_left, In-append_right, In-append_cases, map, retain, if◌then◌else◌,
}
use mcpgw.Base.Bytes.{Text, codes, text_eq, text_eq_iff}
use mcpgw.Base.Map.{Set, get, contains_key, insert, keys, collect, collect_onto, get-insert}
use mcpgw.Clients.Json.{Json, Items, last, item, string, array, as_object}
use mcpgw.Clients.Schema.{ClientKind}
use mcpgw.Sync.Plan.{SyncPlan, list_contains}
use mcpgw.Sync.Places.{retain_iff, keys_iff, list_contains_iff}

-- ClientKind::exclusion_list
unfoldable pub exclusion_list : ClientKind → Option (List Text)
exclusion_list ClientKind.gemini = some (codes "mcp" ∷ codes "excluded" ∷ [])
exclusion_list _ = none

-- Value::get on a key
abbrev member : Text → Json → Option Json
member key value = elim (as_object value) [ none ↦ none | some fields ↦ get key fields ]

unfoldable pub value_at : List Text → Json → Option Json
unfolding as_object get
value_at [] root = some root
value_at (key ∷ path) root = elim (member key root) [
  | none ↦ none
  | some value ↦ value_at path value
]

-- filter_map(Value::as_str) over an array
unfoldable pub strings_of : Items → List Text
strings_of last = []
strings_of (item (string text) items) = text ∷ strings_of items
strings_of (item _ items) = strings_of items

abbrev in_array : Option Json → Option (List Text)
in_array (some (array items)) = some (strings_of items)
in_array _ = none

-- The strings of the exclusion list that the document holds.
unfoldable pub excluded_names : ClientKind → Json → Option (List Text)
unfolding exclusion_list value_at strings_of
excluded_names kind document = elim (exclusion_list kind) [
  | none ↦ none
  | some path ↦ in_array (value_at path document)
]

unfoldable pub mine : SyncPlan → List Text
unfolding keys
mine plan = keys plan.desired ++ plan.removes

abbrev pub mark : Text → Text × Unit {0}
mark name = (name, tt)

-- The names in order, each once.
unfoldable pub in_order : List Text → List Text
unfolding collect keys
in_order names = keys (collect (map mark names))

unfoldable pub unexcluding : Option (List Text) → SyncPlan → SyncPlan
unfolding mine in_order list_contains
unexcluding none plan = plan
unexcluding (some excluded) plan = record plan {
  unexclude = in_order (retain (λ name. list_contains name (mine plan)) excluded);
}

unfoldable pub plan_client_context : ClientKind → Json → SyncPlan → SyncPlan
unfolding excluded_names unexcluding
plan_client_context kind document plan = unexcluding (excluded_names kind document) plan

contains_key-insert :
    (n k : Text) (m : Set) → contains_key n (insert k tt m) ≡ (text_eq k n || contains_key n m)
unfolding contains_key
contains_key-insert n k m =
    ap (λ o. elim o [ none ↦ false | some v ↦ true ]) (get-insert n k tt m) ∙ cases (text_eq k n)
  where
    cases :
        (b : Bool)
        → elim (if b then some tt else get n m) [ none ↦ false | some v ↦ true ]
          ≡ (b || contains_key n m)
    cases true = refl
    cases false = refl

or_iff : (a b : Bool) → ((a || b) ≡ true) ↔ ((a ≡ true) ⊎ (b ≡ true))
or_iff true b = (λ h. inl refl, λ h. refl)
or_iff false true = (λ h. inr refl, λ h. refl)
or_iff false false = (λ h. inr h, λ h. elim h [ inl p ↦ p | inr p ↦ p ])

marked :
    (n : Text) (l : List Text) (m : Set)
    → (contains_key n (collect_onto m (map mark l)) ≡ true) ↔ (In n l ⊎ (contains_key n m ≡ true))
unfolding collect_onto
marked n [] m = (λ h. inr h, λ h. elim h [ inl i ↦ elim i [ ] | inr p ↦ p ])
marked n (k ∷ l) m = (
  λ h. elim ((marked n l (insert k tt m)).0 h) [
    | inl i ↦ inl (inr i)
    | inr p ↦
        elim ((or_iff (text_eq k n) (contains_key n m)).0 (sym (contains_key-insert n k m) ∙ p)) [
          | inl t ↦ inl (inl (sym ((text_eq_iff k n).0 t)))
          | inr q ↦ inr q
        ]
  ],
  λ h. (marked n l (insert k tt m)).1 (next h),
)
  where
    next :
        In n (k ∷ l) ⊎ (contains_key n m ≡ true) → In n l ⊎ (contains_key n (insert k tt m) ≡ true)
    next (inl (inl e)) = inr (
        contains_key-insert n k m
        ∙ (or_iff (text_eq k n) (contains_key n m)).1 (inl ((text_eq_iff k n).1 (sym e))))
    next (inl (inr i)) = inl i
    next (inr p) =
        inr (contains_key-insert n k m ∙ (or_iff (text_eq k n) (contains_key n m)).1 (inr p))

pub in_order_iff : (n : Text) (l : List Text) → In n (in_order l) ↔ In n l
unfolding in_order contains_key get
in_order_iff n l = (
  λ i. elim ((marked n l []).0 ((keys_iff n (collect (map mark l))).0 i)) [
    | inl j ↦ j
    | inr p ↦ cc
  ],
  λ j. (keys_iff n (collect (map mark l))).1 ((marked n l []).1 (inl j)),
)

module _ (plan : SyncPlan) (excluded : List Text) (n : Text) where
  abbrev Unexcluded : SyncPlan → Type 0
  Unexcluded after =
      (In n after.unexclude ↔ (In n excluded × (In n (keys plan.desired) ⊎ In n plan.removes)))
      × (after ≡ record plan { unexclude = after.unexclude })

unexcluding-some :
    (plan : SyncPlan) (excluded : List Text) (n : Text)
    → Unexcluded plan excluded n (unexcluding (some excluded) plan)
unfolding unexcluding mine
unexcluding-some plan excluded n = (
  (
    λ i.
        let (j, t) = (retain_iff test n excluded).0 ((in_order_iff n (retain test excluded)).0 i) in
        (
          j,
          In-append_cases n (keys plan.desired) plan.removes
              ((list_contains_iff n (mine plan)).0 t),
        ),
    λ p. (in_order_iff n (retain test excluded)).1 (
        (retain_iff test n excluded).1
          (p.0, (list_contains_iff n (mine plan)).1 (responsible p.1))),
  ),
  refl,
)
  where
    test : Text → Bool
    test name = list_contains name (mine plan)

    responsible :
        In n (keys plan.desired) ⊎ In n plan.removes → In n (keys plan.desired ++ plan.removes)
    responsible (inl i) = In-append_left n (keys plan.desired) plan.removes i
    responsible (inr i) = In-append_right n (keys plan.desired) plan.removes i

-- Where the document holds an exclusion list, the names to be dropped from it are exactly those of
-- the list that the plan writes or keeps as its own, or removes; every other list of the plan, and what it
-- desires, stays.
pub plan_client_context-unexclude :
    (kind : ClientKind) (document : Json) (plan : SyncPlan) (excluded : List Text) (n : Text)
    → excluded_names kind document ≡ some excluded
    → (In n (plan_client_context kind document plan).unexclude
        ↔ (In n excluded × (In n (keys plan.desired) ⊎ In n plan.removes)))
      × (plan_client_context kind document plan
          ≡ record plan { unexclude = (plan_client_context kind document plan).unexclude })
unfolding plan_client_context
plan_client_context-unexclude kind document plan excluded n h =
    subst (λ o. Unexcluded plan excluded n (unexcluding o plan)) (sym h)
      (unexcluding-some plan excluded n)
