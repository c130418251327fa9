-- ===== src/Sync/Carried.antt =====
-- Carrying the client's own fields over twice is carrying them over once.
use mcpgw.Base.{
  ◌≡◌, refl, sym, ap, ◌∙◌, Bool, true, false, ◌||◌, Option, none, some, List, [], ◌∷◌, is_empty,
  if◌then◌else◌, Bool-cases, inl, inr,
}
use mcpgw.Base.Bytes.{Text, text_eq, text_eq_refl}
use mcpgw.Base.Map.{get, contains_key}
use mcpgw.Config.Server.{Server}
use mcpgw.Clients.Json.{
  Json, null, boolean, number, string, array, object, Object, fields_of, entries_of, as_object,
}
use mcpgw.Clients.Schema.{ClientKind, codec, preserved_fields}
use mcpgw.Clients.Emit.{emit, emitted_object}
use mcpgw.Clients.Unique.{IsUnique}
use mcpgw.Clients.Objects.{
  Unique, put-Unique, entries_of-fields_of, fields_of-entries_of, Unique-fields_of,
  Unique-entries_of,
}
use mcpgw.Clients.RoundTrip.{HasSortedKeys}
use mcpgw.Clients.Written.{emitted_object-Unique}
use mcpgw.Sync.Plan.{
  carry_field, carry_fields, carry_objects, carry_over_client_fields, bind_object, list_contains,
  client_entry,
}
use mcpgw.Sync.Carry.{pick, get-carry_field, get-carry_fields}

-- Two existing entries that agree on the preserved fields the target has not.
Agree : List Text → Object → Object → Object → Type 0
Agree names a b target =
    (n : Text) → list_contains n names ≡ true → get n target ≡ none → get n a ≡ get n b

carry_field_agree :
    (m : Text) (a b target : Object)
    → (get m target ≡ none → get m a ≡ get m b)
    → carry_field (get m a) (contains_key m target) m target
      ≡ carry_field (get m b) (contains_key m target) m target
unfolding contains_key
carry_field_agree m a b target h = found (get m target) refl
  where
    kept : (x : Option Json) → carry_field x true m target ≡ target
    kept none = refl
    kept (some v) = refl

    found :
        (t : Option Json)
        → get m target ≡ t
        → carry_field (get m a) (elim t [ none ↦ false | some v ↦ true ]) m target
          ≡ carry_field (get m b) (elim t [ none ↦ false | some v ↦ true ]) m target
    found none e = ap (λ x. carry_field x false m target) (h e)
    found (some v) e = kept (get m a) ∙ sym (kept (get m b))

pick-none : (t o : Option Json) (b : Bool) → pick t b o ≡ none → t ≡ none
pick-none none o b h = refl
pick-none (some v) o b h = h

carry_fields-Agree :
    (names : List Text) (a b target : Object)
    → Agree names a b target
    → carry_fields names a target ≡ carry_fields names b target
unfolding carry_fields list_contains Agree
carry_fields-Agree [] a b target h = refl
carry_fields-Agree (m ∷ names) a b target h =
    carry_fields-Agree names a b next rest
    ∙ ap (carry_fields names b) (
        carry_field_agree m a b target
          (h m (ap (λ t. t || list_contains m names) (text_eq_refl m))))
  where
    next : Object
    next = carry_field (get m a) (contains_key m target) m target

    behind : (t c : Bool) → c ≡ true → (t || c) ≡ true
    behind true c e = refl
    behind false c e = e

    rest : Agree names a b next
    rest n i e =
        h n (behind (text_eq m n) (list_contains n names) i) (
          pick-none (get n target) (get n a) (text_eq m n) (sym (get-carry_field n m a target) ∙ e))

carry_fields_none : (names : List Text) (target : Object) → carry_fields names [] target ≡ target
unfolding carry_fields get
carry_fields_none [] target = refl
carry_fields_none (m ∷ names) target = carry_fields_none names target

carry_fields_self :
    (names : List Text) (target : Object) → carry_fields names target target ≡ target
unfolding Agree get
carry_fields_self names target =
    carry_fields-Agree names target [] target (λ n i e. e) ∙ carry_fields_none names target

carry_fields_twice :
    (names : List Text) (existing target : Object)
    → carry_fields names (carry_fields names existing target) target
      ≡ carry_fields names existing target
unfolding Agree
carry_fields_twice names existing target =
    carry_fields-Agree names (carry_fields names existing target) existing target (λ n i e.
      get-carry_fields n names existing target
      ∙ (ap (λ t. pick t (list_contains n names) (get n existing)) e
          ∙ ap (λ b. pick none b (get n existing)) i))

carry_objects_twice :
    (names : List Text) (emitted : Json) (existing : Option Object)
    → carry_objects names emitted
        (as_object (carry_objects names emitted existing (as_object emitted)))
        (as_object emitted)
      ≡ carry_objects names emitted existing (as_object emitted)
unfolding as_object
carry_objects_twice names (object f) none =
    ap (λ o. object (fields_of o)) (carry_fields_self names (entries_of f))
    ∙ ap object (fields_of-entries_of f)
carry_objects_twice names (object f) (some existing) =
    ap (λ o. object (fields_of (carry_fields names o (entries_of f))))
      (entries_of-fields_of (carry_fields names existing (entries_of f)))
    ∙ ap (λ o. object (fields_of o)) (carry_fields_twice names existing (entries_of f))
carry_objects_twice names null none = refl
carry_objects_twice names null (some o) = refl
carry_objects_twice names (boolean b) none = refl
carry_objects_twice names (boolean b) (some o) = refl
carry_objects_twice names (number n) none = refl
carry_objects_twice names (number n) (some o) = refl
carry_objects_twice names (string t) none = refl
carry_objects_twice names (string t) (some o) = refl
carry_objects_twice names (array l) none = refl
carry_objects_twice names (array l) (some o) = refl

-- What was carried over is carried over again.
pub carry_over_twice :
    (kind : ClientKind) (existing : Option Json) (emitted : Json)
    → carry_over_client_fields kind (some (carry_over_client_fields kind existing emitted)) emitted
      ≡ carry_over_client_fields kind existing emitted
unfolding carry_over_client_fields
carry_over_twice kind existing emitted = by (is_empty fields)
  where
    fields : List Text
    fields = preserved_fields (codec kind).entries

    carried : Bool → Option Json → Json
    carried b x =
        if b then emitted else carry_objects fields emitted (bind_object x) (as_object emitted)

    by : (b : Bool) → carried b (some (carried b existing)) ≡ carried b existing
    by true = refl
    by false = carry_objects_twice fields emitted (bind_object existing)

pub get-IsUnique : (n : Text) (v : Json) (o : Object) → Unique o → get n o ≡ some v → IsUnique v
unfolding get
get-IsUnique n v [] u h = absurd (clash h)
  where
    clash : ¬ (◌≡◌ {A = Option Json} none (some v))
    clash q = cc
get-IsUnique n v ((k, w) ∷ o) (l, x, u) h = elim (Bool-cases (text_eq k n)) [
  | inl t ↦ rw (← inner (rw t at h)) x
  | inr f ↦ get-IsUnique n v o u (rw f at h)
]
  where
    inner : ◌≡◌ {A = Option Json} (some w) (some v) → w ≡ v
    inner q = cc

carry_field-Unique :
    (m : Text) (b : Bool) (a target : Object)
    → Unique a
    → Unique target
    → Unique (carry_field (get m a) b m target)
carry_field-Unique m b a target ua ut = found (get m a) refl b
  where
    found : (x : Option Json) → get m a ≡ x → (b : Bool) → Unique (carry_field x b m target)
    found none e b = ut
    found (some v) e true = ut
    found (some v) e false = put-Unique m v target (get-IsUnique m v a ua e) ut

carry_fields-Unique :
    (names : List Text) (a target : Object)
    → Unique a
    → Unique target
    → Unique (carry_fields names a target)
unfolding carry_fields
carry_fields-Unique [] a target ua ut = ut
carry_fields-Unique (m ∷ names) a target ua ut =
    carry_fields-Unique names a _ ua (carry_field-Unique m (contains_key m target) a target ua ut)

no_target :
    (names : List Text) (emitted : Json) (x : Option Object)
    → IsUnique emitted
    → IsUnique (carry_objects names emitted x none)
no_target names emitted none ue = ue
no_target names emitted (some o) ue = ue

carry_objects-IsUnique :
    (names : List Text) (emitted v : Json)
    → IsUnique v
    → IsUnique emitted
    → IsUnique (carry_objects names emitted (as_object v) (as_object emitted))
unfolding IsUnique as_object
carry_objects-IsUnique names (object f) (object g) uv ue =
    Unique-fields_of (carry_fields names (entries_of g) (entries_of f)) (
      carry_fields-Unique names (entries_of g) (entries_of f) (Unique-entries_of g uv)
        (Unique-entries_of f ue))
carry_objects-IsUnique names (object f) null uv ue = ue
carry_objects-IsUnique names (object f) (boolean b) uv ue = ue
carry_objects-IsUnique names (object f) (number b) uv ue = ue
carry_objects-IsUnique names (object f) (string b) uv ue = ue
carry_objects-IsUnique names (object f) (array b) uv ue = ue
carry_objects-IsUnique names null v uv ue = no_target names null (as_object v) ue
carry_objects-IsUnique names (boolean b) v uv ue = no_target names (boolean b) (as_object v) ue
carry_objects-IsUnique names (number t) v uv ue = no_target names (number t) (as_object v) ue
carry_objects-IsUnique names (string t) v uv ue = no_target names (string t) (as_object v) ue
carry_objects-IsUnique names (array l) v uv ue = no_target names (array l) (as_object v) ue

-- The entry written over an existing one has no key twice.
pub carry_over-IsUnique :
    (kind : ClientKind) (existing : Option Json) (emitted : Json)
    → ((v : Json) → existing ≡ some v → IsUnique v)
    → IsUnique emitted
    → IsUnique (carry_over_client_fields kind existing emitted)
unfolding carry_over_client_fields
carry_over-IsUnique kind existing emitted uv ue = by (is_empty fields) existing uv
  where
    fields : List Text
    fields = preserved_fields (codec kind).entries

    by :
        (b : Bool) (x : Option Json)
        → ((v : Json) → x ≡ some v → IsUnique v)
        → IsUnique (
            if b then emitted else carry_objects fields emitted (bind_object x) (as_object emitted))
    by true x u = ue
    by false none u = ue
    by false (some v) u = carry_objects-IsUnique fields emitted v (u v refl) ue

pub client_entry-IsUnique :
    (kind : ClientKind) (server : Server)
    → HasSortedKeys server.transport
    → IsUnique (client_entry kind server)
unfolding client_entry emit IsUnique
client_entry-IsUnique kind server s =
    Unique-fields_of (emitted_object (codec kind).entries server)
      (emitted_object-Unique (codec kind).entries server s)
