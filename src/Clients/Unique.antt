-- ===== src/Clients/Unique.antt =====
-- Values whose objects have no key twice, as every value that serde_json builds, equal themselves.
use mcpgw.Base.{
  ◌≡◌, refl, ap, ◌∙◌, ◌≢◌, true, false, ◌&&◌, none, some, ◌==◌, arith, Bool-cases, inl, inr, ℕ,
}
use mcpgw.Base.Bytes.{Text, text_eq, text_eq_iff, text_eq_refl}
use mcpgw.Clients.Json.{
  Json, Items, Fields, last, item, closed, field, null, boolean, number, string, array, object,
  field_of, field_count, json_eq, items_eq, fields_within,
}

-- A key that the fields do not have.
abbrev pub Lacks : Text → Fields → Type 0
Lacks k fields = field_of k fields ≡ none

unfoldable mutual
  pub IsUnique : Json → Type 0
  IsUnique (array items) = AreUnique items
  IsUnique (object fields) = HasUnique fields
  IsUnique _ = Unit

  pub AreUnique : Items → Type 0
  AreUnique last = Unit
  AreUnique (item v items) = IsUnique v × AreUnique items

  pub HasUnique : Fields → Type 0
  HasUnique closed = Unit
  HasUnique (field k v fields) = Lacks k fields × IsUnique v × HasUnique fields

-- Every field of the first object is found in the second.
abbrev Within : Fields → Fields → Type 0
Within closed b = Unit
Within (field k v a) b = (field_of k b ≡ some v) × Within a b

field_of-behind :
    (j k : Text) (v w : Json) (b : Fields)
    → Lacks k b
    → field_of j b ≡ some w
    → field_of j (field k v b) ≡ some w
unfolding field_of
field_of-behind j k v w b l h = elim (Bool-cases (text_eq k j)) [
  | inl t ↦ absurd (clash ((text_eq_iff k j).0 t))
  | inr f ↦ rw f h
]
  where
    clash : k ≢ j
    clash e = let gone = ap (λ x. field_of x b) e in cc

Within-behind :
    (k : Text) (v : Json) (a b : Fields) → Lacks k b → Within a b → Within a (field k v b)
Within-behind k v closed b l w = tt
Within-behind k v (field j u a) b l (h, w) =
    (field_of-behind j k v u b l h, Within-behind k v a b l w)

field_of-here : (k : Text) (v : Json) (a : Fields) → field_of k (field k v a) ≡ some v
unfolding field_of
field_of-here k v a = rw (text_eq_refl k) refl

Within-self : (a : Fields) → HasUnique a → Within a a
unfolding IsUnique
Within-self closed u = tt
Within-self (field k v a) (l, _, u) =
    (field_of-here k v a, Within-behind k v a a l (Within-self a u))

==_refl : (n : ℕ) → (n == n) ≡ true
==_refl n = ground arith

mutual
  unfolding json_eq IsUnique

  json_eq_refl : (v : Json) → IsUnique v → json_eq v v ≡ true
  json_eq_refl null u = refl
  json_eq_refl (boolean true) u = refl
  json_eq_refl (boolean false) u = refl
  json_eq_refl (number t) u = text_eq_refl t
  json_eq_refl (string t) u = text_eq_refl t
  json_eq_refl (array items) u = items_eq_refl items u
  json_eq_refl (object fields) u =
      rw (==_refl (field_count fields)) (fields_within_refl fields fields u (Within-self fields u))

  items_eq_refl : (items : Items) → AreUnique items → items_eq items items ≡ true
  items_eq_refl last u = refl
  items_eq_refl (item v items) (u, us) = rw (json_eq_refl v u) (items_eq_refl items us)

  fields_within_refl : (a b : Fields) → HasUnique a → Within a b → fields_within a b ≡ true
  fields_within_refl closed b u w = refl
  fields_within_refl (field k v a) b (l, u, us) (h, w) =
      ap (λ o. elim o [ none ↦ false | some x ↦ json_eq v x ] && fields_within a b) h
      ∙ rw (json_eq_refl v u) (fields_within_refl a b us w)

pub json_eq_same : (v : Json) → IsUnique v → json_eq v v ≡ true
json_eq_same v u = json_eq_refl v u
