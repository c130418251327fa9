-- ===== src/Clients/Objects.antt =====
-- The operations of serde_json's map that an edit uses, and what a lookup sees after them.
use mcpgw.Base.{
  ◌≡◌, refl, sym, ap, ◌∙◌, Bool, true, false, Option, none, some, [], ◌∷◌, if◌then◌else◌, arith,
  Bool-cases, inl, inr,
}
use mcpgw.Base.Bytes.{Text, text_eq, text_eq_iff}
use mcpgw.Base.Map.{get}
use mcpgw.Clients.Json.{Json, Fields, closed, field, Object, fields_of, entries_of, field_of, put}
use mcpgw.Clients.Unique.{IsUnique, HasUnique}

abbrev split_last : Text × Json → Object → (Text × Json) × Object
split_last p [] = (p, [])
split_last p (q ∷ o) = ((split_last q o).0, p ∷ (split_last q o).1)

abbrev move_last : Object → Object
move_last [] = []
move_last (p ∷ o) = (split_last p o).0 ∷ (split_last p o).1

-- Map::remove under `preserve_order`: the last field takes the place of the one removed.
unfoldable pub swap_remove : Text → Object → Object
unfolding text_eq
swap_remove k [] = []
swap_remove k ((j, v) ∷ o) =
    let rest = swap_remove k o in if text_eq j k then move_last o else (j, v) ∷ rest

-- No key twice, at any depth.
abbrev pub Unique : Object → Type 0
Unique [] = Unit
Unique ((k, v) ∷ o) = (get k o ≡ none) × IsUnique v × Unique o

pub get-fields_of : (k : Text) (o : Object) → field_of k (fields_of o) ≡ get k o
unfolding field_of fields_of get
get-fields_of k [] = refl
get-fields_of k ((j, v) ∷ o) = ap (λ r. if text_eq j k then some v else r) (get-fields_of k o)

pub Unique-fields_of : (o : Object) → Unique o → HasUnique (fields_of o)
unfolding IsUnique fields_of
Unique-fields_of [] u = tt
Unique-fields_of ((k, v) ∷ o) (l, w, u) = (get-fields_of k o ∙ l, w, Unique-fields_of o u)

pub entries_of-fields_of : (o : Object) → entries_of (fields_of o) ≡ o
unfolding entries_of fields_of
entries_of-fields_of [] = refl
entries_of-fields_of ((k, v) ∷ o) = ap (λ r. (k, v) ∷ r) (entries_of-fields_of o)

pub fields_of-entries_of : (f : Fields) → fields_of (entries_of f) ≡ f
unfolding fields_of entries_of
fields_of-entries_of closed = refl
fields_of-entries_of (field k v f) = ap (field k v) (fields_of-entries_of f)

pub Unique-entries_of : (f : Fields) → HasUnique f → Unique (entries_of f)
unfolding IsUnique entries_of
Unique-entries_of closed u = tt
Unique-entries_of (field k v f) (l, w, u) = (
  sym (get-fields_of k (entries_of f)) ∙ (ap (field_of k) (fields_of-entries_of f) ∙ l),
  w,
  Unique-entries_of f u,
)

pub get-put :
    (j k : Text) (v : Json) (o : Object)
    → get j (put k v o) ≡ (if text_eq k j then some v else get j o)
unfolding get put
get-put j k v [] = refl
get-put j k v ((i, w) ∷ o) =
    ground (arith, text_eq_iff k j, text_eq_iff i j, text_eq_iff i k, get-put j k v o)

put_absent :
    (j k : Text) (v : Json) (o : Object)
    → text_eq k j ≡ false
    → get j o ≡ none
    → get j (put k v o) ≡ none
put_absent j k v o f h = get-put j k v o ∙ (ap (λ b. if b then some v else get j o) f ∙ h)

-- Putting a value keeps the keys apart.
pub put-Unique : (k : Text) (v : Json) (o : Object) → IsUnique v → Unique o → Unique (put k v o)
unfolding put get
put-Unique k v [] w u = (refl, w, tt)
put-Unique k v ((j, x) ∷ o) w (l, y, u) = elim (Bool-cases (text_eq j k)) [
  | inl t ↦ rw t (l, w, u)
  | inr f ↦ rw f (put_absent j k v o (flipped f) l, y, put-Unique k v o w u)
]
  where
    flipped : text_eq j k ≡ false → text_eq k j ≡ false
    flipped f = ground (arith, text_eq_iff j k, text_eq_iff k j)

-- A value put in its own place changes nothing.
pub put_same : (k : Text) (v : Json) (o : Object) → get k o ≡ some v → put k v o ≡ o
unfolding put get
put_same k v [] h = cc
put_same k v ((j, w) ∷ o) h = elim (Bool-cases (text_eq j k)) [
  | inl t ↦ rw t (ap (λ x. (j, x) ∷ o) (sym (inner (rw t at h))))
  | inr f ↦ rw f (ap (λ r. (j, w) ∷ r) (put_same k v o (rw f at h)))
]
  where
    inner : ◌≡◌ {A = Option Json} (some w) (some v) → w ≡ v
    inner q = cc

get-cons_none :
    (k m : Text) (y : Json) (o : Object)
    → get k ((m, y) ∷ o) ≡ none
    → (text_eq m k ≡ false) × (get k o ≡ none)
unfolding get
get-cons_none k m y o h = elim (Bool-cases (text_eq m k)) [
  | inl t ↦ absurd (clash (rw t at h))
  | inr f ↦ (f, rw f at h)
]
  where
    clash : ¬ (◌≡◌ {A = Option Json} (some y) none)
    clash q = cc

get-front :
    (j m k : Text) (y v : Json) (o : Object)
    → text_eq m k ≡ false
    → get j ((m, y) ∷ (k, v) ∷ o) ≡ get j ((k, v) ∷ (m, y) ∷ o)
unfolding get
get-front j m k y v o f = ground (arith, text_eq_iff m j, text_eq_iff k j, text_eq_iff m k)

get-under :
    (j k : Text) (v : Json) (o p : Object)
    → get j o ≡ get j p
    → get j ((k, v) ∷ o) ≡ get j ((k, v) ∷ p)
unfolding get
get-under j k v o p h = ap (λ r. if text_eq k j then some v else r) h

get-cons_other :
    (m k : Text) (v : Json) (o : Object)
    → text_eq m k ≡ false
    → get m o ≡ none
    → get m ((k, v) ∷ o) ≡ none
unfolding get
get-cons_other m k v o f h = ground (arith, text_eq_iff m k, text_eq_iff k m)

-- Both facts at once: moving the last field to the front loses nothing.
moved :
    (k : Text) (v : Json) (o : Object)
    → Unique ((k, v) ∷ o)
    → Unique ((split_last (k, v) o).0 ∷ (split_last (k, v) o).1)
      × ((j : Text)
          → get j ((split_last (k, v) o).0 ∷ (split_last (k, v) o).1) ≡ get j ((k, v) ∷ o))
moved k v [] u = (u, λ j. refl)
moved k v ((i, w) ∷ o) (l, x, u) = step (split_last (i, w) o) (moved i w o u)
  where
    step :
        (p : (Text × Json) × Object)
        → Unique (p.0 ∷ p.1) × ((j : Text) → get j (p.0 ∷ p.1) ≡ get j ((i, w) ∷ o))
        → Unique (p.0 ∷ (k, v) ∷ p.1)
          × ((j : Text) → get j (p.0 ∷ (k, v) ∷ p.1) ≡ get j ((k, v) ∷ (i, w) ∷ o))
    step ((m, y), rest) ((lm, z, ur), same) =
        let (f, gone) = get-cons_none k m y rest (same k ∙ l) in
        (
          (get-cons_other m k v rest f lm, z, (gone, x, ur)),
          λ j. get-front j m k y v rest f ∙ get-under j k v ((m, y) ∷ rest) ((i, w) ∷ o) (same j),
        )

move_last-Unique : (o : Object) → Unique o → Unique (move_last o)
move_last-Unique [] u = tt
move_last-Unique ((k, v) ∷ o) u = (moved k v o u).0

get-move_last : (j : Text) (o : Object) → Unique o → get j (move_last o) ≡ get j o
get-move_last j [] u = refl
get-move_last j ((k, v) ∷ o) u = (moved k v o u).1 j

pub get-swap_remove :
    (j k : Text) (o : Object)
    → Unique o
    → get j (swap_remove k o) ≡ (if text_eq k j then none else get j o)
unfolding swap_remove get
get-swap_remove j k [] u = both (text_eq k j)
  where
    both : (b : Bool) → ◌≡◌ {A = Option Json} none (if b then none else none)
    both true = refl
    both false = refl
get-swap_remove j k ((i, w) ∷ o) (l, x, u) = elim (Bool-cases (text_eq i k)) [
  | inl t ↦ rw t (get-move_last j o u ∙ removed ((text_eq_iff i k).0 t) (text_eq i j) refl)
  | inr f ↦ rw f (passed f (get-swap_remove j k o u))
]
  where
    removed :
        i ≡ k
        → (b : Bool) → text_eq i j ≡ b
        → get j o ≡ (if text_eq k j then none else if b then some w else get j o)
    removed e true h = rw (← e, h) (rw (← (text_eq_iff i j).0 h) l)
    removed e false h = rw (← e, h) refl

    passed :
        text_eq i k ≡ false
        → get j (swap_remove k o) ≡ (if text_eq k j then none else get j o)
        → (if text_eq i j then some w else get j (swap_remove k o))
          ≡ (if text_eq k j then none else if text_eq i j then some w else get j o)
    passed f ih = ground (arith, text_eq_iff i j, text_eq_iff k j, text_eq_iff i k)

pub swap_remove-Unique : (k : Text) (o : Object) → Unique o → Unique (swap_remove k o)
unfolding swap_remove
swap_remove-Unique k [] u = tt
swap_remove-Unique k ((i, w) ∷ o) (l, x, u) = elim (Bool-cases (text_eq i k)) [
  | inl t ↦ rw t (move_last-Unique o u)
  | inr f ↦ rw f (still (text_eq k i), x, swap_remove-Unique k o u)
]
  where
    still : (b : Bool) → get i (swap_remove k o) ≡ none
    still b = get-swap_remove i k o u ∙ both (text_eq k i)
      where
        both : (c : Bool) → (if c then none else get i o) ≡ none
        both true = refl
        both false = l
