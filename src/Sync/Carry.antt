-- ===== src/Sync/Carry.antt =====
-- Carrying the client's own fields over twice is carrying them over once.
use mathlib.Core.Path.{subst}
use mcpgw.Base.{
  ◌≡◌, refl, sym, ap, ◌∙◌, Bool, true, false, ◌||◌, Option, none, some, List, [], ◌∷◌, any,
  if◌then◌else◌, Bool-cases, inl, inr,
}
use mcpgw.Base.Bytes.{Text, text_eq, text_eq_iff, text_eq_refl}
use mcpgw.Base.Map.{get, contains_key}
use mcpgw.Clients.Json.{Json, Object}
use mcpgw.Clients.Objects.{get-put}
use mcpgw.Sync.Plan.{carry_field, carry_fields, list_contains}

-- The target's own field, or the existing entry's for a preserved name.
abbrev pub pick : Option Json → Bool → Option Json → Option Json
pick (some v) b o = some v
pick none true o = o
pick none false o = none

pick_twice : (t o : Option Json) (b c : Bool) → pick (pick t b o) c o ≡ pick t (b || c) o
pick_twice (some v) o b c = refl
pick_twice none (some v) true c = refl
pick_twice none none true true = refl
pick_twice none none true false = refl
pick_twice none o false c = refl

pub get-carry_field :
    (n m : Text) (existing target : Object)
    → get n (carry_field (get m existing) (contains_key m target) m target)
      ≡ pick (get n target) (text_eq m n) (get n existing)
unfolding contains_key
get-carry_field n m existing target = elim (Bool-cases (text_eq m n)) [
  | inl t ↦ rw t (
      subst
        (λ x.
          get n (
            carry_field (get x existing) (elim (get x target) [ none ↦ false | some v ↦ true ]) x
              target)
          ≡ pick (get n target) true (get n existing))
        (sym ((text_eq_iff m n).0 t)) (here (get n existing) (get n target) refl))
  | inr f ↦ rw f (
      away f (get m existing) (elim (get m target) [ none ↦ false | some v ↦ true ]) (get n target)
        refl)
]
  where
    here :
        (e t : Option Json)
        → get n target ≡ t
        → get n (carry_field e (elim t [ none ↦ false | some v ↦ true ]) n target) ≡ pick t true e
    here none none h = h
    here none (some v) h = h
    here (some w) none h =
        get-put n n w target ∙ ap (λ b. if b then some w else get n target) (text_eq_refl n)
    here (some w) (some v) h = h

    away :
        text_eq m n ≡ false
        → (e : Option Json) (b : Bool) (t : Option Json) → get n target ≡ t
        → get n (carry_field e b m target) ≡ pick t false (get n existing)
    away f e b none h = absent e b
      where
        absent : (e : Option Json) (b : Bool) → get n (carry_field e b m target) ≡ none
        absent none b = h
        absent (some w) true = h
        absent (some w) false =
            get-put n m w target ∙ (ap (λ b. if b then some w else get n target) f ∙ h)
    away f e b (some v) h = present e b
      where
        present : (e : Option Json) (b : Bool) → get n (carry_field e b m target) ≡ some v
        present none b = h
        present (some w) true = h
        present (some w) false =
            get-put n m w target ∙ (ap (λ b. if b then some w else get n target) f ∙ h)

pub get-carry_fields :
    (n : Text) (names : List Text) (existing target : Object)
    → get n (carry_fields names existing target)
      ≡ pick (get n target) (list_contains n names) (get n existing)
unfolding carry_fields list_contains
get-carry_fields n [] existing target = none_left (get n target)
  where
    none_left : (t : Option Json) → t ≡ pick t false (get n existing)
    none_left none = refl
    none_left (some v) = refl
get-carry_fields n (m ∷ names) existing target =
    get-carry_fields n names existing
      (carry_field (get m existing) (contains_key m target) m target)
    ∙ (ap (λ t. pick t (any (λ k. text_eq k n) names) (get n existing))
          (get-carry_field n m existing target)
        ∙ pick_twice (get n target) (get n existing) (text_eq m n) (any (λ k. text_eq k n) names))
