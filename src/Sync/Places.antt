-- ===== src/Sync/Places.antt =====
-- The lists of names that a pass selects.
use mcpgw.Base.{
  ◌≡◌, refl, sym, ap, ◌∙◌, ◌↔◌, inl, inr, Bool, true, false, ◌||◌, Option, none, some, List, [],
  ◌∷◌, In, retain, if◌then◌else◌, arith, Bool-cases,
}
use mcpgw.Base.Bytes.{Text, text_eq, text_eq_iff}
use mcpgw.Base.Map.{Map, get, contains_key, keys, IsSorted, get-In, In-get}
use mcpgw.Sync.Plan.{list_contains}

-- The names of the pairs that pass a test.
abbrev pub selected : {V : Type 0} → (Text → V → Bool) → Map V → List Text
selected p [] = []
selected p ((k, v) ∷ m) = let rest = selected p m in if p k v then k ∷ rest else rest

abbrev pub passes : {V : Type 0} → (Text → V → Bool) → Text → Option V → Bool
passes p n none = false
passes p n (some v) = p n v

module _ {V : Type 0} (p : Text → V → Bool) (n : Text) where
  selected_sound : (m : Map V) → In n (selected p m) → (v : V) × In (n, v) m × (p n v ≡ true)
  selected_sound [] i = elim i [ ]
  selected_sound ((k, v) ∷ m) i = elim (Bool-cases (p k v)) [
    | inl t ↦ elim (rw t at i) [
      | inl q ↦ (v, inl (ap (λ x. (x, v)) q), ap (λ x. p x v) q ∙ t)
      | inr j ↦ later (selected_sound m j)
    ]
    | inr f ↦ later (selected_sound m (rw f at i))
  ]
    where
      later :
          (w : V) × In (n, w) m × (p n w ≡ true) → (w : V) × In (n, w) ((k, v) ∷ m) × (p n w ≡ true)
      later (w, j, h) = (w, inr j, h)

  selected_complete : (m : Map V) (v : V) → In (n, v) m → p n v ≡ true → In n (selected p m)
  selected_complete [] v i h = elim i [ ]
  selected_complete ((k, w) ∷ m) v (inl q) h =
      rw (ap (λ x. p x.0 x.1) (sym q) ∙ h) (inl (ap (λ x. x.0) q))
  selected_complete ((k, w) ∷ m) v (inr i) h = elim (Bool-cases (p k w)) [
    | inl t ↦ rw t (inr (selected_complete m v i h))
    | inr f ↦ rw f (selected_complete m v i h)
  ]

  passed : (m : Map V) (o : Option V) → get n m ≡ o → passes p n o ≡ true → In n (selected p m)
  passed m none e h = cc
  passed m (some v) e h = selected_complete m v (get-In n v m e) h

  pub selected_iff : (m : Map V) → IsSorted m → In n (selected p m) ↔ (passes p n (get n m) ≡ true)
  selected_iff m s = (λ i. found (selected_sound m i), λ h. passed m (get n m) refl h)
    where
      found : (v : V) × In (n, v) m × (p n v ≡ true) → passes p n (get n m) ≡ true
      found (v, j, h) = ap (passes p n) (In-get n v m s j) ∙ h

pub retain_iff :
    (q : Text → Bool) (n : Text) (l : List Text) → In n (retain q l) ↔ (In n l × (q n ≡ true))
retain_iff q n [] = (λ i. elim i [ ], λ x. elim x.0 [ ])
retain_iff q n (k ∷ l) = elim (Bool-cases (q k)) [
  | inl t ↦ rw t (
    λ i. elim i [
      | inl e ↦ (inl e, ap q e ∙ t)
      | inr j ↦ (inr ((retain_iff q n l).0 j).0, ((retain_iff q n l).0 j).1)
    ],
    λ x. elim x.0 [ inl e ↦ inl e | inr j ↦ inr ((retain_iff q n l).1 (j, x.1)) ],
  )
  | inr f ↦ rw f (
    λ i. (inr ((retain_iff q n l).0 i).0, ((retain_iff q n l).0 i).1),
    λ x. elim x.0 [ inl e ↦ elim (differ e x.1 f) [ ] | inr j ↦ (retain_iff q n l).1 (j, x.1) ],
  )
]
  where
    differ : n ≡ k → q n ≡ true → ¬ (q k ≡ false)
    differ e t f = let same = ap q e in cc

contains_key-cons :
    {V : Type 0} (n k : Text) (v : V) (m : Map V)
    → contains_key n ((k, v) ∷ m) ≡ (text_eq k n || contains_key n m)
unfolding contains_key get
contains_key-cons n k v m = ground arith

-- The keys of a map are the names that a lookup finds.
pub keys_iff : {V : Type 0} (n : Text) (m : Map V) → In n (keys m) ↔ (contains_key n m ≡ true)
unfolding keys contains_key get
keys_iff n [] = (λ i. elim i [ ], λ h. cc)
keys_iff n ((k, v) ∷ m) = rw (contains_key-cons n k v m) (elim (Bool-cases (text_eq k n)) [
  | inl t ↦ rw t (λ i. refl, λ h. inl (sym ((text_eq_iff k n).0 t)))
  | inr f ↦ rw f (
    λ i. elim i [ inl e ↦ elim (differ e f) [ ] | inr j ↦ (keys_iff n m).0 j ],
    λ h. inr ((keys_iff n m).1 h),
  )
])
  where
    differ : n ≡ k → ¬ (text_eq k n ≡ false)
    differ e f = let same = (text_eq_iff k n).1 (sym e) in cc

pub list_contains_iff : (n : Text) (l : List Text) → (list_contains n l ≡ true) ↔ In n l
unfolding list_contains
list_contains_iff n [] = (λ h. cc, λ i. elim i [ ])
list_contains_iff n (k ∷ l) = elim (Bool-cases (text_eq k n)) [
  | inl t ↦ rw t (λ h. inl (sym ((text_eq_iff k n).0 t)), λ i. refl)
  | inr f ↦ rw f (
    λ h. inr ((list_contains_iff n l).0 h),
    λ i. elim i [ inl e ↦ elim (differ e f) [ ] | inr j ↦ (list_contains_iff n l).1 j ],
  )
]
  where
    differ : n ≡ k → ¬ (text_eq k n ≡ false)
    differ e f = let same = (text_eq_iff k n).1 (sym e) in cc
