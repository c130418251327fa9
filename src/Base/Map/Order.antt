-- ===== src/Base/Map/Order.antt =====
-- The keys of a map stand in strictly increasing order, and every operation keeps them so.
use Prim.Native.Nat.{Ordering}
use mathlib.Core.Path.{◌≡◌, refl, ap}
use mathlib.Core.Logic.{◌≢◌, inl, inr}
use mathlib.Core.Option.{none, some}
use mcpgw.Base.Tests.{Bool-cases}
use mcpgw.Base.Lists.{In}
use mathlib.Core.List.{[], ◌∷◌}
use native.Mathlib.Omega.{arith}
use mcpgw.Base.Bytes.{
  Text, text_eq, text_eq_iff, text_eq_refl, text_cmp, text_cmp_irrefl, text_cmp_eq, text_cmp_flip,
  text_cmp_trans,
}
use mcpgw.Base.Map.Defs.{Map, get, insert, place, remove, collect_onto, collect}

module _ {ℓ} {V : Type ℓ} where
  abbrev pub Below : Text → Map V → Type 0
  Below k [] = Unit
  Below k ((j, v) ∷ m) = (text_cmp k j ≡ Ordering.lt) × Below k m

  abbrev pub IsSorted : Map V → Type 0
  IsSorted [] = Unit
  IsSorted ((k, v) ∷ m) = Below k m × IsSorted m

  Below-trans : (k j : Text) (m : Map V) → text_cmp k j ≡ Ordering.lt → Below j m → Below k m
  Below-trans k j [] h b = tt
  Below-trans k j ((i, v) ∷ m) h b = (text_cmp_trans k j i h b.0, Below-trans k j m h b.1)

  place-Below :
      (o : Ordering) (i k j : Text) (v w : V) (m rest : Map V)
      → text_cmp i k ≡ Ordering.lt
      → Below i ((j, w) ∷ m)
      → Below i rest
      → Below i (place o (k, v) (j, w) m rest)
  place-Below Ordering.lt i k j v w m rest h b r = (h, b)
  place-Below Ordering.eq i k j v w m rest h b r = (h, b.1)
  place-Below Ordering.gt i k j v w m rest h b r = (b.0, r)

  insert-Below :
      (i k : Text) (v : V) (m : Map V)
      → text_cmp i k ≡ Ordering.lt
      → Below i m
      → Below i (insert k v m)
  unfolding insert
  insert-Below i k v [] h b = (h, tt)
  insert-Below i k v ((j, w) ∷ m) h b =
      place-Below (text_cmp k j) i k j v w m (insert k v m) h b (insert-Below i k v m h b.1)

  place-IsSorted :
      (o : Ordering) (k j : Text) (v w : V) (m rest : Map V)
      → text_cmp k j ≡ o
      → IsSorted ((j, w) ∷ m)
      → (text_cmp j k ≡ Ordering.lt → Below j rest)
      → IsSorted rest
      → IsSorted (place o (k, v) (j, w) m rest)
  place-IsSorted Ordering.lt k j v w m rest h s b r = ((h, Below-trans k j m h s.0), s)
  place-IsSorted Ordering.eq k j v w m rest h s b r = (rw (text_cmp_eq k j h) s.0, s.1)
  place-IsSorted Ordering.gt k j v w m rest h s b r = (b (text_cmp_flip k j h), r)

  pub insert-IsSorted : (k : Text) (v : V) (m : Map V) → IsSorted m → IsSorted (insert k v m)
  unfolding insert
  insert-IsSorted k v [] s = (tt, tt)
  insert-IsSorted k v ((j, w) ∷ m) s =
      place-IsSorted (text_cmp k j) k j v w m (insert k v m) refl s
        (λ h. insert-Below j k v m h s.0) (insert-IsSorted k v m s.1)

  remove-Below : (i k : Text) (m : Map V) → Below i m → Below i (remove k m)
  unfolding remove
  remove-Below i k [] b = tt
  remove-Below i k ((j, w) ∷ m) b = ground (arith, remove-Below i k m b.1)

  pub remove-IsSorted : (k : Text) (m : Map V) → IsSorted m → IsSorted (remove k m)
  unfolding remove
  remove-IsSorted k [] s = tt
  remove-IsSorted k ((j, w) ∷ m) (b, s) =
      ground (arith, remove-IsSorted k m s, remove-Below j k m b)

  pub collect_onto-IsSorted : (m l : Map V) → IsSorted m → IsSorted (collect_onto m l)
  unfolding collect_onto
  collect_onto-IsSorted m [] s = s
  collect_onto-IsSorted m ((k, v) ∷ l) s =
      collect_onto-IsSorted (insert k v m) l (insert-IsSorted k v m s)

  pub collect-IsSorted : (l : Map V) → IsSorted (collect l)
  unfolding collect
  collect-IsSorted l = collect_onto-IsSorted [] l tt

  -- A key below all the keys of a map is not one of them.
  pub Below-get : (k : Text) (m : Map V) → Below k m → get k m ≡ none
  unfolding get
  Below-get k [] b = refl
  Below-get k ((j, v) ∷ m) b = ground (arith, text_eq_iff j k, differ, Below-get k m b.1)
    where
      differ : j ≢ k
      differ e = text_cmp_irrefl k (rw e at b.0)

  Below-not_In : (k : Text) (v : V) (m : Map V) → Below k m → ¬ In (k, v) m
  Below-not_In k v [] b = λ i. elim i [ ]
  Below-not_In k v ((j, w) ∷ m) b = λ i. elim i [
    | inl e ↦ text_cmp_irrefl k (rw (← ap (λ p. p.0) e) at b.0)
    | inr i ↦ Below-not_In k v m b.1 i
  ]

  -- Every pair of a map is found under its key.
  pub In-get : (k : Text) (v : V) (m : Map V) → IsSorted m → In (k, v) m → get k m ≡ some v
  unfolding get
  In-get k v [] s i = elim i [ ]
  In-get k v ((j, w) ∷ m) s (inl e) = let (p, q) = pair k j v w e in rw (← p, ← q, text_eq_refl k)
    where
      pair : (x y : Text) (a c : V) → ◌≡◌ {A = Text × V} (x, a) (y, c) → (x ≡ y) × (a ≡ c)
      pair x y a c e = (ap (λ p. p.0) e, ap (λ p. p.1) e)
  In-get k v ((j, w) ∷ m) s (inr i) = elim (Bool-cases (text_eq j k)) [
    | inl t ↦ absurd (Below-not_In k v m (rw ((text_eq_iff j k).0 t) at s.0) i)
    | inr t ↦ rw t (In-get k v m s.1 i)
  ]
