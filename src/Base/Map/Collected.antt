-- ===== src/Base/Map/Collected.antt =====
-- Pairs that stand in order are collected as they stand.
use Prim.Native.Nat.{Ordering}
use mathlib.Core.Path.{◌≡◌, refl, sym, ap, ◌∙◌, subst}
use mathlib.Core.List.{[], ◌∷◌, ◌++◌, append_assoc, append-nil}
use mathlib.Core.Logic.{inl, inr}
use mcpgw.Base.Tests.{Ordering-cases}
use mcpgw.Base.Bytes.{Text, text_cmp, text_cmp_eq, text_cmp_trans, text_cmp_irrefl}
use mcpgw.Base.Map.Defs.{Map, insert, place, collect_onto, collect}
use mcpgw.Base.Map.Order.{Below, IsSorted}

cmp_gt : (j k : Text) → text_cmp j k ≡ Ordering.lt → text_cmp k j ≡ Ordering.gt
cmp_gt j k h = elim (Ordering-cases (text_cmp k j)) [
  | inl lt ↦ absurd (text_cmp_irrefl k (text_cmp_trans k j k lt h))
  | inr (inl eq) ↦
      absurd (text_cmp_irrefl j (subst (λ x. text_cmp j x ≡ Ordering.lt) (text_cmp_eq k j eq) h))
  | inr (inr gt) ↦ gt
]

module _ {ℓ} {V : Type ℓ} where
  Below-at :
      (j k : Text) (v : V) (m l : Map V) → Below j (m ++ (k, v) ∷ l) → text_cmp j k ≡ Ordering.lt
  Below-at j k v [] l b = b.0
  Below-at j k v ((i, w) ∷ m) l b = Below-at j k v m l b.1

  insert_end :
      (k : Text) (v : V) (m l : Map V)
      → IsSorted (m ++ (k, v) ∷ l)
      → insert k v m ≡ m ++ (k, v) ∷ []
  unfolding insert
  insert_end k v [] l s = refl
  insert_end k v ((j, w) ∷ m) l s =
      ap (λ o. place o (k, v) (j, w) m (insert k v m)) (cmp_gt j k (Below-at j k v m l s.0))
      ∙ ap (λ r. (j, w) ∷ r) (insert_end k v m l s.1)

  collect_onto-sorted : (m l : Map V) → IsSorted (m ++ l) → collect_onto m l ≡ m ++ l
  unfolding collect_onto
  collect_onto-sorted m [] s = sym (append-nil m)
  collect_onto-sorted m ((k, v) ∷ l) s =
      ap (λ r. collect_onto r l) (insert_end k v m l s)
      ∙ (collect_onto-sorted (m ++ (k, v) ∷ []) l
            (subst (λ r. IsSorted r) (sym (append_assoc m ((k, v) ∷ []) l)) s)
          ∙ append_assoc m ((k, v) ∷ []) l)

  pub collect-sorted : (l : Map V) → IsSorted l → collect l ≡ l
  unfolding collect
  collect-sorted l s = collect_onto-sorted [] l s
