-- ===== src/Base/Map/Laws.antt =====
-- What a lookup sees after an operation. No law needs the order of the keys.
use Prim.Native.Nat.{Ordering}
use mathlib.Core.Path.{◌≡◌, refl, sym}
use mathlib.Core.Option.{Option, none, some}
use mathlib.Core.Bool.{true, false}
use mathlib.Core.List.{[], ◌∷◌}
use native.Mathlib.Omega.{arith}
use mathlib.Core.Logic.{inl, inr}
use mcpgw.Base.Tests.{if◌then◌else◌, Bool-cases}
use mcpgw.Base.Lists.{In}
use mcpgw.Base.Bytes.{Text, text_eq, text_cmp, text_eq_iff, text_cmp_eq, text_cmp_refl}
use mcpgw.Base.Map.Defs.{Map, get, contains_key, insert, place, remove}

module _ {ℓ} {V : Type ℓ} where
  get-place :
      (o : Ordering) (i k j : Text) (v w : V) (m rest : Map V)
      → text_cmp k j ≡ o
      → get i rest ≡ (if text_eq k i then some v else get i m)
      → get i (place o (k, v) (j, w) m rest) ≡ (if text_eq k i then some v else get i ((j, w) ∷ m))
  unfolding get
  get-place Ordering.lt i k j v w m rest h e = refl
  get-place Ordering.eq i k j v w m rest h e = ground (arith, text_cmp_eq k j h)
  get-place Ordering.gt i k j v w m rest h e =
      ground (arith, text_eq_iff k i, text_eq_iff j i, cmp_of_eq k j, h)
    where
      cmp_of_eq : (x y : Text) → x ≡ y → text_cmp x y ≡ Ordering.eq
      cmp_of_eq x y p = rw p (text_cmp_refl y)

  pub get-insert :
      (i k : Text) (v : V) (m : Map V)
      → get i (insert k v m) ≡ (if text_eq k i then some v else get i m)
  unfolding get insert
  get-insert i k v [] = refl
  get-insert i k v ((j, w) ∷ m) =
      get-place (text_cmp k j) i k j v w m (insert k v m) refl (get-insert i k v m)

  pub get-remove :
      (i k : Text) (m : Map V) → get i (remove k m) ≡ (if text_eq k i then none else get i m)
  unfolding get remove
  get-remove i k [] = ground arith
  get-remove i k ((j, w) ∷ m) =
      ground (arith, text_eq_iff k i, text_eq_iff j i, text_eq_iff j k, get-remove i k m)

  pub contains_key-get : (k : Text) (v : V) (m : Map V) → get k m ≡ some v → contains_key k m ≡ true
  unfolding contains_key
  contains_key-get k v m h = ground arith

  pub contains_key-none : (k : Text) (m : Map V) → contains_key k m ≡ false → get k m ≡ none
  unfolding contains_key
  contains_key-none k m h = ground arith

  pub none-contains_key : (k : Text) (m : Map V) → get k m ≡ none → contains_key k m ≡ false
  unfolding contains_key
  none-contains_key k m h = ground arith

  -- What a lookup finds stands in the map.
  pub get-In : (k : Text) (v : V) (m : Map V) → get k m ≡ some v → In (k, v) m
  unfolding get
  get-In k v [] h = cc
  get-In k v ((j, w) ∷ m) h = elim (Bool-cases (text_eq j k)) [
    | inl t ↦ inl (pair (sym ((text_eq_iff j k).0 t)) (taken (rw t at h)))
    | inr t ↦ inr (get-In k v m (rw t at h))
  ]
    where
      taken : ◌≡◌ {A = Option V} (some w) (some v) → v ≡ w
      taken q = cc

      pair : k ≡ j → v ≡ w → ◌≡◌ {A = Text × V} (k, v) (j, w)
      pair p q = cc
