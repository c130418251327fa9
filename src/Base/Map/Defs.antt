-- ===== src/Base/Map/Defs.antt =====
-- The operations of `BTreeMap` that the program uses.
use Prim.Native.Nat.{Ordering}
use mathlib.Core.Bool.{Bool, true, false}
use mathlib.Core.Option.{Option, none, some}
use mathlib.Core.List.{List, [], ◌∷◌}
use mcpgw.Base.Tests.{if◌then◌else◌}
use mcpgw.Base.Bytes.{Text, text_eq, text_cmp}

abbrev pub Map {ℓ} : Type ℓ → Type ℓ
Map V = List (Text × V)

module _ {ℓ} {V : Type ℓ} where
  unfoldable pub get : Text → Map V → Option V
  unfolding text_eq
  get k [] = none
  get k ((j, v) ∷ m) = if text_eq j k then some v else get k m

  unfoldable pub contains_key : Text → Map V → Bool
  unfolding get
  contains_key k m = elim (get k m) [ none ↦ false | some v ↦ true ]

  -- Where a new pair goes relative to the first pair of the map.
  abbrev pub place : Ordering → Text × V → Text × V → Map V → Map V → Map V
  place Ordering.lt new old m rest = new ∷ old ∷ m
  place Ordering.eq new old m rest = new ∷ m
  place Ordering.gt new old m rest = old ∷ rest

  unfoldable pub insert : Text → V → Map V → Map V
  insert k v [] = (k, v) ∷ []
  insert k v ((j, w) ∷ m) = place (text_cmp k j) (k, v) (j, w) m (insert k v m)

  unfoldable pub remove : Text → Map V → Map V
  unfolding text_eq
  remove k [] = []
  remove k ((j, w) ∷ m) = let rest = remove k m in if text_eq j k then rest else (j, w) ∷ rest

  unfoldable pub keys : Map V → List Text
  keys [] = []
  keys ((k, v) ∷ m) = k ∷ keys m

  -- `collect::<BTreeMap<_, _>>()`: a later pair of a key replaces an earlier one.
  unfoldable pub collect_onto : Map V → List (Text × V) → Map V
  unfolding insert
  collect_onto m [] = m
  collect_onto m ((k, v) ∷ l) = collect_onto (insert k v m) l

  unfoldable pub collect : List (Text × V) → Map V
  unfolding collect_onto
  collect l = collect_onto [] l

abbrev pub Set : Type 0
Set = Map (Unit {0})

-- Option::cloned().unwrap_or_default()
abbrev pub get_or {ℓ} : {V : Type ℓ} → V → Option V → V
get_or d none = d
get_or d (some v) = v
