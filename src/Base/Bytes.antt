-- ===== src/Base/Bytes.antt =====
-- Rust's `str` as its UTF-8 bytes: equality, the bytewise order of `Ord for str`, prefixes.
use Prim.Native.Char.{code}
use Prim.Native.String.{String}
use Prim.Native.Nat.{ℕ, compare, Ordering}
use mathlib.Core.Path.{◌≡◌, refl, sym, ap, ◌∙◌}
use mathlib.Core.Logic.{◌≢◌, ◌↔◌, inl, inr}
use mathlib.Core.Bool.{Bool, true, false, ◌&&◌, ◌||◌}
use mathlib.Core.List.{List, [], ◌∷◌, ◌++◌}
use native.Mathlib.Omega.{arith}
use mcpgw.Base.Tests.{◌==◌, Bool-cases}

abbrev pub Text : Type 0
Text = List ℕ

-- The bytes of an ASCII literal.
abbrev pub codes : String → Text
codes String.[] = []
codes (String.◌∷◌ c s) = code c ∷ codes s

unfoldable pub text_eq : Text → Text → Bool
text_eq [] [] = true
text_eq (a ∷ s) (b ∷ t) = a == b && text_eq s t
text_eq _ _ = false

pub text_eq_iff : (s t : Text) → (text_eq s t ≡ true) ↔ (s ≡ t)
unfolding text_eq
text_eq_iff [] [] = (λ h. refl, λ h. refl)
text_eq_iff (a ∷ s) (b ∷ t) = ground (arith, text_eq_iff s t)
text_eq_iff [] (b ∷ t) = (λ h. cc, λ h. cc)
text_eq_iff (a ∷ s) [] = (λ h. cc, λ h. cc)

pub text_eq_refl : (s : Text) → text_eq s s ≡ true
text_eq_refl s = (text_eq_iff s s).1 refl

-- str::cmp
unfoldable pub text_cmp : Text → Text → Ordering
text_cmp [] [] = Ordering.eq
text_cmp [] (b ∷ t) = Ordering.lt
text_cmp (a ∷ s) [] = Ordering.gt
text_cmp (a ∷ s) (b ∷ t) =
    let rest = text_cmp s t in
    elim (compare a b) [
      | Ordering.lt ↦ Ordering.lt
      | Ordering.eq ↦ rest
      | Ordering.gt ↦ Ordering.gt
    ]

pub text_cmp_eq : (s t : Text) → text_cmp s t ≡ Ordering.eq → s ≡ t
unfolding text_cmp
text_cmp_eq [] [] h = refl
text_cmp_eq [] (b ∷ t) h = cc
text_cmp_eq (a ∷ s) [] h = cc
text_cmp_eq (a ∷ s) (b ∷ t) h = ground (arith, text_cmp_eq s t)

pub text_cmp_refl : (s : Text) → text_cmp s s ≡ Ordering.eq
unfolding text_cmp
text_cmp_refl [] = refl
text_cmp_refl (a ∷ s) = ground (arith, text_cmp_refl s)

pub text_cmp_irrefl : (s : Text) → text_cmp s s ≢ Ordering.lt
text_cmp_irrefl s h = clash (sym h ∙ text_cmp_refl s)
  where
    clash : Ordering.lt ≡ Ordering.eq → ⊥
    clash x = cc

pub text_cmp_flip : (s t : Text) → text_cmp s t ≡ Ordering.gt → text_cmp t s ≡ Ordering.lt
unfolding text_cmp
text_cmp_flip [] [] h = cc
text_cmp_flip [] (b ∷ t) h = cc
text_cmp_flip (a ∷ s) [] h = refl
text_cmp_flip (a ∷ s) (b ∷ t) h = ground (arith, text_cmp_flip s t)

pub text_cmp_trans :
    (s t u : Text)
    → text_cmp s t ≡ Ordering.lt
    → text_cmp t u ≡ Ordering.lt
    → text_cmp s u ≡ Ordering.lt
unfolding text_cmp
text_cmp_trans [] [] u h k = cc
text_cmp_trans [] (b ∷ t) [] h k = cc
text_cmp_trans [] (b ∷ t) (c ∷ u) h k = refl
text_cmp_trans (a ∷ s) [] u h k = cc
text_cmp_trans (a ∷ s) (b ∷ t) [] h k = cc
text_cmp_trans (a ∷ s) (b ∷ t) (c ∷ u) h k = ground (arith, text_cmp_trans s t u)

-- str::starts_with
unfoldable pub starts_with : Text → Text → Bool
starts_with [] t = true
starts_with (a ∷ p) [] = false
starts_with (a ∷ p) (b ∷ t) = a == b && starts_with p t

pub starts_with_append : (p t : Text) → starts_with p (p ++ t) ≡ true
unfolding starts_with
starts_with_append [] t = refl
starts_with_append (a ∷ p) t = ground (arith, starts_with_append p t)

pub starts_with_split : (p t : Text) → starts_with p t ≡ true → (rest : Text) × (t ≡ p ++ rest)
unfolding starts_with
starts_with_split [] t h = (t, refl)
starts_with_split (a ∷ p) [] h = cc
starts_with_split (a ∷ p) (b ∷ t) h = split (heads a b h) (starts_with_split p t (tails a b h))
  where
    heads : (x y : ℕ) → (x == y && starts_with p t) ≡ true → x ≡ y
    heads x y e = ground arith

    tails : (x y : ℕ) → (x == y && starts_with p t) ≡ true → starts_with p t ≡ true
    tails x y e = ground arith

    split : a ≡ b → (rest : Text) × (t ≡ p ++ rest) → (rest : Text) × ((b ∷ t) ≡ (a ∷ p) ++ rest)
    split e (rest, r) = (rest, cc)

-- str::contains
unfoldable pub contains : Text → Text → Bool
unfolding starts_with
contains p [] = starts_with p []
contains p (c ∷ t) = starts_with p (c ∷ t) || contains p t

-- Where `p` stands in `t`.
abbrev pub Contains : Text → Text → Type 0
Contains p t = (before : Text) × (after : Text) × (t ≡ before ++ (p ++ after))

pub contains_complete : (p before after : Text) → contains p (before ++ (p ++ after)) ≡ true
unfolding contains
contains_complete p [] after = start (p ++ after) (starts_with_append p after)
  where
    start : (t : Text) → starts_with p t ≡ true → contains p t ≡ true
    start [] h = h
    start (c ∷ t) h = rw h
contains_complete p (c ∷ before) after = ground (arith, contains_complete p before after)

pub contains_sound : (p t : Text) → contains p t ≡ true → Contains p t
unfolding contains
contains_sound p [] h = let (rest, e) = starts_with_split p [] h in ([], rest, e)
contains_sound p (c ∷ t) h = elim (Bool-cases (starts_with p (c ∷ t))) [
  | inl s ↦ let (rest, e) = starts_with_split p (c ∷ t) s in ([], rest, e)
  | inr s ↦ shift (contains_sound p t (rw s at h))
]
  where
    shift : Contains p t → Contains p (c ∷ t)
    shift (before, after, e) = (c ∷ before, after, ap (λ x. c ∷ x) e)
