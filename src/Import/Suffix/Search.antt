-- ===== src/Import/Suffix/Search.antt =====
-- The search for a free name ends, at the first name that is free.
use mcpgw.Base.{
  ℕ, zero, suc, ◌≡◌, ◌≤◌, ◌<◌, refl, sym, ap, ◌∙◌, ◌≢◌, Bool, true, false, ◌+◌, List, [], ◌∷◌, All,
  In, length, arith, Bool-cases, inl, inr,
}
use mcpgw.Base.Bytes.{Text}
use mcpgw.Import.Suffix.{suffixed, free_from, next_free}
use mcpgw.Import.Suffix.Decimal.{suffixed_inj, suffixed_longer}

-- The names in the order in which they are tried.
abbrev pub named : Text → ℕ → Text
named base zero = base
named base (suc k) = suffixed base (suc (suc k))

abbrev pub tries : Text → ℕ → ℕ → List Text
tries base k zero = []
tries base k (suc count) = named base k ∷ tries base (suc k) count

named_inj : (base : Text) (j k : ℕ) → named base j ≡ named base k → j ≡ k
named_inj base zero zero e = refl
named_inj base zero (suc k) e = absurd (suffixed_longer base (suc (suc k)) e)
named_inj base (suc j) zero e = absurd (suffixed_longer base (suc (suc j)) (sym e))
named_inj base (suc j) (suc k) e = let same = suffixed_inj base _ _ e in omega (arith, same)

-- A list without one of its elements.
without :
    (x : Text) (l : List Text)
    → In x l
    → (rest : List Text) × (length l ≡ suc (length rest))
      × ((y : Text) → In y l → y ≢ x → In y rest)
without x [] i = elim i [ ]
without x (z ∷ l) (inl e) =
    (l, refl, λ y i d. elim i [ inl f ↦ absurd (d (f ∙ sym e)) | inr j ↦ j ])
without x (z ∷ l) (inr i) =
    let (rest, n, keep) = without x l i in
    (z ∷ rest, ap suc n, λ y j d. elim j [ inl f ↦ inl f | inr k ↦ inr (keep y k d) ])

-- A name that is free, and the names before it in the order of the search, all taken.
abbrev pub IsFirstFree : (Text → Bool) → Text → ℕ → Text → Type 0
IsFirstFree taken base k name =
    (count : ℕ) × (name ≡ named base (k + count))
    × (taken name ≡ false)
    × All (λ tried. taken tried ≡ true) (tries base k count)

module _ (taken : Text → Bool) (base : Text) where
  -- The names tried from number `k` on that are taken stand in `l`.
  abbrev Covers : ℕ → List Text → Type 0
  Covers k l = (j : ℕ) → k ≤ j → taken (named base j) ≡ true → In (named base j) l

  free_from_first :
      (fuel k : ℕ) (l : List Text)
      → length l < fuel
      → Covers k l
      → IsFirstFree taken base k (free_from fuel taken base (suc k) (named base k))
  unfolding free_from
  free_from_first zero k l h c = absurd (none_less h)
    where
      none_less : ¬ (length l < 0)
      none_less q = omega (arith, q)
  free_from_first (suc fuel) k l h c = elim (Bool-cases (taken (named base k))) [
    | inr f ↦ rw f (0, ap (named base) (omega arith), f, tt)
    | inl t ↦ rw t (
        let (rest, n, keep) = without (named base k) l (c k (omega arith) t) in
        further t (
          free_from_first fuel (suc k) rest (fewer n) (λ j le tj.
            keep (named base j) (c j (omega (arith, le)) tj)
              (λ e. later j le (named_inj base j k e)))))
  ]
    where
      fewer : {m : ℕ} → length l ≡ suc m → m < fuel
      fewer n = omega (arith, n, h)

      later : (j : ℕ) → suc k ≤ j → ¬ (j ≡ k)
      later j le e = omega (arith, le, e)

      further :
          taken (named base k) ≡ true
          → IsFirstFree taken base
              (suc k)
              (free_from fuel taken base (suc (suc k)) (named base (suc k)))
          → IsFirstFree taken base k (free_from fuel taken base (suc (suc k)) (named base (suc k)))
      further t (count, e, f, a) = (suc count, e ∙ ap (named base) (omega arith), f, (t, a))

-- Where only the names of a list are taken, the search ends within one turn more than the list is
-- long, and its name is the first one free among `base`, `base-2`, `base-3` and so on.
pub next_free-IsFirstFree :
    (names : List Text) (base : Text) (taken : Text → Bool)
    → ((name : Text) → taken name ≡ true → In name names)
    → IsFirstFree taken base 0 (next_free (length names) base taken)
unfolding next_free
next_free-IsFirstFree names base taken c =
    free_from_first taken base (suc (length names)) 0 names (omega arith)
      (λ j le t. c (named base j) t)
