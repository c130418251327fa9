-- ===== src/Pins/Noticed.antt =====
-- When a drift was first noticed, in the events that PinStore::observe reports.
use mathlib.Core.Path.{subst}
use mcpgw.Base.{
  ℕ, ◌≡◌, refl, sym, ap, ◌∙◌, ◌⊎◌, inl, inr, ◌≢◌, Bool, true, false, Option, none, some, List, [],
  ◌∷◌, map, In, All, All, find, ltb, Bool-cases, Result, ok, err,
}
use mcpgw.Base.Bytes.{Text}
use mcpgw.Pins.{
  DriftEvent, ToolFingerprint, shape, same_shape, compare, carry_over, restamp, write, unchanged,
  Error, PinFile, PinStore, read, observed, observe, report, version,
}
use mcpgw.Pins.Sorting.{stamp}
use mcpgw.Pins.Compare.{compare-stamp}
use mcpgw.Pins.Carried.{same_shape_iff}

find-some :
    (p : DriftEvent → Bool) (l : List DriftEvent) (f : DriftEvent)
    → find p l ≡ some f
    → In f l × (p f ≡ true)
find-some p [] f h = cc
find-some p (e ∷ l) f h = elim (Bool-cases (p e)) [
  | inl t ↦ found t (rw t at h)
  | inr n ↦ (inr (find-some p l f (rw n at h)).0, (find-some p l f (rw n at h)).1)
]
  where
    found : p e ≡ true → ◌≡◌ {A = Option DriftEvent} (some e) (some f) → In f (e ∷ l) × (p f ≡ true)
    found t q = let same : e ≡ f = cc in (inl (sym same), ap p (sym same) ∙ t)

find-none :
    (p : DriftEvent → Bool) (l : List DriftEvent) → find p l ≡ none → All (λ f. p f ≡ false) l
find-none p [] h = tt
find-none p (e ∷ l) h = elim (Bool-cases (p e)) [
  | inl t ↦ elim (taken (rw t at h)) [ ]
  | inr n ↦ (n, find-none p l (rw n at h))
]
  where
    taken : ¬ (◌≡◌ {A = Option DriftEvent} (some e) none)
    taken q = cc

differ :
    (e : DriftEvent) (l : List DriftEvent)
    → All (λ f. same_shape f e ≡ false) l
    → All (λ f. shape f ≢ shape e) l
differ e [] h = tt
differ e (f ∷ l) (n, h) = (other, differ e l h)
  where
    other : shape f ≢ shape e
    other s = let t = (same_shape_iff f e).1 s in cc

-- An event is as old as the event of its shape that is on file, and dated now if there is none.
abbrev pub Dated : List DriftEvent → ℕ → DriftEvent → Type 0
Dated old now e =
    ((f : DriftEvent) × In f old × (shape f ≡ shape e) × (f.at ≡ e.at))
    ⊎ (All (λ f. shape f ≢ shape e) old × (e.at ≡ now))

restamp-Dated :
    (old : List DriftEvent) (now : ℕ) (e : DriftEvent) (o : Option DriftEvent)
    → find (λ f. same_shape f e) old ≡ o
    → e.at ≡ now
    → Dated old now (restamp e o)
restamp-Dated old now e none h d = inr (differ e old (find-none (λ g. same_shape g e) old h), d)
restamp-Dated old now e (some f) h d =
    let (i, s) = find-some (λ g. same_shape g e) old f h in
    inl (f, i, (same_shape_iff f e).0 s, refl)

carry_over-Dated :
    (old : List DriftEvent) (now : ℕ) (events : List DriftEvent) (e : DriftEvent)
    → In e (carry_over old (map (stamp now) events))
    → Dated old now e
unfolding carry_over
carry_over-Dated old now [] e i = elim i [ ]
carry_over-Dated old now (g ∷ events) e (inl q) =
    subst (λ x. Dated old now x) (sym q) (restamp-Dated old now (stamp now g) _ refl refl)
carry_over-Dated old now (g ∷ events) e (inr i) = carry_over-Dated old now events e i

abbrev pub reported : Result Error (List DriftEvent) → List DriftEvent
reported (ok events) = events
reported (err e) = []

reported-write :
    (events : List DriftEvent) (o : Result Error (Unit {0}) × PinStore) (e : DriftEvent)
    → In e (reported (report events o).0)
    → In e events
reported-write events (ok u, store) e i = i
reported-write events (err x, store) e i = elim i [ ]

observed-Dated :
    (fault : Option Error) (server : Text) (tools : List ToolFingerprint) (now : ℕ)
    (store : PinStore) (existing : PinFile) (e : DriftEvent)
    → In e (reported (observed fault server tools now store (ok (some existing))).0)
    → Dated existing.drift now e
unfolding observed
observed-Dated fault server tools now store existing e i =
    elim (Bool-cases (ltb version existing.version)) [
      | inl n ↦ elim (rw n at i) [ ]
      | inr n ↦ elim (Bool-cases (unchanged (compare existing.tools tools now) existing.drift)) [
        | inl h ↦ elim (rw h at (rw n at i)) [ ]
        | inr h ↦ wrote (
            reported-write carried (write fault (record existing { drift = carried }) store) e
              (rw h at (rw n at i)))
      ]
    ]
  where
    carried : List DriftEvent
    carried = carry_over existing.drift (compare existing.tools tools now)

    wrote : In e carried → Dated existing.drift now e
    wrote j = carry_over-Dated existing.drift now (compare existing.tools tools now) e (
        subst (λ l. In e (carry_over existing.drift l)) (compare-stamp existing.tools tools now now)
          j)

-- Every event that observing a file reports is as old as the event of its shape that is on file,
-- and dated by this observation when there is none: noticing it again does not restamp it.
pub observe-Dated :
    (fault : Option Error) (server : Text) (tools : List ToolFingerprint) (now : ℕ)
    (store : PinStore) (existing : PinFile) (e : DriftEvent)
    → read server store ≡ ok (some existing)
    → In e (reported (observe fault server tools now store).0)
    → Dated existing.drift now e
unfolding observe
observe-Dated fault server tools now store existing e r i =
    observed-Dated fault server tools now store existing e
      (subst (λ d. In e (reported (observed fault server tools now store d).0)) r i)
