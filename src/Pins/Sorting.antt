-- ===== src/Pins/Sorting.antt =====
-- Sorting keeps the events, and does not look at their times.
use mcpgw.Base.{ℕ, ◌≡◌, refl, ap, ◌∙◌, inl, inr, List, [], ◌∷◌, map, In, Ordering}
use mcpgw.Base.Bytes.{text_cmp}
use mcpgw.Pins.{DriftEvent, place, sort_in, sort_by_tool}

abbrev pub Same : {A : Type 0} → List A → List A → Type 0
Same {A} xs ys = (x : A) → (In x xs → In x ys) × (In x ys → In x xs)

module _ (x e : DriftEvent) where
  place-In :
      (o : Ordering) (f : DriftEvent) (rest later : List DriftEvent)
      → (In x later → In x (e ∷ rest))
      → In x (place o e f rest later)
      → In x (e ∷ f ∷ rest)
  place-In Ordering.lt f rest later h i = i
  place-In Ordering.eq f rest later h i = i
  place-In Ordering.gt f rest later h (inl i) = inr (inl i)
  place-In Ordering.gt f rest later h (inr i) = elim (h i) [ inl j ↦ inl j | inr j ↦ inr (inr j) ]

  In-place :
      (o : Ordering) (f : DriftEvent) (rest later : List DriftEvent)
      → (In x (e ∷ rest) → In x later)
      → In x (e ∷ f ∷ rest)
      → In x (place o e f rest later)
  In-place Ordering.lt f rest later h i = i
  In-place Ordering.eq f rest later h i = i
  In-place Ordering.gt f rest later h (inl i) = inr (h (inl i))
  In-place Ordering.gt f rest later h (inr (inl i)) = inl i
  In-place Ordering.gt f rest later h (inr (inr i)) = inr (h (inr i))

  sort_in-In : (l : List DriftEvent) → In x (sort_in e l) → In x (e ∷ l)
  unfolding sort_in
  sort_in-In [] i = i
  sort_in-In (f ∷ l) i = place-In (text_cmp e.tool f.tool) f l (sort_in e l) (sort_in-In l) i

  In-sort_in : (l : List DriftEvent) → In x (e ∷ l) → In x (sort_in e l)
  unfolding sort_in
  In-sort_in [] i = i
  In-sort_in (f ∷ l) i = In-place (text_cmp e.tool f.tool) f l (sort_in e l) (In-sort_in l) i

pub sort_by_tool-In : (x : DriftEvent) (l : List DriftEvent) → In x (sort_by_tool l) → In x l
unfolding sort_by_tool
sort_by_tool-In x [] i = i
sort_by_tool-In x (e ∷ l) i = elim (sort_in-In x e (sort_by_tool l) i) [
  | inl j ↦ inl j
  | inr j ↦ inr (sort_by_tool-In x l j)
]

pub In-sort_by_tool : (x : DriftEvent) (l : List DriftEvent) → In x l → In x (sort_by_tool l)
unfolding sort_by_tool
In-sort_by_tool x [] i = i
In-sort_by_tool x (e ∷ l) (inl i) = In-sort_in x e (sort_by_tool l) (inl i)
In-sort_by_tool x (e ∷ l) (inr i) = In-sort_in x e (sort_by_tool l) (inr (In-sort_by_tool x l i))

-- The same event, noticed at another time.
abbrev pub stamp : ℕ → DriftEvent → DriftEvent
stamp t e = record e { at = t }

module _ (t : ℕ) where
  place-stamp :
      (o : Ordering) (e f : DriftEvent) (rest later later' : List DriftEvent)
      → later' ≡ map (stamp t) later
      → place o (stamp t e) (stamp t f) (map (stamp t) rest) later'
        ≡ map (stamp t) (place o e f rest later)
  place-stamp Ordering.lt e f rest later later' h = refl
  place-stamp Ordering.eq e f rest later later' h = refl
  place-stamp Ordering.gt e f rest later later' h = ap (λ l. stamp t f ∷ l) h

  sort_in-stamp :
      (e : DriftEvent) (l : List DriftEvent)
      → sort_in (stamp t e) (map (stamp t) l) ≡ map (stamp t) (sort_in e l)
  unfolding sort_in
  sort_in-stamp e [] = refl
  sort_in-stamp e (f ∷ l) =
      place-stamp (text_cmp e.tool f.tool) e f l (sort_in e l) _ (sort_in-stamp e l)

  pub sort_by_tool-stamp :
      (l : List DriftEvent) → sort_by_tool (map (stamp t) l) ≡ map (stamp t) (sort_by_tool l)
  unfolding sort_by_tool
  sort_by_tool-stamp [] = refl
  sort_by_tool-stamp (e ∷ l) =
      ap (sort_in (stamp t e)) (sort_by_tool-stamp l) ∙ sort_in-stamp e (sort_by_tool l)
