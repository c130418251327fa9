-- ===== src/Pins/Loops.antt =====
-- Each loop of `compare` reports what its turns report, and no more.
use mcpgw.Base.{
  ℕ, ◌≡◌, refl, sym, ap, ◌∙◌, ◌⊎◌, inl, inr, Bool, true, false, Option, none, some, List, [], ◌∷◌,
  In, arith,
}
use mcpgw.Base.Bytes.{Text}
use mcpgw.Base.Map.{Map, get, contains_key}
use mcpgw.Pins.{
  ToolPin, ToolFingerprint, DriftEvent, listed_event, pinned_event, push, listed_events,
  pinned_events,
}

In-push :
    (e : DriftEvent) (o : Option DriftEvent) (l : List DriftEvent)
    → In e (push o l)
    → (o ≡ some e) ⊎ In e l
In-push e none l i = inr i
In-push e (some f) l (inl q) = inl (ap some (sym q))
In-push e (some f) l (inr i) = inr i

push-some :
    (e : DriftEvent) (o : Option DriftEvent) (l : List DriftEvent) → o ≡ some e → In e (push o l)
push-some e none l h = cc
push-some e (some f) l h = inl (cc)

push-In : (e : DriftEvent) (o : Option DriftEvent) (l : List DriftEvent) → In e l → In e (push o l)
push-In e none l i = i
push-In e (some f) l i = inr i

module _ (pinned : Map ToolPin) (seen : Map ToolFingerprint) (at : ℕ) (e : DriftEvent) where
  listed_tool :
      (name : Text) (tool : ToolFingerprint) (o : Option ToolPin)
      → listed_event name tool at o ≡ some e
      → e.tool ≡ name
  unfolding listed_event
  listed_tool name tool none h = ground arith
  listed_tool name tool (some pin) h = ground arith

  pinned_tool :
      (name : Text) (pin : ToolPin) (b : Bool)
      → pinned_event name pin at b ≡ some e
      → (b ≡ false) × (e.tool ≡ name)
  unfolding pinned_event
  pinned_tool name pin true h = cc
  pinned_tool name pin false h = (refl, ground arith)

  pub listed_sound :
      (l : Map ToolFingerprint)
      → In e (listed_events pinned at l)
      → (tool : ToolFingerprint) × In (e.tool, tool) l
        × (listed_event e.tool tool at (get e.tool pinned) ≡ some e)
  unfolding listed_events
  listed_sound [] i = elim i [ ]
  listed_sound ((name, tool) ∷ l) i =
      elim (In-push e (listed_event name tool at (get name pinned)) (listed_events pinned at l) i) [
        | inl h ↦
            let same = listed_tool name tool (get name pinned) h in
            (
              tool,
              inl (ap (λ n. (n, tool)) same),
              ap (λ n. listed_event n tool at (get n pinned)) same ∙ h,
            )
        | inr j ↦ later (listed_sound l j)
      ]
    where
      later :
          (t : ToolFingerprint) × In (e.tool, t) l
            × (listed_event e.tool t at (get e.tool pinned) ≡ some e)
          → (t : ToolFingerprint) × In (e.tool, t) ((name, tool) ∷ l)
            × (listed_event e.tool t at (get e.tool pinned) ≡ some e)
      later (t, j, h) = (t, inr j, h)

  pub listed_complete :
      (l : Map ToolFingerprint) (name : Text) (tool : ToolFingerprint)
      → In (name, tool) l
      → listed_event name tool at (get name pinned) ≡ some e
      → In e (listed_events pinned at l)
  unfolding listed_events
  listed_complete [] name tool i h = elim i [ ]
  listed_complete ((n, t) ∷ l) name tool (inl q) h =
      push-some e (listed_event n t at (get n pinned)) (listed_events pinned at l)
        (moved (ap (λ p. p.0) q) (ap (λ p. p.1) q))
    where
      moved : name ≡ n → tool ≡ t → listed_event n t at (get n pinned) ≡ some e
      moved x y = rw (← x, ← y, h)
  listed_complete ((n, t) ∷ l) name tool (inr i) h =
      push-In e (listed_event n t at (get n pinned)) (listed_events pinned at l)
        (listed_complete l name tool i h)

  pub pinned_sound :
      (l : Map ToolPin)
      → In e (pinned_events seen at l)
      → (pin : ToolPin) × In (e.tool, pin) l
        × (contains_key e.tool seen ≡ false)
        × (pinned_event e.tool pin at false ≡ some e)
  unfolding pinned_events
  pinned_sound [] i = elim i [ ]
  pinned_sound ((name, pin) ∷ l) i =
      elim (In-push e (pinned_event name pin at (contains_key name seen)) (pinned_events seen at l)
        i) [
          | inl h ↦
              let (gone, same) = pinned_tool name pin (contains_key name seen) h in
              (
                pin,
                inl (ap (λ n. (n, pin)) same),
                ap (λ n. contains_key n seen) same ∙ gone,
                ap (λ n. pinned_event n pin at false) same
                    ∙ (ap (λ b. pinned_event name pin at b) (sym gone) ∙ h),
              )
          | inr j ↦ later (pinned_sound l j)
        ]
    where
      later :
          (p : ToolPin) × In (e.tool, p) l
            × (contains_key e.tool seen ≡ false)
            × (pinned_event e.tool p at false ≡ some e)
          → (p : ToolPin) × In (e.tool, p) ((name, pin) ∷ l)
            × (contains_key e.tool seen ≡ false)
            × (pinned_event e.tool p at false ≡ some e)
      later (p, j, g, h) = (p, inr j, g, h)

  pub pinned_complete :
      (l : Map ToolPin) (name : Text) (pin : ToolPin)
      → In (name, pin) l
      → contains_key name seen ≡ false
      → pinned_event name pin at false ≡ some e
      → In e (pinned_events seen at l)
  unfolding pinned_events
  pinned_complete [] name pin i g h = elim i [ ]
  pinned_complete ((n, p) ∷ l) name pin (inl q) g h =
      push-some e (pinned_event n p at (contains_key n seen)) (pinned_events seen at l)
        (moved (ap (λ p. p.0) q) (ap (λ p. p.1) q))
    where
      moved : name ≡ n → pin ≡ p → pinned_event n p at (contains_key n seen) ≡ some e
      moved x y = rw (← x, ← y, g, h)
  pinned_complete ((n, p) ∷ l) name pin (inr i) g h =
      push-In e (pinned_event n p at (contains_key n seen)) (pinned_events seen at l)
        (pinned_complete l name pin i g h)
