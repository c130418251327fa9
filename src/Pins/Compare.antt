-- ===== src/Pins/Compare.antt =====
-- `compare` reports, tool by tool, exactly where the current list departs from the pins.
use mathlib.Core.Path.{ap₂}
use mathlib.Core.List.{map-append}
use mcpgw.Base.{
  ℕ, ◌≡◌, refl, sym, ap, ◌∙◌, ◌↔◌, inl, inr, Bool, true, false, Option, none, some, List, [], ◌∷◌,
  ◌++◌, map, In, In-append_left, In-append_right, In-append_cases, if◌then◌else◌, Bool-cases,
}
use mcpgw.Base.Bytes.{Text, text_eq}
use mcpgw.Base.Map.{
  Map, get, contains_key, IsSorted, In-get, get-In, collect-IsSorted, contains_key-none,
  none-contains_key,
}
use mcpgw.Pins.{
  ToolPin, ToolFingerprint, DriftEvent, added, changed, removed, listed_event, pinned_event, push,
  listed_events, pinned_events, sort_by_tool, seen_of, compare, named,
}
use mcpgw.Pins.Sorting.{sort_by_tool-In, In-sort_by_tool, stamp, sort_by_tool-stamp}
use mcpgw.Pins.Loops.{listed_sound, listed_complete, pinned_sound, pinned_complete}

-- What there is to say of one tool, from its pin and its current definition.
abbrev pub expected : Text → ℕ → Option ToolPin → Option ToolFingerprint → Option DriftEvent
expected name at none none = none
expected name at none (some tool) = some (record {
  tool = name;
  change = added;
  at = at;
  desc_len_before = none;
  desc_len_after = some tool.desc_len;
})
expected name at (some pin) none = some (record {
  tool = name;
  change = removed;
  at = at;
  desc_len_before = some pin.desc_len;
  desc_len_after = none;
})
expected name at (some pin) (some tool) =
    if text_eq pin.hash tool.hash
    then none
    else some (record {
      tool = name;
      change = changed;
      at = at;
      desc_len_before = some pin.desc_len;
      desc_len_after = some tool.desc_len;
    })

listed_expected :
    (name : Text) (tool : ToolFingerprint) (at : ℕ) (o : Option ToolPin)
    → listed_event name tool at o ≡ expected name at o (some tool)
unfolding listed_event
listed_expected name tool at none = refl
listed_expected name tool at (some pin) = refl

pinned_expected :
    (name : Text) (pin : ToolPin) (at : ℕ)
    → pinned_event name pin at false ≡ expected name at (some pin) none
unfolding pinned_event
pinned_expected name pin at = refl

-- The two loops together say of a tool what there is to say of it.
module _ (pinned : Map ToolPin) (seen : Map ToolFingerprint) (at : ℕ) (e : DriftEvent) where
  loops_sound :
      IsSorted pinned
      → IsSorted seen
      → In e (listed_events pinned at seen ++ pinned_events seen at pinned)
      → expected e.tool at (get e.tool pinned) (get e.tool seen) ≡ some e
  loops_sound p s i =
      elim (In-append_cases e (listed_events pinned at seen) (pinned_events seen at pinned) i) [
        | inl j ↦ listed (listed_sound pinned seen at e seen j)
        | inr j ↦ gone (pinned_sound pinned seen at e pinned j)
      ]
    where
      listed :
          (tool : ToolFingerprint) × In (e.tool, tool) seen
            × (listed_event e.tool tool at (get e.tool pinned) ≡ some e)
          → expected e.tool at (get e.tool pinned) (get e.tool seen) ≡ some e
      listed (tool, j, h) =
          ap (λ o. expected e.tool at (get e.tool pinned) o) (In-get e.tool tool seen s j)
          ∙ (sym (listed_expected e.tool tool at (get e.tool pinned)) ∙ h)

      gone :
          (pin : ToolPin) × In (e.tool, pin) pinned
            × (contains_key e.tool seen ≡ false)
            × (pinned_event e.tool pin at false ≡ some e)
          → expected e.tool at (get e.tool pinned) (get e.tool seen) ≡ some e
      gone (pin, j, g, h) =
          ap₂ (λ o q. expected e.tool at o q) (In-get e.tool pin pinned p j)
            (contains_key-none e.tool seen g)
          ∙ (sym (pinned_expected e.tool pin at) ∙ h)

  loops_complete :
      (o : Option ToolPin) (q : Option ToolFingerprint)
      → get e.tool pinned ≡ o
      → get e.tool seen ≡ q
      → expected e.tool at o q ≡ some e
      → In e (listed_events pinned at seen ++ pinned_events seen at pinned)
  loops_complete none none a b h = cc
  loops_complete (some pin) none a b h =
      In-append_right e (listed_events pinned at seen) (pinned_events seen at pinned) (
        pinned_complete pinned seen at e pinned e.tool pin (get-In e.tool pin pinned a)
          (none-contains_key e.tool seen b) (pinned_expected e.tool pin at ∙ h))
  loops_complete none (some tool) a b h =
      In-append_left e (listed_events pinned at seen) (pinned_events seen at pinned) (
        listed_complete pinned seen at e seen e.tool tool (get-In e.tool tool seen b)
          (ap (listed_event e.tool tool at) a ∙ (listed_expected e.tool tool at none ∙ h)))
  loops_complete (some pin) (some tool) a b h =
      In-append_left e (listed_events pinned at seen) (pinned_events seen at pinned) (
        listed_complete pinned seen at e seen e.tool tool (get-In e.tool tool seen b)
          (ap (listed_event e.tool tool at) a ∙ (listed_expected e.tool tool at (some pin) ∙ h)))

-- Against pins whose names stand in order, the comparison holds an event exactly when it is the one
-- that is due for its tool: nothing for a tool whose pinned and current hash agree, a change where
-- they differ, an addition without a pin and a removal without a current definition.
pub compare_iff :
    (pinned : Map ToolPin) (current : List ToolFingerprint) (at : ℕ) (e : DriftEvent)
    → IsSorted pinned
    → In e (compare pinned current at)
      ↔ (expected e.tool at (get e.tool pinned) (get e.tool (seen_of current)) ≡ some e)
unfolding compare seen_of
compare_iff pinned current at e p = (
  λ i.
      loops_sound pinned (seen_of current) at e p (collect-IsSorted (map named current))
        (sort_by_tool-In e _ i),
  λ h. In-sort_by_tool e _ (loops_complete pinned (seen_of current) at e _ _ refl refl h),
)

listed_event-stamp :
    (name : Text) (tool : ToolFingerprint) (s t : ℕ) (o : Option ToolPin) (l : List DriftEvent)
    → push (listed_event name tool t o) (map (stamp t) l)
      ≡ map (stamp t) (push (listed_event name tool s o) l)
unfolding listed_event
listed_event-stamp name tool s t none l = refl
listed_event-stamp name tool s t (some pin) l = elim (Bool-cases (text_eq pin.hash tool.hash)) [
  | inl h ↦ rw h refl
  | inr h ↦ rw h refl
]

pinned_event-stamp :
    (name : Text) (pin : ToolPin) (s t : ℕ) (b : Bool) (l : List DriftEvent)
    → push (pinned_event name pin t b) (map (stamp t) l)
      ≡ map (stamp t) (push (pinned_event name pin s b) l)
unfolding pinned_event
pinned_event-stamp name pin s t true l = refl
pinned_event-stamp name pin s t false l = refl

listed_events-stamp :
    (pinned : Map ToolPin) (s t : ℕ) (l : Map ToolFingerprint)
    → listed_events pinned t l ≡ map (stamp t) (listed_events pinned s l)
unfolding listed_events
listed_events-stamp pinned s t [] = refl
listed_events-stamp pinned s t ((name, tool) ∷ l) =
    ap (push (listed_event name tool t (get name pinned))) (listed_events-stamp pinned s t l)
    ∙ listed_event-stamp name tool s t (get name pinned) (listed_events pinned s l)

pinned_events-stamp :
    (seen : Map ToolFingerprint) (s t : ℕ) (l : Map ToolPin)
    → pinned_events seen t l ≡ map (stamp t) (pinned_events seen s l)
unfolding pinned_events
pinned_events-stamp seen s t [] = refl
pinned_events-stamp seen s t ((name, pin) ∷ l) =
    ap (push (pinned_event name pin t (contains_key name seen))) (pinned_events-stamp seen s t l)
    ∙ pinned_event-stamp name pin s t (contains_key name seen) (pinned_events seen s l)

-- The clock only dates the events: the same comparison at another time is the same list restamped.
pub compare-stamp :
    (pinned : Map ToolPin) (current : List ToolFingerprint) (s t : ℕ)
    → compare pinned current t ≡ map (stamp t) (compare pinned current s)
unfolding compare
compare-stamp pinned current s t =
    ap sort_by_tool (
      ap₂ (λ l r. l ++ r) (listed_events-stamp pinned s t seen)
        (pinned_events-stamp seen s t pinned)
      ∙ sym (map-append (stamp t) (listed_events pinned s seen) (pinned_events seen s pinned)))
    ∙ sort_by_tool-stamp t (listed_events pinned s seen ++ pinned_events seen s pinned)
  where
    seen : Map ToolFingerprint
    seen = seen_of current
