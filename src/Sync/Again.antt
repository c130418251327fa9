-- ===== src/Sync/Again.antt =====
-- A sync of a document that has just been synced.
use mcpgw.Base.{
  ◌≡◌, refl, ap, ◌∙◌, ◌≢◌, Bool, true, false, not, ◌&&◌, Option, none, some, List, [], ◌∷◌, ◌++◌,
  map, In, is_empty, inl, inr, All,
}
use mcpgw.Base.Bytes.{Text}
use mcpgw.Base.Map.{Map, Set, get, get_or, get-In, contains_key, keys, collect, IsSorted}
use mcpgw.Config.Server.{Server}
use mcpgw.Clients.Json.{Json, null, Object}
use mcpgw.Clients.Schema.{ClientKind, codec}
use mcpgw.Clients.Objects.{Unique}
use mcpgw.Clients.Edit.{json_entries, refused_at}
use mcpgw.Clients.RoundTrip.{HasSortedKeys}
use mcpgw.Sync.Plan.{
  SyncPlan, empty_plan, plan_sync, plan_servers, has_changes, managed_after, entry_for,
  client_entry, list_contains,
}
use mcpgw.Sync.Places.{keys_iff}
use mcpgw.Sync.Passes.{plan_servers-others}
use mcpgw.Sync.Sweep.{plan_entries-swept}
use mcpgw.Sync.Fate.{Fate, add, update, remove, due, fate_of, kept, fate, there}
use mcpgw.Sync.Decided.{Verdict, plan_sync-fate}
use mcpgw.Sync.Context.{mark, in_order_iff}
use mcpgw.Sync.Carried.{carry_over-IsUnique, client_entry-IsUnique, get-IsUnique}
use mcpgw.Sync.Apply.{apply_plan, planned, looked_up, get-apply_plan}
use mcpgw.Sync.Quiet.{
  is_put, is_removed, is_quiet, left, left_by, quiet_none, quiet_server, same_truth, loud, listed,
}

-- The names of a plan as the set that the state file keeps.
unfoldable pub recorded : SyncPlan → Set
unfolding managed_after collect
recorded plan = collect (map mark (managed_after plan))

contains_key-recorded :
    (n : Text) (plan : SyncPlan) → contains_key n (recorded plan) ≡ there (get n plan.desired)
unfolding recorded managed_after mcpgw.Sync.Context.in_order contains_key get
contains_key-recorded n plan =
    same_truth _ _ (
      λ h. (keys_iff n plan.desired).0 ((in_order_iff n _).0 ((keys_iff n (recorded plan)).1 h)),
      λ h. (keys_iff n (recorded plan)).0 ((in_order_iff n _).1 ((keys_iff n plan.desired).1 h)),
    )
    ∙ there_is (get n plan.desired)
  where
    there_is : (o : Option Json) → elim o [ none ↦ false | some v ↦ true ] ≡ there o
    there_is none = refl
    there_is (some v) = refl

nothing-In : (l : List Text) → ((n : Text) → ¬ In n l) → is_empty l ≡ true
nothing-In [] h = refl
nothing-In (n ∷ l) h = absurd (h n (inl refl))

-- Every server of the canonical list has its maps in order.
abbrev pub AreSorted : Map Server → Type 0
AreSorted canonical = All (λ p. HasSortedKeys p.1.transport) canonical

In-All : (p : Text × Server) (m : Map Server) → AreSorted m → In p m → HasSortedKeys p.1.transport
In-All p [] a i = elim i [ ]
In-All p (q ∷ m) (h, a) (inl e) = rw e h
In-All p (q ∷ m) (h, a) (inr i) = In-All p m a i

module _ (kind : ClientKind) (root : Json) (canonical : Map Server) (managed : Set)
    (sorted : IsSorted canonical) (inner : AreSorted canonical)
    (distinct : Unique (json_entries (codec kind).root root)) where
  abbrev entries : Object
  entries = json_entries (codec kind).root root

  abbrev plan : SyncPlan
  plan = plan_sync kind entries canonical managed

  abbrev next : Object
  next = json_entries (codec kind).root (apply_plan kind root plan).0

  abbrev second : SyncPlan
  second = plan_sync kind next canonical (recorded plan)

  abbrev first_fate : Text → Fate
  first_fate n = fate kind entries managed canonical n

  verdict : (n : Text) → Verdict kind entries canonical managed n plan (first_fate n)
  verdict n = plan_sync-fate kind entries canonical managed n sorted

  module _ (taken : refused_at (apply_plan kind root plan).1 ≡ none) where
    -- What a name has after the edit.
    get-next :
        (n : Text)
        → get n next ≡ left (first_fate n) (due kind entries n (get n canonical)) (get n entries)
    get-next n =
        get-apply_plan kind root plan n distinct taken
        ∙ (reads (listed kind entries canonical managed n plan (first_fate n) (verdict n))
            ∙ left_by (due kind entries n (get n canonical)) (get n entries)
                (contains_key n managed))
      where
        reads :
            (list_contains n (plan.adds ++ plan.updates) ≡ is_put (first_fate n))
              × (list_contains n plan.removes ≡ is_removed (first_fate n))
            → looked_up
                (list_contains n (plan.adds ++ plan.updates))
                (list_contains n plan.removes)
                (planned plan n)
                (get n entries)
              ≡ looked_up
                  (is_put (first_fate n))
                  (is_removed (first_fate n))
                  (get_or null (kept (first_fate n) (due kind entries n (get n canonical))))
                  (get n entries)
        reads (p, r) =
            ap (λ b. looked_up b (list_contains n plan.removes) (planned plan n) (get n entries)) p
            ∙ (ap (λ b. looked_up (is_put (first_fate n)) b (planned plan n) (get n entries)) r
                ∙ ap
                    (λ o.
                      looked_up (is_put (first_fate n)) (is_removed (first_fate n)) (get_or null o)
                        (get n entries))
                    (verdict n).5)

    -- The fate of a name in the second run, by what the first left.
    second_fate :
        (n : Text)
        → fate kind next (recorded plan) canonical n
          ≡ fate_of
              (due kind next n (get n canonical))
              (get n next)
              (there (kept (first_fate n) (due kind entries n (get n canonical))))
    second_fate n =
        ap (fate_of (due kind next n (get n canonical)) (get n next))
          (contains_key-recorded n plan ∙ ap there (verdict n).5)

    quiet : (n : Text) → is_quiet (fate kind next (recorded plan) canonical n) ≡ true
    unfolding entry_for
    quiet n = ap is_quiet (second_fate n) ∙ by (get n canonical) refl (get-next n)
      where
        by :
            (o : Option Server)
            → get n canonical ≡ o
            → get n next
              ≡ left
                  (fate_of (due kind entries n o) (get n entries) (contains_key n managed))
                  (due kind entries n o)
                  (get n entries)
            → is_quiet (
                fate_of (due kind next n o) (get n next) (
                  there (
                    kept
                      (fate_of (due kind entries n o) (get n entries) (contains_key n managed))
                      (due kind entries n o))))
              ≡ true
        by none e h =
            ap
              (λ c. is_quiet (
                fate_of none c
                  (there (kept (fate_of none (get n entries) (contains_key n managed)) none))))
              h
            ∙ quiet_none (get n entries) (contains_key n managed)
        by (some s) e h =
            quiet_server kind (client_entry kind s) s.enabled (get n entries) (get n next)
              (contains_key n managed)
              (carry_over-IsUnique kind (get n entries) (client_entry kind s)
                (λ v found. get-IsUnique n v entries distinct found)
                (client_entry-IsUnique kind s
                  (In-All (n, s) canonical inner (get-In n s canonical e))))
              h

    none_unexcluded : second.unexclude ≡ []
    unfolding plan_sync
    none_unexcluded =
        ap (λ p. p.unexclude)
          (plan_entries-swept (recorded plan) (keys next)
            (plan_servers kind next (recorded plan) canonical empty_plan))
        ∙ (plan_servers-others kind next (recorded plan) canonical empty_plan).2

-- Once a plan has been carried out and its names recorded, planning again against the new document
-- finds nothing to change, whatever other entries and fields the document holds. It holds for a
-- document whose server map is an object or absent, so that the edit is taken, and has no key twice.
pub plan_sync-apply_plan :
    (kind : ClientKind) (root : Json) (canonical : Map Server) (managed : Set)
    → IsSorted canonical
    → AreSorted canonical
    → Unique (json_entries (codec kind).root root)
    → refused_at
        (apply_plan kind root
          (plan_sync kind (json_entries (codec kind).root root) canonical managed)).1
      ≡ none
    → has_changes (
        plan_sync kind
          (json_entries
            (codec kind).root
            (apply_plan kind root
              (plan_sync kind (json_entries (codec kind).root root) canonical managed)).0)
          canonical
          (recorded (plan_sync kind (json_entries (codec kind).root root) canonical managed)))
      ≡ false
unfolding has_changes
plan_sync-apply_plan kind root canonical managed sorted inner distinct taken =
    all_empty (nothing-In again.adds (λ n i. (asks n).0 ((decided n).0.0 i)))
      (nothing-In again.updates (λ n i. (asks n).1 ((decided n).1.0 i)))
      (nothing-In again.removes (λ n i. (asks n).2 ((decided n).3.0 i)))
      (ap is_empty (none_unexcluded kind root canonical managed sorted inner distinct taken))
  where
    again : SyncPlan
    again = second kind root canonical managed sorted inner distinct

    after : Object
    after = next kind root canonical managed sorted inner distinct

    written_names : Set
    written_names = recorded (plan kind root canonical managed sorted inner distinct)

    decided :
        (n : Text)
        → Verdict kind after canonical written_names n again
            (fate kind after written_names canonical n)
    decided n = plan_sync-fate kind after canonical written_names n sorted

    asks :
        (n : Text)
        → (fate kind after written_names canonical n ≢ add)
          × (fate kind after written_names canonical n ≢ update)
          × (fate kind after written_names canonical n ≢ remove)
    asks n =
        loud (fate kind after written_names canonical n)
          (quiet kind root canonical managed sorted inner distinct taken n)

    all_empty :
        {a b c d : Bool}
        → a ≡ true
        → b ≡ true
        → c ≡ true
        → d ≡ true
        → not (a && b && c && d) ≡ false
    all_empty p q r t = cc
