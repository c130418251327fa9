-- ===== src/Sync/Decided.antt =====
-- plan_sync against its specification: the fate of every name.
use mathlib.Core.Path.{subst}
use mcpgw.Base.{
  ◌≡◌, refl, sym, ap, ◌∙◌, ◌↔◌, ◌⊎◌, inl, inr, Bool, true, false, not, ◌&&◌, ◌||◌, Option, none,
  some, List, ◌++◌, In, retain,
}
use mcpgw.Base.Bytes.{Text}
use mcpgw.Base.Map.{Map, Set, get, contains_key, keys, IsSorted}
use mcpgw.Config.Server.{Server}
use mcpgw.Clients.Json.{Json, Object}
use mcpgw.Clients.Schema.{ClientKind}
use mcpgw.Sync.Plan.{SyncPlan, empty_plan, entry_for, plan_servers, list_contains, plan_sync}
use mcpgw.Sync.Places.{selected, passes, selected_iff, retain_iff, keys_iff, list_contains_iff}
use mcpgw.Sync.Passes.{
  is_add, is_update, is_conflict, plan_servers-adds, plan_servers-updates, plan_servers-conflicts,
  plan_servers-others, settled,
}
use mcpgw.Sync.Passes.{is_add}
use mcpgw.Sync.Sweep.{is_free, is_remove, is_foreign, plan_entries-swept}
use mcpgw.Sync.Fate.{
  Fate, add, update, conflict, remove, foreign, due, fate_of, kept, fate, PassTwo, first_pass,
  second_pass, there, contains_key-there, plan_servers-get,
}

module _ (kind : ClientKind) (current : Object) (managed : Set) (n : Text) where
  abbrev fate_from : Option Server → Fate
  fate_from o = fate_of (due kind current n o) (get n current) (contains_key n managed)

  first_of :
      (o : Option Server)
      → ((passes (is_add kind current managed) n o ≡ true) ↔ (fate_from o ≡ add))
        × ((passes (is_update kind current managed) n o ≡ true) ↔ (fate_from o ≡ update))
        × ((passes (is_conflict kind current managed) n o ≡ true) ↔ (fate_from o ≡ conflict))
        × (settled kind current managed n o none ≡ kept (fate_from o) (due kind current n o))
  first_of none = absent (get n current) (contains_key n managed)
    where
      absent :
          (c : Option Json) (ours : Bool)
          → ((false ≡ true) ↔ (fate_of none c ours ≡ add))
            × ((false ≡ true) ↔ (fate_of none c ours ≡ update))
            × ((false ≡ true) ↔ (fate_of none c ours ≡ conflict))
            × (none ≡ kept (fate_of none c ours) none)
      absent none ours = ((λ h. cc, λ h. cc), (λ h. cc, λ h. cc), (λ h. cc, λ h. cc), refl)
      absent (some v) true = ((λ h. cc, λ h. cc), (λ h. cc, λ h. cc), (λ h. cc, λ h. cc), refl)
      absent (some v) false = ((λ h. cc, λ h. cc), (λ h. cc, λ h. cc), (λ h. cc, λ h. cc), refl)
  first_of (some s) =
      rw (contains_key-there n current)
        (first_pass s.enabled (entry_for kind current n s) (get n current) (contains_key n managed))

same_In :
    (n : Text) (a b : List Text) (P Q : Type 0) → a ≡ b → (In n b ↔ P) → (P ↔ Q) → (In n a ↔ Q)
same_In n a b P Q e h k =
    (λ i. k.0 (h.0 (subst (λ l. In n l) e i)), λ q. subst (λ l. In n l) (sym e) (h.1 (k.1 q)))

module _ (kind : ClientKind) (current : Object) (canonical : Map Server) (managed : Set)
    (n : Text) where
  abbrev pub Verdict : SyncPlan → Fate → Type 0
  Verdict plan f =
      (In n plan.adds ↔ (f ≡ add))
      × (In n plan.updates ↔ (f ≡ update))
      × (In n plan.conflicts ↔ (f ≡ conflict))
      × (In n plan.removes ↔ (f ≡ remove))
      × (In n plan.foreign ↔ (f ≡ foreign))
      × (get n plan.desired ≡ kept f (due kind current n (get n canonical)))

  abbrev after_servers : SyncPlan
  after_servers = plan_servers kind current managed canonical empty_plan

  module _ (sorted : IsSorted canonical) where
    servers_conflicts :
        In n after_servers.conflicts ↔ (fate kind current managed canonical n ≡ conflict)
    servers_conflicts =
        same_In n after_servers.conflicts (selected (is_conflict kind current managed) canonical) _
          _ (plan_servers-conflicts kind current managed canonical empty_plan)
          (selected_iff (is_conflict kind current managed) n canonical sorted)
          (first_of kind current managed n (get n canonical)).2

    servers_desired :
        get n after_servers.desired
        ≡ kept (fate kind current managed canonical n) (due kind current n (get n canonical))
    unfolding get
    servers_desired =
        plan_servers-get kind current managed n canonical empty_plan sorted
        ∙ (first_of kind current managed n (get n canonical)).3

    -- The names of a list that the second pass selects.
    free :
        is_free after_servers n
        ≡ not (
            there
              (kept (fate kind current managed canonical n) (due kind current n (get n canonical)))
            || list_contains n after_servers.conflicts)
    free =
        ap (λ d. not (d || list_contains n after_servers.conflicts))
          (contains_key-there n after_servers.desired ∙ ap there servers_desired)

    second_of :
        PassTwo
          (get n current)
          (list_contains n after_servers.conflicts)
          (there
            (kept (fate kind current managed canonical n) (due kind current n (get n canonical))))
          (contains_key n managed)
          (fate kind current managed canonical n)
    second_of =
        second_pass (due kind current n (get n canonical)) (get n current) (contains_key n managed)
          (list_contains n after_servers.conflicts)
          (
            λ h. servers_conflicts.0 ((list_contains_iff n after_servers.conflicts).0 h),
            λ h. (list_contains_iff n after_servers.conflicts).1 (servers_conflicts.1 h),
          )

    listed :
        (t : Bool → Bool) (f : Fate)
        → ((there (get n current) ≡ true)
            × ((not (
                    there (
                      kept
                        (fate kind current managed canonical n)
                        (due kind current n (get n canonical)))
                    || list_contains n after_servers.conflicts)
                  && t (contains_key n managed))
                ≡ true))
          ↔ (fate kind current managed canonical n ≡ f)
        → In n (retain (λ k. is_free after_servers k && t (contains_key k managed)) (keys current))
          ↔ (fate kind current managed canonical n ≡ f)
    listed t f h = (
      λ i.
          let (k, q) =
            (retain_iff (λ k. is_free after_servers k && t (contains_key k managed)) n
                (keys current)).0
              i in
          h.0 (
            sym (contains_key-there n current) ∙ (keys_iff n current).0 k,
            ap (λ b. b && t (contains_key n managed)) (sym free) ∙ q,
          ),
      λ e.
          (retain_iff (λ k. is_free after_servers k && t (contains_key k managed)) n
              (keys current)).1
            (
              (keys_iff n current).1 (contains_key-there n current ∙ (h.1 e).0),
              ap (λ b. b && t (contains_key n managed)) free ∙ (h.1 e).1,
            ),
    )

-- With canonical servers in the order of their names, every list of the plan holds exactly the names
-- of its fate, and the entries to be written are exactly those due: a name is added when an enabled
-- server of it is missing in the client, updated or kept when the entry there was written by mcpgw,
-- a conflict when it was not, removed when mcpgw wrote it and no enabled server of it is left, and
-- foreign when it did not.
pub plan_sync-fate :
    (kind : ClientKind) (current : Object) (canonical : Map Server) (managed : Set) (n : Text)
    → IsSorted canonical
    → Verdict kind current canonical managed n
        (plan_sync kind current canonical managed)
        (fate kind current managed canonical n)
unfolding plan_sync
plan_sync-fate kind current canonical managed n sorted =
    subst (λ p. Verdict kind current canonical managed n p (fate kind current managed canonical n))
      (sym (
        plan_entries-swept managed (keys current) (after_servers kind current canonical managed n)))
      (
        same_In n _ (selected (is_add kind current managed) canonical) _ _
            (plan_servers-adds kind current managed canonical empty_plan)
            (selected_iff (is_add kind current managed) n canonical sorted)
            (first_of kind current managed n (get n canonical)).0,
        same_In n _ (selected (is_update kind current managed) canonical) _ _
            (plan_servers-updates kind current managed canonical empty_plan)
            (selected_iff (is_update kind current managed) n canonical sorted)
            (first_of kind current managed n (get n canonical)).1,
        servers_conflicts kind current canonical managed n sorted,
        same_In n _ _ _ _
            (ap (λ l. l ++ retain (is_remove after managed) (keys current))
              (plan_servers-others kind current managed canonical empty_plan).0)
            (listed kind current canonical managed n sorted (λ b. b) remove
              (second_of kind current canonical managed n sorted).0)
            (λ e. e, λ e. e),
        same_In n _ _ _ _
            (ap (λ l. l ++ retain (is_foreign after managed) (keys current))
              (plan_servers-others kind current managed canonical empty_plan).1)
            (listed kind current canonical managed n sorted (λ b. not b) foreign
              (second_of kind current canonical managed n sorted).1)
            (λ e. e, λ e. e),
        servers_desired kind current canonical managed n sorted,
      )
  where
    after : SyncPlan
    after = after_servers kind current canonical managed n

stranger :
    (due : Option Json) (c : Option Json)
    → there c ≡ true
    → (fate_of due c false ≡ conflict) ⊎ (fate_of due c false ≡ foreign)
stranger none none h = cc
stranger none (some v) h = inr refl
stranger (some e) none h = cc
stranger (some e) (some v) h = inl refl

-- An entry of the client that mcpgw never wrote is left alone: no plan adds, updates or removes it, or
-- holds an entry to be written under its name.
pub plan_sync-stranger :
    (kind : ClientKind) (current : Object) (canonical : Map Server) (managed : Set) (n : Text)
    → IsSorted canonical
    → contains_key n current ≡ true
    → contains_key n managed ≡ false
    → (¬ In n (plan_sync kind current canonical managed).adds)
      × (¬ In n (plan_sync kind current canonical managed).updates)
      × (¬ In n (plan_sync kind current canonical managed).removes)
      × (get n (plan_sync kind current canonical managed).desired ≡ none)
plan_sync-stranger kind current canonical managed n sorted c m =
    elim (stranger (due kind current n (get n canonical)) (get n current)
      (sym (contains_key-there n current) ∙ c)) [
        | inl h ↦ spared conflict (λ x. cc) (λ x. cc) (λ x. cc) refl (named ∙ h)
        | inr h ↦ spared foreign (λ x. cc) (λ x. cc) (λ x. cc) refl (named ∙ h)
      ]
  where
    plan : SyncPlan
    plan = plan_sync kind current canonical managed

    verdict :
        Verdict kind current canonical managed n
          (plan_sync kind current canonical managed)
          (fate kind current managed canonical n)
    verdict = plan_sync-fate kind current canonical managed n sorted

    named :
        fate kind current managed canonical n
        ≡ fate_of (due kind current n (get n canonical)) (get n current) false
    named = ap (fate_of (due kind current n (get n canonical)) (get n current)) m

    spared :
        (f : Fate)
        → ¬ (f ≡ add)
        → ¬ (f ≡ update)
        → ¬ (f ≡ remove)
        → kept f (due kind current n (get n canonical)) ≡ none
        → fate kind current managed canonical n ≡ f
        → (¬ In n plan.adds)
          × (¬ In n plan.updates)
          × (¬ In n plan.removes)
          × (get n plan.desired ≡ none)
    spared f a u r k h = (
      λ i. a (sym h ∙ verdict.0.0 i),
      λ i. u (sym h ∙ verdict.1.0 i),
      λ i. r (sym h ∙ verdict.3.0 i),
      verdict.5 ∙ (ap (λ g. kept g (due kind current n (get n canonical))) h ∙ k),
    )
