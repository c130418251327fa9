-- ===== src/Sync/Quiet.antt =====
-- What a fate leaves under a name, and that the fate of what it leaves asks for no change.
use mcpgw.Base.{
  ◌≡◌, refl, sym, ap, ◌∙◌, ◌↔◌, Bool, true, false, not, ◌⊎◌, ◌≢◌, ◌||◌, Option, none, some, ◌++◌,
  In-append_left, In-append_right, In-append_cases, if◌then◌else◌, inl, inr,
}
use mcpgw.Base.Bytes.{Text}
use mcpgw.Base.Map.{Map, Set, get_or}
use mcpgw.Config.Server.{Server}
use mcpgw.Clients.Json.{Json, null, Object, json_eq}
use mcpgw.Clients.Schema.{ClientKind}
use mcpgw.Clients.Unique.{IsUnique, json_eq_same}
use mcpgw.Sync.Plan.{SyncPlan, list_contains, carry_over_client_fields}
use mcpgw.Sync.Places.{list_contains_iff}
use mcpgw.Sync.Fate.{
  Fate, add, update, keep, conflict, remove, foreign, nothing, fate_of, kept, there,
}
use mcpgw.Sync.Decided.{Verdict}
use mcpgw.Sync.Carried.{carry_over_twice}
use mcpgw.Sync.Apply.{looked_up}

abbrev pub is_put : Fate → Bool
is_put add = true
is_put update = true
is_put _ = false

abbrev pub is_removed : Fate → Bool
is_removed remove = true
is_removed _ = false

-- What stands under a name of that fate once the plan is carried out.
abbrev pub left : Fate → Option Json → Option Json → Option Json
left add e c = e
left update e c = e
left remove e c = none
left _ e c = c

pub left_by :
    (e c : Option Json) (ours : Bool)
    → looked_up
        (is_put (fate_of e c ours))
        (is_removed (fate_of e c ours))
        (get_or null (kept (fate_of e c ours) e))
        c
      ≡ left (fate_of e c ours) e c
left_by none none ours = refl
left_by none (some v) true = refl
left_by none (some v) false = refl
left_by (some e) none ours = refl
left_by (some e) (some v) false = refl
left_by (some e) (some v) true = cases (json_eq v e)
  where
    f : Bool → Fate
    f b = if b then keep else update

    cases :
        (b : Bool)
        → looked_up (is_put (f b)) (is_removed (f b)) (get_or null (kept (f b) (some e))) (some v)
          ≡ left (f b) (some e) (some v)
    cases true = refl
    cases false = refl

abbrev pub is_quiet : Fate → Bool
is_quiet f = not (is_put f || is_removed f)

-- A name without an entry due is left as it is or gone.
pub quiet_none :
    (c : Option Json) (ours : Bool)
    → is_quiet
        (fate_of none (left (fate_of none c ours) none c) (there (kept (fate_of none c ours) none)))
      ≡ true
quiet_none none ours = refl
quiet_none (some v) true = refl
quiet_none (some v) false = refl

module _ (kind : ClientKind) (emitted : Json) where
  abbrev written : Option Json → Json
  written c = carry_over_client_fields kind c emitted

  as_written :
      (e : Json)
      → IsUnique e
      → written (some e) ≡ e
      → is_quiet (fate_of (some (written (some e))) (some e) true) ≡ true
  as_written e u h =
      ap (λ x. is_quiet (fate_of (some x) (some e) true)) h
      ∙ ap (λ b. is_quiet (if b then keep else update)) (json_eq_same e u)

  -- A name with an entry due has that entry now, or one that is not ours.
  pub quiet_due :
      (c : Option Json) (ours : Bool)
      → IsUnique (written c)
      → is_quiet (
          fate_of
            (some (written (left (fate_of (some (written c)) c ours) (some (written c)) c)))
            (left (fate_of (some (written c)) c ours) (some (written c)) c)
            (there (kept (fate_of (some (written c)) c ours) (some (written c)))))
        ≡ true
  quiet_due none ours u = as_written (written none) u (carry_over_twice kind none emitted)
  quiet_due (some v) false u = refl
  quiet_due (some v) true u = cases (json_eq v (written (some v))) refl
    where
      f : Bool → Fate
      f b = if b then keep else update

      e : Option Json
      e = some (written (some v))

      cases :
          (b : Bool)
          → json_eq v (written (some v)) ≡ b
          → is_quiet (
              fate_of
                (some (written (left (f b) e (some v))))
                (left (f b) e (some v))
                (there (kept (f b) e)))
            ≡ true
      cases true h = ap (λ b. is_quiet (f b)) h
      cases false h = as_written (written (some v)) u (carry_over_twice kind (some v) emitted)

  abbrev due_if : Bool → Option Json → Option Json
  due_if enabled c = if enabled then some (written c) else none

  -- Enabled or not, the second look at a name asks for nothing.
  pub quiet_server :
      (enabled : Bool) (before after : Option Json) (ours : Bool)
      → IsUnique (written before)
      → after ≡ left (fate_of (due_if enabled before) before ours) (due_if enabled before) before
      → is_quiet (
          fate_of
            (due_if enabled after)
            after
            (there (kept (fate_of (due_if enabled before) before ours) (due_if enabled before))))
        ≡ true
  quiet_server true before after ours u h =
      ap
        (λ x. is_quiet (
          fate_of (some (written x)) x
            (there (kept (fate_of (some (written before)) before ours) (some (written before))))))
        h
      ∙ quiet_due before ours u
  quiet_server false before after ours u h =
      ap (λ x. is_quiet (fate_of none x (there (kept (fate_of none before ours) none)))) h
      ∙ quiet_none before ours

pub same_truth : (a b : Bool) → (a ≡ true) ↔ (b ≡ true) → a ≡ b
same_truth true b h = sym (h.0 refl)
same_truth false true h = let bad = h.1 refl in cc
same_truth false false h = refl

put_cases : (f : Fate) → is_put f ≡ true → (f ≡ add) ⊎ (f ≡ update)
put_cases add h = inl refl
put_cases update h = inr refl
put_cases keep h = cc
put_cases conflict h = cc
put_cases remove h = cc
put_cases foreign h = cc
put_cases nothing h = cc

removed_is : (f : Fate) → is_removed f ≡ true → f ≡ remove
removed_is remove h = refl
removed_is add h = cc
removed_is update h = cc
removed_is keep h = cc
removed_is conflict h = cc
removed_is foreign h = cc
removed_is nothing h = cc

pub loud : (f : Fate) → is_quiet f ≡ true → (f ≢ add) × (f ≢ update) × (f ≢ remove)
loud f h = (λ e. clash (ap is_quiet e), λ e. clash (ap is_quiet e), λ e. clash (ap is_quiet e))
  where
    clash : ¬ (is_quiet f ≡ false)
    clash q = let bad : true ≡ false = sym h ∙ q in cc

-- The lists of a plan, read off the fate of a name.
pub listed :
    (kind : ClientKind) (current : Object) (canonical : Map Server) (managed : Set) (n : Text)
    (plan : SyncPlan) (f : Fate)
    → Verdict kind current canonical managed n plan f
    → (list_contains n (plan.adds ++ plan.updates) ≡ is_put f)
      × (list_contains n plan.removes ≡ is_removed f)
listed kind current canonical managed n plan f v = (
  same_truth _ _ (
    λ h. elim (In-append_cases n plan.adds plan.updates ((list_contains_iff n _).0 h)) [
      | inl i ↦ ap is_put (v.0.0 i)
      | inr i ↦ ap is_put (v.1.0 i)
    ],
    λ h. (list_contains_iff n _).1 (elim (put_cases f h) [
      | inl e ↦ In-append_left n plan.adds plan.updates (v.0.1 e)
      | inr e ↦ In-append_right n plan.adds plan.updates (v.1.1 e)
    ]),
  ),
  same_truth _ _ (
    λ h. ap is_removed (v.3.0 ((list_contains_iff n _).0 h)),
    λ h. (list_contains_iff n _).1 (v.3.1 (removed_is f h)),
  ),
)
