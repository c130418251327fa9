-- ===== src/Sync/Fate.antt =====
-- What plan_sync decides of each name, and what it leaves alone.
use mcpgw.Base.{
  ◌≡◌, refl, sym, ap, ◌∙◌, ◌↔◌, Bool, true, false, not, ◌&&◌, ◌||◌, Option, none, some, [], ◌∷◌,
  if◌then◌else◌,
}
use mcpgw.Base.Bytes.{Text, text_eq, text_eq_iff}
use mcpgw.Base.Map.{Map, Set, get, contains_key, IsSorted, Below-get}
use mcpgw.Config.Server.{Server}
use mcpgw.Clients.Json.{Json, Object, json_eq}
use mcpgw.Clients.Schema.{ClientKind}
use mcpgw.Sync.Plan.{SyncPlan, entry_for, differs, plan_servers, plan_server}
use mcpgw.Sync.Passes.{settled, plan_server-get}

-- What becomes of a name.
pub data Fate : Type 0 where
  add update keep conflict remove foreign nothing : Fate

-- The entry that an enabled server would have here.
abbrev pub due : ClientKind → Object → Text → Option Server → Option Json
due kind current n none = none
due kind current n (some server) =
    if server.enabled then some (entry_for kind current n server) else none

-- Decided by the entry due, the entry there and whether the name is one that was written before.
abbrev pub fate_of : Option Json → Option Json → Bool → Fate
fate_of (some e) none ours = add
fate_of (some e) (some v) false = conflict
fate_of (some e) (some v) true = if json_eq v e then keep else update
fate_of none (some v) true = remove
fate_of none (some v) false = foreign
fate_of none none ours = nothing

-- The entry that is written under a name of that fate.
abbrev pub kept : Fate → Option Json → Option Json
kept add e = e
kept update e = e
kept keep e = e
kept _ e = none

module _ (kind : ClientKind) (current : Object) (managed : Set) (canonical : Map Server)
    (n : Text) where
  abbrev pub fate : Fate
  fate = fate_of (due kind current n (get n canonical)) (get n current) (contains_key n managed)

module _ (kind : ClientKind) (current : Object) (managed : Set) (n : Text) where
  pub plan_servers-get :
      (m : Map Server) (plan : SyncPlan)
      → IsSorted m
      → get n (plan_servers kind current managed m plan).desired
        ≡ settled kind current managed n (get n m) (get n plan.desired)
  unfolding plan_servers get
  plan_servers-get [] plan s = refl
  plan_servers-get ((k, v) ∷ m) plan (b, s) =
      plan_servers-get m (plan_server kind current managed k v plan) s
      ∙ (ap (settled kind current managed n (get n m))
            (plan_server-get kind current managed n k v plan)
          ∙ cases (text_eq k n) refl)
    where
      cases :
          (t : Bool)
          → text_eq k n ≡ t
          → settled kind current managed n (get n m) (
              if t
              then settled kind current managed n (some v) (get n plan.desired)
              else get n plan.desired)
            ≡ settled kind current managed n (if t then some v else get n m) (get n plan.desired)
      cases true h =
          ap
            (λ o.
              settled kind current managed n o
                (settled kind current managed n (some v) (get n plan.desired)))
            (ap (λ x. get x m) (sym ((text_eq_iff k n).0 h)) ∙ Below-get k m b)
      cases false h = refl

abbrev pub there : Option Json → Bool
there none = false
there (some v) = true

pub contains_key-there : (n : Text) (m : Object) → contains_key n m ≡ there (get n m)
unfolding contains_key
contains_key-there n m = cases (get n m)
  where
    cases : (o : Option Json) → elim o [ none ↦ false | some v ↦ true ] ≡ there o
    cases none = refl
    cases (some v) = refl

-- The tests of both passes, as the fate of the name.
abbrev pub PassOne : Bool → Json → Option Json → Bool → Fate → Type 0
PassOne en e c ours f =
    (((en && not (there c)) ≡ true) ↔ (f ≡ add))
    × (((en && (there c && (ours && differs c e))) ≡ true) ↔ (f ≡ update))
    × (((en && (there c && not ours)) ≡ true) ↔ (f ≡ conflict))
    × ((if en && not (there c && not ours) then some e else none)
        ≡ kept f (if en then some e else none))

pub first_pass :
    (en : Bool) (e : Json) (c : Option Json) (ours : Bool)
    → PassOne en e c ours (fate_of (if en then some e else none) c ours)
unfolding differs
first_pass false e none ours = ((λ h. cc, λ h. cc), (λ h. cc, λ h. cc), (λ h. cc, λ h. cc), refl)
first_pass false e (some v) true =
    ((λ h. cc, λ h. cc), (λ h. cc, λ h. cc), (λ h. cc, λ h. cc), refl)
first_pass false e (some v) false =
    ((λ h. cc, λ h. cc), (λ h. cc, λ h. cc), (λ h. cc, λ h. cc), refl)
first_pass true e none ours = ((λ h. refl, λ h. refl), (λ h. cc, λ h. cc), (λ h. cc, λ h. cc), refl)
first_pass true e (some v) false =
    ((λ h. cc, λ h. cc), (λ h. cc, λ h. cc), (λ h. refl, λ h. refl), refl)
first_pass true e (some v) true = cases (json_eq v e)
  where
    cases :
        (b : Bool)
        → ((false ≡ true) ↔ ((if b then keep else update) ≡ add))
          × ((not b ≡ true) ↔ ((if b then keep else update) ≡ update))
          × ((false ≡ true) ↔ ((if b then keep else update) ≡ conflict))
          × (some e ≡ kept (if b then keep else update) (some e))
    cases true = ((λ h. cc, λ h. cc), (λ h. cc, λ h. cc), (λ h. cc, λ h. cc), refl)
    cases false = ((λ h. cc, λ h. cc), (λ h. refl, λ h. refl), (λ h. cc, λ h. cc), refl)

abbrev pub PassTwo : Option Json → Bool → Bool → Bool → Fate → Type 0
PassTwo c b d ours f =
    (((there c ≡ true) × ((not (d || b) && ours) ≡ true)) ↔ (f ≡ remove))
    × (((there c ≡ true) × ((not (d || b) && not ours) ≡ true)) ↔ (f ≡ foreign))

pub second_pass :
    (due : Option Json) (c : Option Json) (ours b : Bool)
    → ((b ≡ true) ↔ (fate_of due c ours ≡ conflict))
    → PassTwo c b (there (kept (fate_of due c ours) due)) ours (fate_of due c ours)
second_pass none none ours b i = ((λ h. cc, λ h. cc), (λ h. cc, λ h. cc))
second_pass none (some v) true true i = elim (no (i.0 refl)) [ ]
  where
    no : ¬ (remove ≡ conflict)
    no h = cc
second_pass none (some v) true false i = ((λ h. refl, λ h. (refl, refl)), (λ h. cc, λ h. cc))
second_pass none (some v) false true i = elim (no (i.0 refl)) [ ]
  where
    no : ¬ (foreign ≡ conflict)
    no h = cc
second_pass none (some v) false false i = ((λ h. cc, λ h. cc), (λ h. refl, λ h. (refl, refl)))
second_pass (some e) none ours b i = ((λ h. cc, λ h. cc), (λ h. cc, λ h. cc))
second_pass (some e) (some v) false true i = ((λ h. cc, λ h. cc), (λ h. cc, λ h. cc))
second_pass (some e) (some v) false false i = let bad = i.1 refl in elim (no bad) [ ]
  where
    no : ¬ (false ≡ true)
    no h = cc
second_pass (some e) (some v) true b i = cases (json_eq v e)
  where
    cases :
        (t : Bool)
        → PassTwo
            (some v)
            b
            (there (kept (if t then keep else update) (some e)))
            true
            (if t then keep else update)
    cases true = ((λ h. cc, λ h. cc), (λ h. cc, λ h. cc))
    cases false = ((λ h. cc, λ h. cc), (λ h. cc, λ h. cc))
