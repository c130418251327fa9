-- ===== src/Sync/Passes.antt =====
-- Where each pass of plan_sync puts a name.
use mathlib.Core.List.{append_assoc, append-nil}
use mcpgw.Base.{
  ◌≡◌, refl, sym, ap, ◌∙◌, Bool, true, false, not, ◌&&◌, Option, none, some, List, [], ◌∷◌, ◌++◌,
  if◌then◌else◌,
}
use mcpgw.Base.Bytes.{Text, text_eq, text_eq_iff}
use mcpgw.Base.Map.{Map, Set, get, contains_key, insert, get-insert}
use mcpgw.Config.Server.{Server}
use mcpgw.Clients.Json.{Json, Object}
use mcpgw.Clients.Schema.{ClientKind}
use mcpgw.Sync.Plan.{SyncPlan, plan_tests, entry_for, differs, plan_server, plan_servers}
use mcpgw.Sync.Places.{selected}

-- One pair of a list behind what is there.
push-selected :
    (xs : List Text) (k : Text) (b : Bool) (rest : List Text)
    → (if b then xs ++ k ∷ [] else xs) ++ rest ≡ xs ++ (if b then k ∷ rest else rest)
push-selected xs k true rest = append_assoc xs (k ∷ []) rest
push-selected xs k false rest = refl

module _ (kind : ClientKind) (current : Object) (managed : Set) where
  abbrev pub is_add : Text → Server → Bool
  is_add n server = server.enabled && not (contains_key n current)

  abbrev pub is_conflict : Text → Server → Bool
  is_conflict n server = server.enabled && (contains_key n current && not (contains_key n managed))

  abbrev pub is_written : Text → Server → Bool
  is_written n server =
      server.enabled && not (contains_key n current && not (contains_key n managed))

  abbrev pub is_update : Text → Server → Bool
  is_update n server =
      server.enabled
      && (contains_key n current
          && (contains_key n managed && differs (get n current) (entry_for kind current n server)))

  placed : (add update conflict written : Bool) → Text → Json → SyncPlan → SyncPlan
  unfolding insert
  placed add update conflict written name v plan = record plan {
    adds = if add then plan.adds ++ name ∷ [] else plan.adds;
    updates = if update then plan.updates ++ name ∷ [] else plan.updates;
    conflicts = if conflict then plan.conflicts ++ name ∷ [] else plan.conflicts;
    desired = if written then insert name v plan.desired else plan.desired;
  }

  plan_tests-placed :
      (e x m c : Bool) (name : Text) (v : Json) (plan : SyncPlan)
      → plan_tests e x m c name v plan
        ≡ placed
            (e && not x)
            (e && (x && (m && c)))
            (e && (x && not m))
            (e && not (x && not m))
            name
            v
            plan
  unfolding placed
  plan_tests-placed false x m c name v plan = refl
  plan_tests-placed true false m c name v plan = refl
  plan_tests-placed true true false c name v plan = refl
  plan_tests-placed true true true false name v plan = refl
  plan_tests-placed true true true true name v plan = refl

  plan_server-placed :
      (name : Text) (server : Server) (plan : SyncPlan)
      → plan_server kind current managed name server plan
        ≡ placed
            (is_add name server)
            (is_update name server)
            (is_conflict name server)
            (is_written name server)
            name
            (entry_for kind current name server)
            plan
  unfolding plan_server
  plan_server-placed name server plan =
      plan_tests-placed server.enabled (contains_key name current) (contains_key name managed)
        (differs (get name current) (entry_for kind current name server)) name
        (entry_for kind current name server) plan

  -- The lists that the first pass leaves.
  pub plan_servers-adds :
      (m : Map Server) (plan : SyncPlan)
      → (plan_servers kind current managed m plan).adds ≡ plan.adds ++ selected is_add m
  unfolding plan_servers placed
  plan_servers-adds [] plan = sym (append-nil plan.adds)
  plan_servers-adds ((k, s) ∷ m) plan =
      plan_servers-adds m (plan_server kind current managed k s plan)
      ∙ (ap (λ p. p.adds ++ selected is_add m) (plan_server-placed k s plan)
          ∙ push-selected plan.adds k (is_add k s) (selected is_add m))

  pub plan_servers-updates :
      (m : Map Server) (plan : SyncPlan)
      → (plan_servers kind current managed m plan).updates ≡ plan.updates ++ selected is_update m
  unfolding plan_servers placed
  plan_servers-updates [] plan = sym (append-nil plan.updates)
  plan_servers-updates ((k, s) ∷ m) plan =
      plan_servers-updates m (plan_server kind current managed k s plan)
      ∙ (ap (λ p. p.updates ++ selected is_update m) (plan_server-placed k s plan)
          ∙ push-selected plan.updates k (is_update k s) (selected is_update m))

  pub plan_servers-conflicts :
      (m : Map Server) (plan : SyncPlan)
      → (plan_servers kind current managed m plan).conflicts
        ≡ plan.conflicts ++ selected is_conflict m
  unfolding plan_servers placed
  plan_servers-conflicts [] plan = sym (append-nil plan.conflicts)
  plan_servers-conflicts ((k, s) ∷ m) plan =
      plan_servers-conflicts m (plan_server kind current managed k s plan)
      ∙ (ap (λ p. p.conflicts ++ selected is_conflict m) (plan_server-placed k s plan)
          ∙ push-selected plan.conflicts k (is_conflict k s) (selected is_conflict m))

  pub plan_servers-others :
      (m : Map Server) (plan : SyncPlan)
      → ((plan_servers kind current managed m plan).removes ≡ plan.removes)
        × ((plan_servers kind current managed m plan).foreign ≡ plan.foreign)
        × ((plan_servers kind current managed m plan).unexclude ≡ plan.unexclude)
  unfolding plan_servers placed
  plan_servers-others [] plan = (refl, refl, refl)
  plan_servers-others ((k, s) ∷ m) plan =
      let (r, f, x) = plan_servers-others m (plan_server kind current managed k s plan) in
      (
        r ∙ ap (λ p. p.removes) (plan_server-placed k s plan),
        f ∙ ap (λ p. p.foreign) (plan_server-placed k s plan),
        x ∙ ap (λ p. p.unexclude) (plan_server-placed k s plan),
      )

  -- What stands under a name after the first pass.
  abbrev pub settled : Text → Option Server → Option Json → Option Json
  settled n none old = old
  settled n (some s) old = if is_written n s then some (entry_for kind current n s) else old

  pub plan_server-get :
      (n k : Text) (s : Server) (plan : SyncPlan)
      → get n (plan_server kind current managed k s plan).desired
        ≡ (if text_eq k n then settled n (some s) (get n plan.desired) else get n plan.desired)
  unfolding placed
  plan_server-get n k s plan =
      ap (λ p. get n p.desired) (plan_server-placed k s plan) ∙ cases (is_written k s) refl
    where
      here : Bool → Map Json
      here b = if b then insert k (entry_for kind current k s) plan.desired else plan.desired

      moved :
          (o : Option Json) (b : Bool)
          → text_eq k n ≡ b
          → (if b then settled k (some s) o else o) ≡ (if b then settled n (some s) o else o)
      moved o true h = ap (λ x. settled x (some s) o) ((text_eq_iff k n).0 h)
      moved o false h = refl

      stays :
          (t : Bool) (o : Option Json)
          → is_written k s ≡ false
          → o ≡ (if t then settled k (some s) o else o)
      stays true o h = rw h refl
      stays false o h = refl

      goes :
          (t : Bool) (o : Option Json)
          → is_written k s ≡ true
          → (if t then some (entry_for kind current k s) else o)
            ≡ (if t then settled k (some s) o else o)
      goes true o h = rw h refl
      goes false o h = refl

      cases :
          (b : Bool)
          → is_written k s ≡ b
          → get n (here b)
            ≡ (if text_eq k n then settled n (some s) (get n plan.desired) else get n plan.desired)
      cases true h =
          get-insert n k (entry_for kind current k s) plan.desired
          ∙ (goes (text_eq k n) (get n plan.desired) h
              ∙ moved (get n plan.desired) (text_eq k n) refl)
      cases false h =
          stays (text_eq k n) (get n plan.desired) h ∙ moved (get n plan.desired) (text_eq k n) refl
