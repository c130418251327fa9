-- ===== src/Sync/Sweep.antt =====
-- The second pass of plan_sync as a whole.
use mathlib.Core.List.{append_assoc, append-nil}
use mcpgw.Base.{
  ◌≡◌, refl, sym, ap, ◌∙◌, Bool, true, false, not, ◌&&◌, ◌||◌, List, [], ◌∷◌, ◌++◌, retain,
  if◌then◌else◌,
}
use mcpgw.Base.Bytes.{Text}
use mcpgw.Base.Map.{Set, contains_key}
use mcpgw.Sync.Plan.{SyncPlan, plan_entry, plan_entries, list_contains}

-- The second pass, as a whole.
abbrev pub is_free : SyncPlan → Text → Bool
is_free plan name = not (contains_key name plan.desired || list_contains name plan.conflicts)

abbrev pub is_remove : SyncPlan → Set → Text → Bool
is_remove plan managed name = is_free plan name && contains_key name managed

abbrev pub is_foreign : SyncPlan → Set → Text → Bool
is_foreign plan managed name = is_free plan name && not (contains_key name managed)

abbrev pub swept : List Text → List Text → SyncPlan → SyncPlan
swept removes foreign plan = record plan {
  removes = plan.removes ++ removes;
  foreign = plan.foreign ++ foreign;
}

module _ (managed : Set) where
  plan_entry-swept :
      (name : Text) (plan : SyncPlan)
      → plan_entry managed name plan
        ≡ swept
            (if is_remove plan managed name then name ∷ [] else [])
            (if is_foreign plan managed name then name ∷ [] else [])
            plan
  unfolding plan_entry
  plan_entry-swept name plan =
      cases (contains_key name plan.desired || list_contains name plan.conflicts)
        (contains_key name managed)
    where
      cases :
          (a b : Bool)
          → (if a
              then plan
              else if b
              then record plan { removes = plan.removes ++ name ∷ [] }
              else record plan { foreign = plan.foreign ++ name ∷ [] })
            ≡ swept
                (if not a && b then name ∷ [] else [])
                (if not a && not b then name ∷ [] else [])
                plan
      cases true b = record_eq (sym (append-nil plan.removes)) (sym (append-nil plan.foreign))
        where
          record_eq :
              {r f : List Text}
              → plan.removes ≡ r
              → plan.foreign ≡ f
              → plan ≡ record plan { removes = r; foreign = f }
          record_eq p q = cc
      cases false true =
          ap (λ f. record plan { removes = plan.removes ++ name ∷ []; foreign = f })
            (sym (append-nil plan.foreign))
      cases false false =
          ap (λ r. record plan { removes = r; foreign = plan.foreign ++ name ∷ [] })
            (sym (append-nil plan.removes))

  front :
      (xs : List Text) (k : Text) (b : Bool) (rest : List Text)
      → (xs ++ (if b then k ∷ [] else [])) ++ rest ≡ xs ++ (if b then k ∷ rest else rest)
  front xs k true rest = append_assoc xs (k ∷ []) rest
  front xs k false rest = ap (λ l. l ++ rest) (append-nil xs)

  swept-swept :
      (names : List Text) (name : Text) (r f : Bool) (p q : Text → Bool) (plan : SyncPlan)
      → p name ≡ r
      → q name ≡ f
      → swept
          (retain p names)
          (retain q names)
          (swept (if r then name ∷ [] else []) (if f then name ∷ [] else []) plan)
        ≡ swept (retain p (name ∷ names)) (retain q (name ∷ names)) plan
  swept-swept names name r f p q plan a b =
      ap
        (λ l. record plan {
          removes = l;
          foreign = (plan.foreign ++ (if f then name ∷ [] else [])) ++ retain q names;
        })
        (front plan.removes name r (retain p names)
          ∙ ap (λ b. plan.removes ++ (if b then name ∷ retain p names else retain p names)) (sym a))
      ∙ ap (λ l. record plan { removes = plan.removes ++ retain p (name ∷ names); foreign = l })
          (front plan.foreign name f (retain q names)
            ∙ ap (λ b. plan.foreign ++ (if b then name ∷ retain q names else retain q names))
                (sym b))

  pub plan_entries-swept :
      (names : List Text) (plan : SyncPlan)
      → plan_entries managed names plan
        ≡ swept
            (retain (is_remove plan managed) names)
            (retain (is_foreign plan managed) names)
            plan
  unfolding plan_entries
  plan_entries-swept [] plan =
      ap (λ r. record plan { removes = r }) (sym (append-nil plan.removes))
      ∙ ap (λ f. record plan { removes = plan.removes ++ []; foreign = f })
          (sym (append-nil plan.foreign))
  plan_entries-swept (name ∷ names) plan =
      ap (plan_entries managed names) (plan_entry-swept name plan)
      ∙ (plan_entries-swept names (
            swept (if is_remove plan managed name then name ∷ [] else [])
              (if is_foreign plan managed name then name ∷ [] else []) plan)
          ∙ swept-swept names name (is_remove plan managed name) (is_foreign plan managed name)
              (is_remove plan managed) (is_foreign plan managed) plan refl refl)
