-- ===== src/Import/Names.antt =====
-- The names that the first loop of plan_import chooses.
use mcpgw.Base.{
  ℕ, suc, ◌≡◌, ◌≢◌, refl, sym, ap, ◌∙◌, ◌↔◌, Bool, true, false, not, ◌&&◌, ◌||◌, ◌+◌, Option, none,
  some, List, [], ◌∷◌, ◌++◌, In, In-append_left, In-append_right, length, length-append,
  if◌then◌else◌, Bool-cases, inl, inr,
}
use mcpgw.Base.Bytes.{Text, text_eq, text_eq_iff}
use mcpgw.Base.Map.{Map, contains_key, keys}
use mcpgw.Config.Name.{validate_name}
use mcpgw.Config.Server.{Server}
use mcpgw.Sync.Places.{keys_iff}
use mcpgw.Import.Slug.{slugify}
use mcpgw.Import.Suffix.{next_free}
use mcpgw.Import.Suffix.Search.{next_free-IsFirstFree}
use mcpgw.Import.Plan.{
  ImportCandidate, ClientRead, Problem, names, claimed, is_valid, is_taken, choose_name,
  change_first, adopt_origin, candidate_of, take_entry, take_servers, take_sources, notes_of,
}

-- No name twice.
abbrev pub Distinct : List Text → Type 0
Distinct [] = Unit
Distinct (x ∷ l) = (¬ In x l) × Distinct l

In-last : (x y : Text) (l : List Text) → In x (l ++ y ∷ []) → x ≢ y → In x l
In-last x y [] (inl e) d = absurd (d e)
In-last x y [] (inr i) d = elim i [ ]
In-last x y (z ∷ l) (inl e) d = inl e
In-last x y (z ∷ l) (inr i) d = inr (In-last x y l i d)

pub Distinct-snoc : (x : Text) (l : List Text) → Distinct l → ¬ In x l → Distinct (l ++ x ∷ [])
Distinct-snoc x [] d n = (λ i. elim i [ ], tt)
Distinct-snoc x (y ∷ l) (a, d) n =
    (λ i. a (In-last y x l i (λ e. n (inl (sym e)))), Distinct-snoc x l d (λ i. n (inr i)))

pub claimed_iff :
    (n : Text) (candidates : List ImportCandidate)
    → (claimed candidates n ≡ true) ↔ In n (names candidates)
unfolding claimed
claimed_iff n [] = (λ h. cc, λ i. elim i [ ])
claimed_iff n (c ∷ candidates) = elim (Bool-cases (text_eq c.name n)) [
  | inl t ↦ rw t (λ h. inl (sym ((text_eq_iff c.name n).0 t)), λ i. refl)
  | inr f ↦ rw f (
    λ h. inr ((claimed_iff n candidates).0 h),
    λ i. elim i [ inl e ↦ absurd (differ e f) | inr j ↦ (claimed_iff n candidates).1 j ],
  )
]
  where
    differ : n ≡ c.name → ¬ (text_eq c.name n ≡ false)
    differ e f = let same = (text_eq_iff c.name n).1 (sym e) in cc

length-names : (candidates : List ImportCandidate) → length (names candidates) ≡ length candidates
length-names [] = refl
length-names (c ∷ candidates) = ap suc (length-names candidates)

pub length-keys : {V : Type 0} (m : Map V) → length (keys m) ≡ length m
unfolding keys
length-keys [] = refl
length-keys (p ∷ m) = ap suc (length-keys m)

module _ (canonical : Map Server) (candidates : List ImportCandidate) (orig_name : Text) where
  search_free :
      (base : Text)
      → is_taken canonical candidates orig_name (
          next_free
            (length candidates + length canonical)
            base
            (is_taken canonical candidates orig_name))
        ≡ false
  search_free base =
      ap
        (λ n.
          is_taken canonical candidates orig_name
            (next_free n base (is_taken canonical candidates orig_name)))
        (sym (
          length-append (names candidates) (keys canonical)
          ∙ both (length-names candidates) (length-keys canonical)))
      ∙ (next_free-IsFirstFree (names candidates ++ keys canonical) base
          (is_taken canonical candidates orig_name) found).2
    where
      both : {a b c d : ℕ} → a ≡ c → b ≡ d → a + b ≡ c + d
      both p q = cc

      found :
          (name : Text)
          → is_taken canonical candidates orig_name name ≡ true
          → In name (names candidates ++ keys canonical)
      found name t = elim (Bool-cases (claimed candidates name)) [
        | inl c ↦
            In-append_left name (names candidates) (keys canonical)
              ((claimed_iff name candidates).0 c)
        | inr f ↦
            In-append_right name (names candidates) (keys canonical)
              ((keys_iff name canonical).1 (first_of (contains_key name canonical) (rw f at t)))
      ]
        where
          first_of : (b : Bool) → (b && not (text_eq name orig_name)) ≡ true → b ≡ true
          first_of true h = refl
          first_of false h = h

  -- The name chosen is one that no candidate has.
  pub choose_name_new : claimed candidates (choose_name canonical candidates orig_name).0 ≡ false
  unfolding choose_name
  choose_name_new = by (is_valid (validate_name orig_name)) (claimed candidates orig_name) refl
    where
      untaken :
          (n : Text)
          → is_taken canonical candidates orig_name n ≡ false
          → claimed candidates n ≡ false
      untaken n h = left_of (claimed candidates n) _ h
        where
          left_of : (a b : Bool) → (a || b) ≡ false → a ≡ false
          left_of false b h = refl
          left_of true b h = h

      chosen : Bool → Bool → Text × Bool
      chosen valid c = if valid && not c then (orig_name, false) else (
        next_free (length candidates + length canonical)
            (if valid then orig_name else slugify orig_name)
            (is_taken canonical candidates orig_name),
        true,
      )

      by :
          (valid c : Bool)
          → claimed candidates orig_name ≡ c
          → claimed candidates (chosen valid c).0 ≡ false
      by true false h = h
      by true true h = untaken _ (search_free orig_name)
      by false c h = untaken _ (search_free (slugify orig_name))

  choose_name_apart : ¬ In (choose_name canonical candidates orig_name).0 (names candidates)
  choose_name_apart i =
      let bad = sym ((claimed_iff _ candidates).1 i) ∙ choose_name_new in clash bad
    where
      clash : ¬ (true ≡ false)
      clash q = cc

pub names-snoc :
    (candidates : List ImportCandidate) (c : ImportCandidate)
    → names (candidates ++ c ∷ []) ≡ names candidates ++ c.name ∷ []
names-snoc [] c = refl
names-snoc (d ∷ candidates) c = ap (λ l. d.name ∷ l) (names-snoc candidates c)

abbrev names_of : Option (List ImportCandidate) → Option (List Text)
names_of none = none
names_of (some candidates) = some (names candidates)

abbrev IsSame : List Text → Option (List ImportCandidate) → Type 0
IsSame before none = Unit
IsSame before (some changed) = names changed ≡ before

change_first-names :
    (test : ImportCandidate → Bool) (change : ImportCandidate → ImportCandidate)
    (candidates : List ImportCandidate)
    → ((c : ImportCandidate) → (change c).name ≡ c.name)
    → IsSame (names candidates) (change_first test change candidates)
unfolding change_first
change_first-names test change [] k = tt
change_first-names test change (c ∷ candidates) k =
    at (test c) (change_first test change candidates) (change_first-names test change candidates k)
  where
    at :
        (b : Bool) (o : Option (List ImportCandidate))
        → IsSame (names candidates) o
        → IsSame (c.name ∷ names candidates) (
            if b
            then some (change c ∷ candidates)
            else elim o [ none ↦ none | some changed ↦ some (c ∷ changed) ])
    at true o h = ap (λ n. n ∷ names candidates) (k c)
    at false none h = tt
    at false (some changed) h = ap (λ l. c.name ∷ l) h

module _ (command_exists : Text → Bool) (canonical : Map Server) where
  take_entry-Distinct :
      (client_id : Text) (problems : List Problem) (orig_name : Text) (server : Server)
      (candidates : List ImportCandidate)
      → Distinct (names candidates)
      → Distinct (
          names
            (take_entry command_exists canonical client_id problems orig_name server candidates))
  unfolding take_entry adopt_origin candidate_of
  take_entry-Distinct client_id problems orig_name server candidates d = at _ (
      change_first-names _
        (adopt_origin (client_id, orig_name) server (notes_of orig_name problems)) candidates
        (λ c. refl))
    where
      fresh : ImportCandidate
      fresh =
          candidate_of command_exists canonical candidates (client_id, orig_name)
            (notes_of orig_name problems) server

      at :
          (o : Option (List ImportCandidate))
          → IsSame (names candidates) o
          → Distinct (names (elim o [ some changed ↦ changed | none ↦ candidates ++ fresh ∷ [] ]))
      at (some changed) h = rw h d
      at none h = rw (names-snoc candidates fresh) (
          Distinct-snoc fresh.name (names candidates) d
            (choose_name_apart canonical candidates orig_name))

  take_servers-Distinct :
      (client_id : Text) (problems : List Problem) (servers : Map Server)
      (candidates : List ImportCandidate)
      → Distinct (names candidates)
      → Distinct
          (names (take_servers command_exists canonical client_id problems servers candidates))
  unfolding take_servers
  take_servers-Distinct client_id problems [] candidates d = d
  take_servers-Distinct client_id problems ((name, server) ∷ servers) candidates d =
      take_servers-Distinct client_id problems servers _
        (take_entry-Distinct client_id problems name server candidates d)

  pub take_sources-Distinct :
      (sources : List (Text × ClientRead)) (candidates : List ImportCandidate)
      → Distinct (names candidates)
      → Distinct (names (take_sources command_exists canonical sources candidates))
  unfolding take_sources
  take_sources-Distinct [] candidates d = d
  take_sources-Distinct ((client_id, read) ∷ sources) candidates d =
      take_sources-Distinct sources _
        (take_servers-Distinct client_id read.problems read.servers candidates d)
