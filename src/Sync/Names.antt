-- ===== src/Sync/Names.antt =====
-- under_client_names: a desired set rewritten from canonical names into one client's own names.
use mcpgw.Base.{
  ◌≡◌, refl, sym, ap, ◌∙◌, ◌⊎◌, inl, inr, Bool, true, false, Option, none, some, List, [], ◌∷◌,
  ◌++◌, In, is_empty, map, if◌then◌else◌,
}
use mcpgw.Base.Bytes.{Text, text_eq, text_eq_iff}
use mcpgw.Base.Map.{
  Map, get, contains_key, insert, collect, collect_onto, IsSorted, get-insert, In-get,
  contains_key-none,
}
use mcpgw.Config.Server.{Server}

pub record ClientNames : Type 0 where
  pub desired : Map Server
  pub displaced : List Text

abbrev swapped : Text × Text → Text × Text
swapped (entry, canonical) = (canonical, entry)

unfoldable pub entries_for : Map Text → Map Text
unfolding collect
entries_for resolved = collect (map swapped resolved)

-- One turn of the loop.
unfoldable pub rename : Option Text → Bool → Text → Server → ClientNames → ClientNames
unfolding insert
rename (some entry) answered canonical server out = record out {
  desired = insert entry server out.desired;
}
rename none true canonical server out = record out { displaced = out.displaced ++ canonical ∷ [] }
rename none false canonical server out = record out {
  desired = insert canonical server out.desired;
}

unfoldable pub rename_all : Map Text → Map Text → Map Server → ClientNames → ClientNames
unfolding rename get contains_key
rename_all entries resolved [] out = out
rename_all entries resolved ((canonical, server) ∷ desired) out =
    rename_all entries resolved desired
      (rename (get canonical entries) (contains_key canonical resolved) canonical server out)

unfoldable pub under_client_names : Map Server → Map Text → ClientNames
unfolding entries_for rename_all
under_client_names desired resolved =
    if is_empty resolved
    then record { desired = desired; displaced = [] }
    else rename_all (entries_for resolved) resolved desired
        (record { desired = []; displaced = [] })

collected :
    (k v : Text) (m l : Map Text)
    → get k (collect_onto m l) ≡ some v
    → In (k, v) l ⊎ (get k m ≡ some v)
unfolding collect_onto
collected k v m [] h = inr h
collected k v m ((j, w) ∷ l) h = elim (collected k v (insert j w m) l h) [
  | inl i ↦ inl (inr i)
  | inr g ↦ here (text_eq j k) refl (sym (get-insert k j w m) ∙ g)
]
  where
    here :
        (b : Bool)
        → text_eq j k ≡ b
        → (if b then some w else get k m) ≡ some v
        → In (k, v) ((j, w) ∷ l) ⊎ (get k m ≡ some v)
    here true t g = let same = (text_eq_iff j k).0 t in inl (inl (cc))
    here false t g = inr g

In-swapped : (n e : Text) (l : Map Text) → In (n, e) (map swapped l) → In (e, n) l
In-swapped n e [] i = elim i [ ]
In-swapped n e ((f, m) ∷ l) (inl q) = inl (ap swapped q)
In-swapped n e ((f, m) ∷ l) (inr i) = inr (In-swapped n e l i)

entries_for-get :
    (n e : Text) (resolved : Map Text)
    → IsSorted resolved
    → get n (entries_for resolved) ≡ some e
    → get e resolved ≡ some n
unfolding entries_for collect get
entries_for-get n e resolved s h = elim (collected n e [] (map swapped resolved) h) [
  | inl i ↦ In-get e n resolved s (In-swapped n e resolved i)
  | inr g ↦ cc
]

module _ (all : Map Server) (resolved : Map Text) (sorted : IsSorted resolved) (e c : Text)
    (h : get e resolved ≡ some c) where
  abbrev StandsFor : ClientNames → Type 0
  StandsFor out = (s : Server) → get e out.desired ≡ some s → get c all ≡ some s

  some_inj : {V : Type 0} (x y : V) → some x ≡ some y → x ≡ y
  some_inj x y q = cc

  inserted :
      (k : Text) (v : Server) (out : ClientNames)
      → (k ≡ e → get c all ≡ some v)
      → StandsFor out
      → StandsFor (record out { desired = insert k v out.desired })
  inserted k v out new old s g = cases (text_eq k e) refl (sym (get-insert e k v out.desired) ∙ g)
    where
      cases :
          (b : Bool)
          → text_eq k e ≡ b
          → (if b then some v else get e out.desired) ≡ some s
          → get c all ≡ some s
      cases true t q = new ((text_eq_iff k e).0 t) ∙ q
      cases false t q = old s q

  rename-StandsFor :
      (o : Option Text) (b : Bool) (n : Text) (v : Server) (out : ClientNames)
      → get n (entries_for resolved) ≡ o
      → contains_key n resolved ≡ b
      → get n all ≡ some v
      → StandsFor out
      → StandsFor (rename o b n v out)
  unfolding rename
  rename-StandsFor (some f) b n v out p q g old =
      inserted f v out
        (λ same.
          let found = entries_for-get n f resolved sorted p in
          let moved = ap (λ x. get x resolved) same in
          let named = some_inj n c (sym found ∙ (moved ∙ h)) in ap (λ x. get x all) (sym named) ∙ g)
        old
  rename-StandsFor none true n v out p q g old = old
  rename-StandsFor none false n v out p q g old =
      inserted n v out
        (λ same.
          let gone = contains_key-none n resolved q in
          let moved = ap (λ x. get x resolved) same in cc)
        old

  rename_all-StandsFor :
      (l : Map Server) (out : ClientNames)
      → ((n : Text) (v : Server) → In (n, v) l → get n all ≡ some v)
      → StandsFor out
      → StandsFor (rename_all (entries_for resolved) resolved l out)
  unfolding rename_all
  rename_all-StandsFor [] out within old = old
  rename_all-StandsFor ((n, v) ∷ l) out within old =
      rename_all-StandsFor l
        (rename (get n (entries_for resolved)) (contains_key n resolved) n v out)
        (λ m w i. within m w (inr i))
        (rename-StandsFor (get n (entries_for resolved)) (contains_key n resolved) n v out refl refl
          (within n v (inl refl)) old)

-- An entry that the user said stands for a canonical server is only ever rewritten as that server:
-- whatever is to be written under its name is the definition of the server it stands for.
pub under_client_names-resolved :
    (desired : Map Server) (resolved : Map Text) (entry canonical : Text) (server : Server)
    → IsSorted desired
    → IsSorted resolved
    → get entry resolved ≡ some canonical
    → get entry (under_client_names desired resolved).desired ≡ some server
    → get canonical desired ≡ some server
unfolding under_client_names get
under_client_names-resolved desired [] entry canonical server d r h g = cc
under_client_names-resolved desired (pair ∷ resolved) entry canonical server d r h g =
    rename_all-StandsFor desired (pair ∷ resolved) r entry canonical h desired
      (record { desired = []; displaced = [] }) (λ n v i. In-get n v desired d i) (λ s q. cc) server
      g
