-- ===== src/Reload/Serving.antt =====
-- Every endpoint leads to a server that is switched on, through any sequence of polls.
use mathlib.Core.Path.{subst}
use mcpgw.Base.{
  ◌≡◌, refl, ap, ◌∙◌, Bool, true, false, not, ◌&&◌, Option, none, some, List, [], ◌∷◌, All, retain,
  map, if◌then◌else◌, Bool-cases, inl, inr, Result, ok, err, Ordering,
}
use mcpgw.Base.Bytes.{Text, text_eq, text_eq_iff, text_eq_refl, text_cmp, text_cmp_irrefl}
use mcpgw.Base.Map.{Map, get, IsSorted, Below}
use mcpgw.Config.Server.{Server}
use mcpgw.Upstream.Apply.{apply, server}
use mcpgw.Upstream.Apply.Turn.{IsWf}
use mcpgw.Upstream.Apply.Served.{apply-server, apply-IsWf}
use mcpgw.Reload.{
  Config, Reloader, Reading, is_on, select, apply_config, reload, changed, poll, polls,
}

abbrev pub AreOn : (Text → Option Server) → List Text → Type 0
AreOn find names = All (λ n. is_on (find n) ≡ true) names

pub record IsServing (r : Reloader) : Type 0 where
  pub managed : IsWf r.manager
  pub served : AreOn (server r.manager) r.endpoints

retained : (p : Text → Bool) (names : List Text) → All (λ n. p n ≡ true) (retain p names)
retained p [] = tt
retained p (n ∷ names) = elim (Bool-cases (p n)) [
  | inl t ↦ rw t (t, retained p names)
  | inr f ↦ rw f (retained p names)
]

All-map :
    (P Q : Text → Type 0) (names : List Text) → ((n : Text) → P n → Q n) → All P names → All Q names
All-map P Q [] k a = tt
All-map P Q (n ∷ names) k (p, a) = (k n p, All-map P Q names k a)

not_equal : (j k : Text) → text_cmp j k ≡ Ordering.lt → text_eq j k ≡ false
not_equal j k h = elim (Bool-cases (text_eq j k)) [
  | inl t ↦
      absurd (text_cmp_irrefl k (subst (λ x. text_cmp x k ≡ Ordering.lt) ((text_eq_iff j k).0 t) h))
  | inr f ↦ f
]

abbrev Found : Map Server → Map Server → Type 0
Found whole m = All (λ p. get p.0 whole ≡ some p.1) m

further :
    (k : Text) (v : Server) (whole m : Map Server)
    → Below k m
    → Found whole m
    → Found ((k, v) ∷ whole) m
unfolding get
further k v whole [] b f = tt
further k v whole ((j, w) ∷ m) (l, b) (e, f) = (rw (not_equal k j l) e, further k v whole m b f)

found : (m : Map Server) → IsSorted m → Found m m
unfolding get
found [] s = tt
found ((k, v) ∷ m) (b, s) = (rw (text_eq_refl k) refl, further k v m m b (found m s))

enabled_on :
    (whole m : Map Server)
    → Found whole m
    → AreOn (λ n. get n whole) (map (λ p. p.0) (retain (λ p. p.1.enabled) m))
enabled_on whole [] f = tt
enabled_on whole ((k, v) ∷ m) (e, f) = by v.enabled refl (enabled_on whole m f)
  where
    by :
        (b : Bool)
        → v.enabled ≡ b
        → AreOn (λ n. get n whole) (map (λ p. p.0) (retain (λ p. p.1.enabled) m))
        → AreOn
            (λ n. get n whole)
            (map
              (λ p. p.0)
              (if b then (k, v) ∷ retain (λ p. p.1.enabled) m else retain (λ p. p.1.enabled) m))
    by true h rest = (ap is_on e ∙ h, rest)
    by false h rest = rest

select-AreOn :
    (selection : Option (List Text)) (config : Config)
    → IsSorted config.servers
    → AreOn (λ n. get n config.servers) (select selection config)
unfolding select
select-AreOn (some names) config s = retained (λ name. is_on (get name config.servers)) names
select-AreOn none config s = enabled_on config.servers config.servers (found config.servers s)

apply_config-IsServing :
    (r : Reloader) (config : Config)
    → IsWf r.manager
    → IsSorted config.servers
    → IsServing (apply_config r config)
unfolding apply_config
apply_config-IsServing r config wf s = record {
  managed = apply-IsWf r.manager config.servers wf;
  served =
      All-map (λ n. is_on (get n config.servers) ≡ true)
        (λ n. is_on (server (apply r.manager config.servers).0 n) ≡ true)
        (select r.selection config)
        (λ n on. ap is_on (apply-server r.manager config.servers n wf s) ∙ on)
        (select-AreOn r.selection config s);
}

-- The servers of a config that was read are a map, in order.
abbrev pub IsRead : Result Text Config → Type 0
IsRead (err why) = Unit
IsRead (ok config) = IsSorted config.servers

poll-IsServing :
    (r : Reloader) (forced : Bool) (reading : Reading)
    → IsRead reading.loaded
    → IsServing r
    → IsServing (poll r (forced, reading))
unfolding poll reload
poll-IsServing r forced reading read s =
    by (not forced && not (changed r reading.stamp)) reading.loaded read
  where
    marked : Reloader
    marked = record r { seen = reading.stamp }

    loaded_to : Result Text Config → Result Text Reloader × Reloader
    loaded_to l = elim l [
      | err why ↦ (err why, marked)
      | ok config ↦ (ok (apply_config marked config), apply_config marked config)
    ]

    by :
        (b : Bool) (l : Result Text Config)
        → IsRead l
        → IsServing (if b then r else (loaded_to l).1)
    by true l q = s
    by false (err why) q = record { managed = s.managed; served = s.served }
    by false (ok config) q = apply_config-IsServing marked config s.managed q

-- Through any sequence of polls, forced or not, and whatever the config file turns into, a file that
-- does not parse included, every endpoint leads to a server that the manager has and that is switched
-- on. The hypothesis says that the servers of a config that was read stand in order.
pub polls-IsServing :
    (r : Reloader) (looks : List (Bool × Reading))
    → All (λ look. IsRead look.1.loaded) looks
    → IsServing r
    → IsServing (polls r looks)
unfolding polls
polls-IsServing r [] a s = s
polls-IsServing r ((forced, reading) ∷ looks) (q, a) s =
    polls-IsServing (poll r (forced, reading)) looks a (poll-IsServing r forced reading q s)
